-- ===== src/PageMeta/Document/Addresses.antt =====
-- Where the links to related pages lead, for pages whose paths are lists of names.
use multiplayer_fabric_manua.Common.{true, List, [], ◌∷◌, ◌++◌, ◌≡◌, refl, arith, ap, ◌∙◌}
use multiplayer_fabric_manua.Common.Lists.{All}
use multiplayer_fabric_manua.Common.Text.{Text, codes, text_eq, join_with}
use multiplayer_fabric_manua.PosixPath.{join, normpath}
use multiplayer_fabric_manua.PosixPath.Components.{
  no_slash, is_part, is_name, IsName, names-IsPart, slashed, slashed_more-is_relative,
}
use multiplayer_fabric_manua.PosixPath.Folders.{join-empty, slashed-is_empty}
use multiplayer_fabric_manua.PosixPath.Relative.{rooted, IsOutside}
use multiplayer_fabric_manua.PageMeta.Document.{way_to}
use multiplayer_fabric_manua.PosixPath.Endings.{from_root, lead}

all-append_html : (p : Text) → no_slash p ≡ true → no_slash (p ++ codes ".html") ≡ true
all-append_html [] h = refl
all-append_html (c ∷ p) h = let k = all-append_html p (ground arith) in ground arith

html-IsName : (p : Text) → IsName p → IsName (p ++ codes ".html")
unfolding is_name is_part text_eq
html-IsName [] h = absurd (ground arith)
html-IsName (c ∷ []) h = ground arith
html-IsName (c ∷ d ∷ []) h = ground arith
html-IsName (c ∷ d ∷ e ∷ p) h =
    let k = all-append_html (c ∷ d ∷ e ∷ p) (ground arith) in ground arith

module _ (cs : List Text) (nc : All IsName cs) (q : Text) (qs : List Text)
    (nq : All IsName (q ∷ qs)) where
  -- The folder of a page joined with the address of another page is in normal form the path of that
  -- other page with `.html`, when the paths of both and of the working directory are lists of names
  -- and the folder is neither the path of the other page nor below it.
  pub way_to-normpath :
      (hs : List Text)
      → All IsName hs
      → IsOutside hs (q ∷ qs)
      → normpath (join (slashed hs) (way_to (rooted cs) (slashed hs) (slashed (q ∷ qs))))
        ≡ slashed (q ∷ qs) ++ codes ".html"
  way_to-normpath [] nh out =
      unfold join_with in
      ap normpath (
        join-empty (slashed (q ∷ qs) ++ codes ".html")
          (slashed_more-is_relative q qs (codes ".html") (names-IsPart (q ∷ qs) nq)))
      ∙ from_root (codes ".html") html-IsName q qs nq
  way_to-normpath (h ∷ hs) nh out =
      rw (slashed-is_empty h hs (names-IsPart (h ∷ hs) nh))
        (lead (codes ".html") html-IsName cs nc q qs nq h hs nh out)
