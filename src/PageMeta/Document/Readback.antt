-- ===== src/PageMeta/Document/Readback.antt =====
-- How the scan would read the links to related pages.
use Prim.Native.Nat.{◌-◌}
use mathlib.Core.Path.{subst}
use mathlib.Core.List.{append-nil, reverse-append}
use multiplayer_fabric_manua.Common.{
  ◌+◌, some, Bool, true, false, not, ◌&&◌, List, [], ◌∷◌, ◌++◌, ◌≡◌, refl, arith, sym, ap, ◌∙◌,
}
use multiplayer_fabric_manua.Common.Tests.{◌==◌}
use multiplayer_fabric_manua.Common.Lists.{
  All, All-append, All-append_right, length-append, all, length,
}
use multiplayer_fabric_manua.Common.Text.{
  Text, codes, text_eq, join_with, first_part, ends_with, starts_with, take,
}
use multiplayer_fabric_manua.PosixPath.{join, normpath, relpath}
use multiplayer_fabric_manua.PosixPath.Components.{
  is_part, IsPart, is_name, IsName, names-IsPart, slashed, is_relative, parts-is_relative,
  slashed-is_relative,
}
use multiplayer_fabric_manua.PosixPath.Keeping.{up_list, some_more}
use multiplayer_fabric_manua.PosixPath.Folders.{join-empty, slashed-is_empty}
use multiplayer_fabric_manua.PosixPath.Relative.{
  rooted, IsOutside, Fork, fork, relpath-slashed, up_list-IsPart,
}
use multiplayer_fabric_manua.PageMeta.Document.{way_to}
use multiplayer_fabric_manua.PageMeta.Paths.{
  bare, strip_ext, strip_one_of, resolve, resolve_bare, inside,
}
use multiplayer_fabric_manua.PosixPath.Endings.{from_root, lead}

-- Without a fragment or a query.
abbrev pub is_plain : Text → Bool
is_plain t = all (λ c. not (c == b'#') && not (c == b'?')) t

abbrev pub IsPlain : Text → Type 0
IsPlain t = is_plain t ≡ true

first_part-plain : (t : Text) → IsPlain t → (first_part b'#' t ≡ t) × (first_part b'?' t ≡ t)
unfolding first_part
first_part-plain [] h = (refl, refl)
first_part-plain (c ∷ t) h =
    let (a, b) = first_part-plain t (ground arith) in
    let e : (c == b'#') ≡ false = ground arith in
    let k : (c == b'?') ≡ false = ground arith in
    (rw e (ap (λ s. c ∷ s) a), rw k (ap (λ s. c ∷ s) b))

bare-plain : (t : Text) → IsPlain t → bare t ≡ t
unfolding bare
bare-plain t h = let (a, b) = first_part-plain t h in ap (first_part b'?') a ∙ b

append-IsPlain : (s t : Text) → IsPlain s → IsPlain t → IsPlain (s ++ t)
append-IsPlain [] t h k = k
append-IsPlain (c ∷ s) t h k = let r = append-IsPlain s t (ground arith) k in ground arith

slashed-IsPlain : (ps : List Text) → All IsPlain ps → IsPlain (slashed ps)
unfolding join_with
slashed-IsPlain [] h = refl
slashed-IsPlain (p ∷ []) h = h.0
slashed-IsPlain (p ∷ q ∷ ps) h =
    append-IsPlain p (b'/' ∷ slashed (q ∷ ps)) h.0 (slashed-IsPlain (q ∷ ps) h.1)

up_list-IsPlain : (l : List Text) → All IsPlain (up_list (length l))
up_list-IsPlain [] = tt
up_list-IsPlain (x ∷ l) = (refl, up_list-IsPlain l)

take-append : (s t : Text) → take (length s) (s ++ t) ≡ s
unfolding take
take-append [] t = refl
take-append (c ∷ s) t = ap (λ r. c ∷ r) (take-append s t)

strip_ext-html : (t : Text) → strip_ext (t ++ codes ".html") ≡ t
unfolding strip_ext strip_one_of ends_with starts_with
strip_ext-html t =
    let e : length (t ++ codes ".html") - 5 ≡ length t =
      shorter (length-append t (codes ".html")) in
    rw (reverse-append t (codes ".html"), e) (take-append t (codes ".html"))
  where
    shorter :
        length (t ++ codes ".html") ≡ length t + 5 → length (t ++ codes ".html") - 5 ≡ length t
    shorter k = omega arith

resolve_bare-join :
    (d t : Text) → is_relative t ≡ true → resolve_bare d t ≡ inside (normpath (join d t))
resolve_bare-join d [] h = absurd (ground arith)
resolve_bare-join [] (c ∷ t) h = ap (λ x. inside (normpath x)) (sym (join-empty (c ∷ t) h))
resolve_bare-join (e ∷ d) (c ∷ t) h = refl

-- A link, `.html` behind it, is read as the page that it leads to.
resolve-html :
    (d t : Text)
    → is_relative t ≡ true
    → IsPlain t
    → resolve d (t ++ codes ".html") ≡ inside (normpath (join d t))
unfolding resolve
resolve-html d t h k =
    rw (bare-plain (t ++ codes ".html") (append-IsPlain t (codes ".html") k refl), strip_ext-html t)
      (resolve_bare-join d t h)

slashed-inside :
    (q : Text) (qs : List Text)
    → IsName q
    → starts_with q (codes "..") ≡ false
    → inside (slashed (q ∷ qs)) ≡ some (slashed (q ∷ qs))
unfolding join_with starts_with is_name is_part text_eq
slashed-inside [] qs n h = absurd (ground arith)
slashed-inside (c ∷ []) [] n h = ground arith
slashed-inside (c ∷ []) (r ∷ qs) n h = ground arith
slashed-inside (c ∷ d ∷ q) [] n h = rw h refl
slashed-inside (c ∷ d ∷ q) (r ∷ qs) n h = rw h refl

no_ending-IsName : (p : Text) → IsName p → IsName (p ++ [])
no_ending-IsName p h = subst IsName (sym (append-nil p)) h

module _ (cs : List Text) (nc : All IsName cs) (q : Text) (qs : List Text)
    (nq : All IsName (q ∷ qs)) where
  -- The address of a page in a link of another page is read back by the scan as that page's key, when
  -- the paths of both and of the working directory are lists of names, the key has neither `#` nor
  -- `?` and does not begin with `..`, and the folder of the linking page is neither the key nor below
  -- it.
  pub resolve-way_to :
      All IsPlain (q ∷ qs)
      → starts_with q (codes "..") ≡ false
      → (hs : List Text) → All IsName hs
      → IsOutside hs (q ∷ qs)
      → resolve (slashed hs) (way_to (rooted cs) (slashed hs) (slashed (q ∷ qs)))
        ≡ some (slashed (q ∷ qs))
  resolve-way_to plain dots [] nh out =
      let part = names-IsPart (q ∷ qs) nq in
      let rel = slashed-is_relative q qs part in
      unfold join_with in
      resolve-html [] (slashed (q ∷ qs)) rel (slashed-IsPlain (q ∷ qs) plain)
      ∙ (ap (λ x. inside (normpath x)) (join-empty (slashed (q ∷ qs)) rel)
          ∙ (ap inside normal ∙ slashed-inside q qs nq.0 dots))
    where
      normal : normpath (slashed (q ∷ qs)) ≡ slashed (q ∷ qs)
      normal =
          subst (λ x. normpath x ≡ x) (append-nil (slashed (q ∷ qs)))
            (from_root [] no_ending-IsName q qs nq)
  resolve-way_to plain dots (h ∷ hs) nh out =
      rw (slashed-is_empty h hs (names-IsPart (h ∷ hs) nh)) (
        resolve-html here way (subst (λ x. is_relative x ≡ true) (sym same) parts-relative)
          (subst IsPlain (sym same) (slashed-IsPlain parts parts-IsPlain))
        ∙ (ap inside normal ∙ slashed-inside q qs nq.0 dots))
    where
      here : Text
      here = slashed (h ∷ hs)

      way : Text
      way = relpath (rooted cs) (slashed (q ∷ qs)) here

      f : Fork (h ∷ hs) (q ∷ qs)
      f = fork (h ∷ hs) (q ∷ qs) out

      parts : List Text
      parts = up_list (length f.left) ++ f.next ∷ f.rest

      same : way ≡ slashed parts
      same = relpath-slashed cs h hs q qs nc nh nq f

      parts-relative : is_relative (slashed parts) ≡ true
      parts-relative =
          subst (λ x. is_relative x ≡ true) (append-nil (slashed parts))
            (parts-is_relative parts []
              (All-append IsPart (up_list (length f.left)) (f.next ∷ f.rest) (up_list-IsPart f.left)
                (names-IsPart (f.next ∷ f.rest) (
                  All-append_right IsName f.common (f.next ∷ f.rest)
                    (subst (All IsName) f.path_eq nq))))
              (some_more (up_list (length f.left)) f.next f.rest))

      parts-IsPlain : All IsPlain parts
      parts-IsPlain =
          All-append IsPlain (up_list (length f.left)) (f.next ∷ f.rest) (up_list-IsPlain f.left) (
            All-append_right IsPlain f.common (f.next ∷ f.rest)
              (subst (All IsPlain) f.path_eq plain))

      normal : normpath (join here way) ≡ slashed (q ∷ qs)
      normal =
          ap (λ x. normpath (join here x)) (sym (append-nil way))
          ∙ (lead [] no_ending-IsName cs nc q qs nq h hs nh out ∙ append-nil (slashed (q ∷ qs)))
