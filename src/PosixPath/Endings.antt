-- ===== src/PosixPath/Endings.antt =====
-- What a relative path leads to, when something like `.html` is put behind it.
use mathlib.Core.Path.{subst}
use mathlib.Core.List.{append_assoc}
use multiplayer_fabric_manua.Common.{true, List, [], ◌∷◌, ◌++◌, ◌≡◌, ◌≢◌, refl, sym, ap, ◌∙◌}
use multiplayer_fabric_manua.Common.Lists.{
  All, All-append, All-append_left, All-append_right, length,
}
use multiplayer_fabric_manua.Common.Text.{Text, split, join_with}
use multiplayer_fabric_manua.PosixPath.{join, normpath, relpath}
use multiplayer_fabric_manua.PosixPath.Components.{
  IsPart, IsName, names-IsPart, slashed, is_relative, slashed_more-is_relative, parts-is_relative,
  split-append, split-slashed, split-parts,
}
use multiplayer_fabric_manua.PosixPath.Keeping.{up_list, normpath-up_again, some_more}
use multiplayer_fabric_manua.PosixPath.Folders.{join-slashed}
use multiplayer_fabric_manua.PosixPath.Relative.{
  rooted, IsOutside, Fork, fork, relpath-slashed, up_list-IsPart,
}

-- Paths with an ending behind the last name, which stays a name.
module _ (ending : Text) (keeps : (p : Text) → IsName p → IsName (p ++ ending)) where
  -- The path with the ending behind its last name.
  abbrev ended : List Text → List Text
  ended [] = []
  ended (p ∷ []) = (p ++ ending) ∷ []
  ended (p ∷ q ∷ ps) = p ∷ ended (q ∷ ps)

  slashed-ended :
      (p : Text) (ps : List Text) → slashed (ended (p ∷ ps)) ≡ slashed (p ∷ ps) ++ ending
  unfolding join_with
  slashed-ended p [] = refl
  slashed-ended p (q ∷ []) = sym (append_assoc p (b'/' ∷ q) ending)
  slashed-ended p (q ∷ r ∷ ps) =
      ap (λ s. p ++ b'/' ∷ s) (slashed-ended q (r ∷ ps))
      ∙ sym (append_assoc p (b'/' ∷ slashed (q ∷ r ∷ ps)) ending)

  ended-append :
      (ps : List Text) (q : Text) (qs : List Text) → ended (ps ++ q ∷ qs) ≡ ps ++ ended (q ∷ qs)
  ended-append [] q qs = refl
  ended-append (p ∷ []) q qs = refl
  ended-append (p ∷ r ∷ ps) q qs = ap (λ l. p ∷ l) (ended-append (r ∷ ps) q qs)

  slashed_append-ended :
      (ps : List Text) (q : Text) (qs : List Text)
      → slashed (ps ++ q ∷ qs) ++ ending ≡ slashed (ps ++ ended (q ∷ qs))
  slashed_append-ended [] q qs = sym (slashed-ended q qs)
  slashed_append-ended (p ∷ ps) q qs =
      sym (slashed-ended p (ps ++ q ∷ qs)) ∙ ap slashed (ended-append (p ∷ ps) q qs)

  ended-IsName : (ps : List Text) → All IsName ps → All IsName (ended ps)
  ended-IsName [] h = tt
  ended-IsName (p ∷ []) h = (keeps p h.0, tt)
  ended-IsName (p ∷ q ∷ ps) h = (h.0, ended-IsName (q ∷ ps) h.1)

  some_ended : (ps : List Text) (q : Text) (qs : List Text) → (ps ++ ended (q ∷ qs)) ≢ []
  some_ended [] q [] e = cc
  some_ended [] q (r ∷ qs) e = cc
  some_ended (p ∷ ps) q qs e = cc

  -- The components of the address of a path of names, the ending behind it.
  split-ended :
      (ps : List Text) (q : Text) (qs : List Text)
      → All IsPart ps
      → All IsName (q ∷ qs)
      → split b'/' (slashed (ps ++ q ∷ qs) ++ ending) ≡ ps ++ ended (q ∷ qs)
  split-ended ps q qs hp hq =
      let names_ended = ended (q ∷ qs) in
      ap (split b'/') (slashed_append-ended ps q qs)
      ∙ split-parts (ps ++ names_ended)
          (All-append IsPart ps names_ended hp
            (names-IsPart names_ended (ended-IsName (q ∷ qs) hq)))
          (some_ended ps q qs)

  module _ (q : Text) (qs : List Text) (nq : All IsName (q ∷ qs)) where
    pub from_root : normpath (slashed (q ∷ qs) ++ ending) ≡ slashed (q ∷ qs) ++ ending
    from_root =
        normpath-up_again (slashed (q ∷ qs) ++ ending) [] [] (ended (q ∷ qs)) tt tt
          (ended-IsName (q ∷ qs) nq) (some_ended [] q qs)
          (slashed_more-is_relative q qs ending (names-IsPart (q ∷ qs) nq))
          (split-ended [] q qs tt nq)
        ∙ slashed-ended q qs

    from_folder :
        (h : Text) (hs : List Text)
        → All IsName (h ∷ hs)
        → (f : Fork (h ∷ hs) (q ∷ qs))
        → normpath (
            join
              (slashed (h ∷ hs))
              (slashed (up_list (length f.left) ++ f.next ∷ f.rest) ++ ending))
          ≡ slashed (q ∷ qs) ++ ending
    from_folder h hs nh f =
        ap normpath (join-slashed h hs way (names-IsPart (h ∷ hs) nh) way-is_relative)
        ∙ (normpath-up_again (slashed (h ∷ hs) ++ b'/' ∷ way) f.common f.left names_ended
              (All-append_left IsName f.common f.left parted)
              (All-append_right IsName f.common f.left parted)
              (ended-IsName (f.next ∷ f.rest) names) (some_ended f.common f.next f.rest)
              (slashed_more-is_relative h hs (b'/' ∷ way) (names-IsPart (h ∷ hs) nh)) split_way
            ∙ (sym (slashed_append-ended f.common f.next f.rest)
                ∙ ap (λ l. slashed l ++ ending) (sym f.path_eq)))
      where
        ups : List Text
        ups = up_list (length f.left)

        names_ended : List Text
        names_ended = ended (f.next ∷ f.rest)

        way : Text
        way = slashed (ups ++ f.next ∷ f.rest) ++ ending

        parted : All IsName (f.common ++ f.left)
        parted = subst (All IsName) f.start_eq nh

        names : All IsName (f.next ∷ f.rest)
        names = All-append_right IsName f.common (f.next ∷ f.rest) (subst (All IsName) f.path_eq nq)

        way-is_relative : is_relative way ≡ true
        way-is_relative =
            parts-is_relative (ups ++ f.next ∷ f.rest) ending
              (All-append IsPart ups (f.next ∷ f.rest) (up_list-IsPart f.left)
                (names-IsPart (f.next ∷ f.rest) names))
              (some_more ups f.next f.rest)

        split_way :
            split b'/' (slashed (h ∷ hs) ++ b'/' ∷ way)
            ≡ (f.common ++ f.left) ++ (ups ++ names_ended)
        split_way =
            split-append (slashed (h ∷ hs)) way
            ∙ (ap (λ l. l ++ split b'/' way)
                  (split-slashed h hs (names-IsPart (h ∷ hs) nh) ∙ f.start_eq)
                ∙ ap (λ l. (f.common ++ f.left) ++ l)
                    (split-ended ups f.next f.rest (up_list-IsPart f.left) names))

  -- What a relative path leads to, with the ending.
  pub lead :
      (cs : List Text)
      → All IsName cs
      → (q : Text) (qs : List Text) → All IsName (q ∷ qs)
      → (h : Text) (hs : List Text) → All IsName (h ∷ hs)
      → IsOutside (h ∷ hs) (q ∷ qs)
      → normpath (
          join
            (slashed (h ∷ hs))
            (relpath (rooted cs) (slashed (q ∷ qs)) (slashed (h ∷ hs)) ++ ending))
        ≡ slashed (q ∷ qs) ++ ending
  lead cs nc q qs nq h hs nh out =
      let f = fork (h ∷ hs) (q ∷ qs) out in
      rw (relpath-slashed cs h hs q qs nc nh nq f) (from_folder q qs nq h hs nh f)
