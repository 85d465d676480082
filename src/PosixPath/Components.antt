-- ===== src/PosixPath/Components.antt =====
-- Paths as lists of names.
use mathlib.Core.Path.{subst}
use mathlib.Core.List.{append-nil}
use multiplayer_fabric_manua.Common.{
  ℕ, Bool, true, false, not, ◌&&◌, List, [], ◌∷◌, ◌++◌, ◌≡◌, ◌≢◌, refl, arith, sym, ap, ◌∙◌, inl,
  inr,
}
use multiplayer_fabric_manua.Common.Tests.{◌==◌, Bool-cases}
use multiplayer_fabric_manua.Common.Lists.{All, all}
use multiplayer_fabric_manua.Common.Text.{
  Text, codes, text_eq, starts_with, split, cons_head, join_with,
}
use multiplayer_fabric_manua.PosixPath.{is_empty, or_dot}

abbrev pub no_slash : Text → Bool
no_slash p = all (λ c. not (c == b'/')) p

-- A component of a path: not empty and without a slash.
unfoldable pub is_part : Text → Bool
is_part p = no_slash p && not (is_empty p)

abbrev pub IsPart : Text → Type 0
IsPart p = is_part p ≡ true

-- The name of a file or a folder: a component that is neither `.` nor `..`.
unfoldable pub is_name : Text → Bool
unfolding is_part
is_name p = is_part p && (not (text_eq p (codes ".")) && not (text_eq p (codes "..")))

abbrev pub IsName : Text → Type 0
IsName p = is_name p ≡ true

abbrev pub slashed : List Text → Text
slashed ps = join_with (codes "/") ps

cons_head-append :
    (c sep : ℕ) (s : Text) (l : List Text)
    → cons_head c (split sep s) ++ l ≡ cons_head c (split sep s ++ l)
unfolding split
cons_head-append c sep [] l = refl
cons_head-append c sep (d ∷ s) l = elim (Bool-cases (d == sep)) [
  | inl e ↦ rw e refl
  | inr e ↦ rw e (again (split sep s))
]
  where
    again : (r : List Text) → cons_head c (cons_head d r) ++ l ≡ cons_head c (cons_head d r ++ l)
    again [] = refl
    again (p ∷ ps) = refl

pub split-append : (s t : Text) → split b'/' (s ++ b'/' ∷ t) ≡ split b'/' s ++ split b'/' t
unfolding split
split-append [] t = refl
split-append (c ∷ s) t = elim (Bool-cases (c == b'/')) [
  | inl e ↦ rw e (ap (λ l. [] ∷ l) (split-append s t))
  | inr e ↦
      rw e (ap (cons_head c) (split-append s t) ∙ sym (cons_head-append c b'/' s (split b'/' t)))
]

split-no_slash : (p : Text) → no_slash p ≡ true → split b'/' p ≡ p ∷ []
unfolding split
split-no_slash [] h = refl
split-no_slash (c ∷ p) h =
    let e : (c == b'/') ≡ false = ground arith in
    rw e (ap (cons_head c) (split-no_slash p (ground arith)))

pub part-no_slash : (p : Text) → IsPart p → no_slash p ≡ true
unfolding is_part
part-no_slash p h = ground arith

pub name-IsPart : (p : Text) → IsName p → IsPart p
unfolding is_name
name-IsPart p h = ground arith

pub names-IsPart : (ps : List Text) → All IsName ps → All IsPart ps
names-IsPart [] h = tt
names-IsPart (p ∷ ps) h = (name-IsPart p h.0, names-IsPart ps h.1)

pub split-slashed :
    (p : Text) (ps : List Text) → All IsPart (p ∷ ps) → split b'/' (slashed (p ∷ ps)) ≡ p ∷ ps
unfolding join_with
split-slashed p [] (h, hs) = split-no_slash p (part-no_slash p h)
split-slashed p (q ∷ ps) (h, hs) =
    split-append p (slashed (q ∷ ps))
    ∙ (ap (λ l. l ++ split b'/' (slashed (q ∷ ps))) (split-no_slash p (part-no_slash p h))
        ∙ ap (λ l. p ∷ l) (split-slashed q ps hs))

-- A relative path: it is not empty and begins with no slash.
abbrev pub is_relative : Text → Bool
is_relative [] = false
is_relative (c ∷ s) = not (c == b'/')

pub slashed_more-is_relative :
    (p : Text) (ps : List Text) (r : Text)
    → All IsPart (p ∷ ps)
    → is_relative (slashed (p ∷ ps) ++ r) ≡ true
unfolding is_part join_with
slashed_more-is_relative [] ps r h = absurd (ground arith)
slashed_more-is_relative (c ∷ p) [] r h = ground arith
slashed_more-is_relative (c ∷ p) (q ∷ ps) r h = ground arith

pub relative-starts_with : (s : Text) → is_relative s ≡ true → starts_with s (codes "/") ≡ false
unfolding starts_with
relative-starts_with [] h = refl
relative-starts_with (c ∷ s) h = ground arith

pub relative-all : (s : Text) → is_relative s ≡ true → all (λ c. c == b'/') s ≡ false
relative-all [] h = absurd (ground arith)
relative-all (c ∷ s) h = ground arith

pub relative-or_dot : (s : Text) → is_relative s ≡ true → or_dot s ≡ s
relative-or_dot [] h = absurd (ground arith)
relative-or_dot (c ∷ s) h = refl

pub slashed-is_relative :
    (p : Text) (ps : List Text) → All IsPart (p ∷ ps) → is_relative (slashed (p ∷ ps)) ≡ true
slashed-is_relative p ps h =
    subst (λ x. is_relative x ≡ true) (append-nil (slashed (p ∷ ps)))
      (slashed_more-is_relative p ps [] h)

pub slashed-or_dot : (ps : List Text) → All IsPart ps → ps ≢ [] → or_dot (slashed ps) ≡ slashed ps
slashed-or_dot [] h ne = absurd (ne refl)
slashed-or_dot (p ∷ ps) h ne = relative-or_dot (slashed (p ∷ ps)) (slashed-is_relative p ps h)

pub split-parts : (ps : List Text) → All IsPart ps → ps ≢ [] → split b'/' (slashed ps) ≡ ps
split-parts [] h ne = absurd (ne refl)
split-parts (p ∷ ps) h ne = split-slashed p ps h

pub parts-is_relative :
    (ps : List Text) (r : Text) → All IsPart ps → ps ≢ [] → is_relative (slashed ps ++ r) ≡ true
parts-is_relative [] r h ne = absurd (ne refl)
parts-is_relative (p ∷ ps) r h ne = slashed_more-is_relative p ps r h
