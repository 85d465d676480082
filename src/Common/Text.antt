-- ===== src/Common/Text.antt =====
-- Python's `str` as a list of code points, and the string methods that the scripts call.
use Prim.Native.Nat.{ℕ, zero, suc}
use Prim.Native.Char.{code}
use Prim.Native.String.{String}
use mathlib.Core.Path.{◌≡◌, refl, sym, subst}
use mathlib.Core.Logic.{◌↔◌}
use mathlib.Core.Bool.{not, Bool, true, false, ◌&&◌, ◌||◌, false≢true}
use mathlib.Core.Option.{Option, none, some}
use multiplayer_fabric_manua.Common.Lists.{Distinct, any, any_mem, any_of_mem}
use mathlib.Core.List.{List, [], ◌∷◌, ◌++◌, reverse, Memᴰ}
use native.Mathlib.Omega.{arith}
use multiplayer_fabric_manua.Common.Tests.{◌==◌, ltb, if◌then◌else◌}

abbrev pub Text : Type 0
Text = List ℕ

-- The code points of a literal.
abbrev pub codes : String → Text
codes String.[] = []
codes (String.◌∷◌ c s) = code c ∷ codes s

-- `a == b`
unfoldable pub text_eq : Text → Text → Bool
text_eq [] [] = true
text_eq (a ∷ s) (b ∷ t) = a == b && text_eq s t
text_eq _ _ = false

pub text_eq_iff : (s t : Text) → (text_eq s t ≡ true) ↔ (s ≡ t)
unfolding text_eq
text_eq_iff [] [] = (λ h. refl, λ h. refl)
text_eq_iff [] (b ∷ t) = (λ h. absurd (false≢true h), λ h. cc)
text_eq_iff (a ∷ s) [] = (λ h. absurd (false≢true h), λ h. cc)
text_eq_iff (a ∷ s) (b ∷ t) = ground (arith, text_eq_iff s t)

pub text_eq_refl : (s : Text) → text_eq s s ≡ true
text_eq_refl s = (text_eq_iff s s).1 refl

-- `s.startswith(prefix)`
unfoldable pub starts_with : Text → Text → Bool
starts_with s [] = true
starts_with [] (p ∷ ps) = false
starts_with (c ∷ s) (p ∷ ps) = c == p && starts_with s ps

pub starts_with_iff : (s p : Text) → (starts_with s p ≡ true) ↔ ((r : Text) × (s ≡ p ++ r))
unfolding starts_with
starts_with_iff s [] = (λ h. (s, refl), λ h. refl)
starts_with_iff [] (p ∷ ps) = (λ h. absurd (false≢true h), λ h. ground arith)
starts_with_iff (c ∷ s) (p ∷ ps) = (
  λ h. let (r, e) = (starts_with_iff s ps).0 (ground arith) in (r, ground arith),
  λ h. let (r, e) = h in ground (arith, (starts_with_iff s ps).1 (r, ground arith)),
)

-- `s.endswith(suffix)`
unfoldable pub ends_with : Text → Text → Bool
unfolding starts_with
ends_with s t = starts_with (reverse s) (reverse t)

-- `sep.join(parts)`
unfoldable pub join_with : Text → List Text → Text
join_with sep [] = []
join_with sep (p ∷ []) = p
join_with sep (p ∷ q ∷ ps) = p ++ (sep ++ join_with sep (q ∷ ps))

-- `s.split(sep)` for a separator of one character.
abbrev pub cons_head : ℕ → List Text → List Text
cons_head c [] = (c ∷ []) ∷ []
cons_head c (p ∷ ps) = (c ∷ p) ∷ ps

unfoldable pub split : ℕ → Text → List Text
split sep [] = [] ∷ []
split sep (c ∷ s) = let rest = split sep s in if c == sep then [] ∷ rest else cons_head c rest

-- `s < t` on `str`: the order of the code points.
unfoldable pub text_lt : Text → Text → Bool
text_lt [] [] = false
text_lt [] (b ∷ t) = true
text_lt (a ∷ s) [] = false
text_lt (a ∷ s) (b ∷ t) = ltb a b || (a == b && text_lt s t)

-- The order of texts is a strict linear order.
pub text_lt_asymm : (s t : Text) → text_lt s t ≡ true → text_lt t s ≡ false
unfolding text_lt
text_lt_asymm [] (b ∷ t) h = refl
text_lt_asymm [] [] h = refl
text_lt_asymm (a ∷ s) [] h = cc
text_lt_asymm (a ∷ s) (b ∷ t) h = ground (arith, text_lt_asymm s t)

-- `s.split(sep)[0]`
unfoldable pub first_part : ℕ → Text → Text
first_part sep [] = []
first_part sep (c ∷ s) = if c == sep then [] else c ∷ first_part sep s

-- `s[:n]` and `s[n:]`
unfoldable pub take : ℕ → Text → Text
take zero s = []
take (suc n) [] = []
take (suc n) (c ∷ s) = c ∷ take n s

unfoldable pub drop : ℕ → Text → Text
drop zero s = s
drop (suc n) [] = []
drop (suc n) (c ∷ s) = drop n s

abbrev with_front : ℕ → Option Text → Option Text
with_front c none = none
with_front c (some s) = some (c ∷ s)

-- `s[:s.find(needle)]`, if the needle occurs.
unfoldable pub before_first : Text → Text → Option Text
before_first needle [] = if starts_with [] needle then some [] else none
before_first needle (c ∷ s) =
    let rest = with_front c (before_first needle s) in
    if starts_with (c ∷ s) needle then some [] else rest

abbrev pub mem : Text → List Text → Bool
mem k l = any (text_eq k) l

pub mem_iff : (k : Text) (l : List Text) → (mem k l ≡ true) ↔ Memᴰ k l
mem_iff k l = (
  λ h.
      let (a, m, e) = any_mem (text_eq k) l h in
      subst (λ x. Memᴰ x l) (sym ((text_eq_iff k a).0 e)) m,
  λ m. any_of_mem (text_eq k) m (text_eq_refl k),
)

-- No text stands twice, as a test.
unfoldable pub distinct : List Text → Bool
distinct [] = true
distinct (t ∷ ts) = not (mem t ts) && distinct ts

pub Distinct-distinct : (ts : List Text) → distinct ts ≡ true → Distinct ts
unfolding distinct
Distinct-distinct [] e = tt
Distinct-distinct (t ∷ ts) e =
    ((λ m. ground (arith, (mem_iff t ts).1 m)), Distinct-distinct ts (ground arith))
