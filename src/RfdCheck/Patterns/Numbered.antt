-- ===== src/RfdCheck/Patterns/Numbered.antt =====
-- The number that stands on one line, behind a prefix and before a suffix.
use multiplayer_fabric_manua.Common.{
  true, ◌&&◌, List, [], ◌∷◌, ◌++◌, Option, none, some, ◌≡◌, refl, arith, ◌↔◌, inl, inr, ◌∙◌, sym,
  ap,
}
use multiplayer_fabric_manua.Common.Tests.{◌==◌, Option-cases, if◌then◌else◌}
use multiplayer_fabric_manua.Common.Lists.{length, all}
use multiplayer_fabric_manua.Common.Text.{Text, starts_with, starts_with_iff}
use multiplayer_fabric_manua.Regex.Fields.{Reads}
use multiplayer_fabric_manua.Regex.Classes.{is_hex}

-- What is behind a prefix.
unfoldable pub strip_prefix : Text → Text → Option Text
strip_prefix [] s = some s
strip_prefix (p ∷ ps) [] = none
strip_prefix (p ∷ ps) (c ∷ s) = if c == p then strip_prefix ps s else none

-- Four hexadecimal digits with a suffix behind them.
unfoldable pub four_then : Text → Text → Option Text
four_then suf (a ∷ b ∷ c ∷ d ∷ t) =
    if is_hex a && (is_hex b && (is_hex c && (is_hex d && starts_with t suf)))
    then some (a ∷ b ∷ c ∷ d ∷ [])
    else none
four_then suf _ = none

abbrev bind {ℓ} : {A B : Type ℓ} → Option A → (A → Option B) → Option B
bind none f = none
bind (some a) f = f a

-- The number of a line that begins with the prefix, the number and the suffix.
unfoldable pub number_of_line : Text → Text → Text → Option Text
unfolding strip_prefix four_then
number_of_line pre suf line = bind (strip_prefix pre line) (four_then suf)

abbrev pub or_else {ℓ} : {A : Type ℓ} → Option A → Option A → Option A
or_else none o = o
or_else (some a) o = some a

-- The first line that has one decides.
unfoldable pub first_number : Text → Text → List Text → Option Text
unfolding number_of_line
first_number pre suf [] = none
first_number pre suf (l ∷ ls) = or_else (number_of_line pre suf l) (first_number pre suf ls)

strip_prefix_iff : (p s t : Text) → (strip_prefix p s ≡ some t) ↔ (s ≡ p ++ t)
unfolding strip_prefix
strip_prefix_iff [] s t = (λ h. ground arith, λ h. ap some h)
strip_prefix_iff (a ∷ p) [] t = (λ h. ground arith, λ h. ground arith)
strip_prefix_iff (a ∷ p) (c ∷ s) t = ground (arith, strip_prefix_iff p s t)

four_then-found :
    (suf s n : Text)
    → four_then suf s ≡ some n
    → (t : Text) × (s ≡ n ++ (suf ++ t)) × (length n ≡ 4) × (all is_hex n ≡ true)
unfolding four_then
four_then-found suf (a ∷ b ∷ c ∷ d ∷ s) n h =
    let same : a ∷ b ∷ c ∷ d ∷ [] ≡ n = ground arith in
    let (t, e) = (starts_with_iff s suf).0 (ground arith) in
    rw (sym same) (t, ap (λ x. a ∷ b ∷ c ∷ d ∷ x) e, refl, ground arith)
four_then-found suf _ n h = cc

four_then-finds :
    (suf n t : Text) → length n ≡ 4 → all is_hex n ≡ true → four_then suf (n ++ (suf ++ t)) ≡ some n
unfolding four_then
four_then-finds suf (a ∷ b ∷ c ∷ d ∷ []) t l k =
    ground (arith, (starts_with_iff (suf ++ t) suf).1 (t, refl))
four_then-finds suf _ t l k = absurd (omega arith)

module _ (pre suf : Text) where
  pub number_of_line_iff :
      (s n : Text) → (number_of_line pre suf s ≡ some n) ↔ Reads is_hex pre suf s n
  unfolding number_of_line
  number_of_line_iff s n = (found, finds)
    where
      found : number_of_line pre suf s ≡ some n → Reads is_hex pre suf s n
      found h = elim (Option-cases (strip_prefix pre s)) [
        | inl e ↦ ground arith
        | inr (x, e) ↦
            let (t, q, l, k) = four_then-found suf x n (ground arith) in
            (t, (strip_prefix_iff pre s x).0 e ∙ ap (λ y. pre ++ y) q, l, k)
      ]

      finds : Reads is_hex pre suf s n → number_of_line pre suf s ≡ some n
      finds (t, e, l, k) =
          rw ((strip_prefix_iff pre s (n ++ (suf ++ t))).1 e) (four_then-finds suf n t l k)
