-- ===== src/Regex/Slugs.antt =====
-- A dash and a slug, `-[a-z0-9-]+`, in a pattern.
use mathlib.Core.Path.{subst}
use mathlib.Core.Bool.{not}
use multiplayer_fabric_manua.Common.{ℕ, Bool, true, [], ◌∷◌, ◌++◌, ◌≡◌, ◌≢◌, refl, arith}
use multiplayer_fabric_manua.Common.Tests.{◌==◌}
use multiplayer_fabric_manua.Common.Lists.{length, all}
use multiplayer_fabric_manua.Common.Text.{Text}
use multiplayer_fabric_manua.Regex.{one, star, Regex, Mark, note, notes, Found}
use multiplayer_fabric_manua.Regex.Sound.{Accepts}
use multiplayer_fabric_manua.Regex.Classes.{is_slug}

-- `t` is a number of class `p`, a dash and a slug.
abbrev pub Slugged : (ℕ → Bool) → Text → Text → Type 0
Slugged p num t =
    (slug : Text) × (t ≡ num ++ b'-' ∷ slug)
    × (length num ≡ 4)
    × (all p num ≡ true)
    × (slug ≢ [])
    × (all is_slug slug ≡ true)

abbrev pub dash_slug : Regex → Regex
dash_slug r = one (λ d. d == b'-') ∷ one is_slug ∷ star is_slug ∷ r

pub slug-inv :
    (r : Regex) (s : Text) (m : Mark) (f : Found)
    → Accepts (dash_slug r) s m f
    → (slug : Text) × (t : Text) × (s ≡ b'-' ∷ (slug ++ t))
      × (slug ≢ [])
      × (all is_slug slug ≡ true)
      × Accepts r t (notes m (b'-' ∷ slug)) f
slug-inv r s m f (d, s₁, e₁, k₁, (c, s₂, e₂, k₂, (w, s₃, e₃, k₃, a))) =
    let same : d ≡ b'-' = ground arith in
    (
      c ∷ w,
      s₃,
      ground arith,
      (λ h. cc),
      ground arith,
      subst (λ x. Accepts r s₃ (notes (note (note m x) c) w) f) same a,
    )

pub slug-intro :
    (r : Regex) (slug t : Text) (m : Mark) (f : Found)
    → slug ≢ []
    → all is_slug slug ≡ true
    → Accepts r t (notes m (b'-' ∷ slug)) f
    → Accepts (dash_slug r) (b'-' ∷ (slug ++ t)) m f
slug-intro r [] t m f ne k a = absurd (ne refl)
slug-intro r (c ∷ w) t m f ne k a =
    (b'-', c ∷ (w ++ t), refl, refl, (c, w ++ t, refl, ground arith, (w, t, refl, ground arith, a)))

pub notes-append : (m : Mark) (u w : Text) → notes m (u ++ w) ≡ notes (notes m u) w
notes-append m [] w = refl
notes-append m (c ∷ u) w = notes-append (note m c) u w

-- Two texts with no character of class `p`, before one of that class, are one text.
pub before_unique :
    (p : ℕ → Bool) (x x' t t' : Text) (c : ℕ)
    → p c ≡ true
    → all (λ d. not (p d)) x ≡ true
    → all (λ d. not (p d)) x' ≡ true
    → x ++ c ∷ t ≡ x' ++ c ∷ t'
    → x ≡ x'
before_unique p [] [] t t' c h k k' e = refl
before_unique p [] (d ∷ x') t t' c h k k' e = ground arith
before_unique p (d ∷ x) [] t t' c h k k' e = ground arith
before_unique p (d ∷ x) (d' ∷ x') t t' c h k k' e = ground (arith, before_unique p x x' t t' c)
