-- ===== src/Regex/Sound.antt =====
-- What a pattern accepts, said without a search, and the proof that the matcher of Regex.antt finds
-- an accepted split exactly when there is one.
use mathlib.Core.Path.{subst}
use multiplayer_fabric_manua.Common.{
  ℕ, Bool, true, [], ◌∷◌, ◌++◌, none, some, ◌≡◌, ◌≢◌, refl, arith, inl, inr, ◌↔◌, ap,
}
use multiplayer_fabric_manua.Common.Tests.{Bool-cases, Option-cases}
use multiplayer_fabric_manua.Common.Lists.{all}
use multiplayer_fabric_manua.Common.Text.{Text}
use multiplayer_fabric_manua.Regex.{
  one, star, lazy, assert, group_open, group_close, Regex, Mark, note, notes, open_group,
  close_group, Found, group_of, match_at,
}

-- From text `s` at mark `m`, the pattern can end at `f`.
abbrev pub Accepts : Regex → Text → Mark → Found → Type 0
Accepts [] s m f = f ≡ (m, s)
Accepts (one p ∷ r) s m f =
    (c : ℕ) × (t : Text) × (s ≡ c ∷ t) × (p c ≡ true) × Accepts r t (note m c) f
Accepts (star p ∷ r) s m f =
    (w : Text) × (t : Text) × (s ≡ w ++ t) × (all p w ≡ true) × Accepts r t (notes m w) f
Accepts (lazy p ∷ r) s m f =
    (w : Text) × (t : Text) × (s ≡ w ++ t) × (all p w ≡ true) × Accepts r t (notes m w) f
Accepts (assert t ∷ r) s m f = (t m.before s ≡ true) × Accepts r s m f
Accepts (group_open ∷ r) s m f = Accepts r s (open_group m) f
Accepts (group_close ∷ r) s m f = Accepts r s (close_group m) f

-- A repetition that accepts the rest accepts one more character before it.
extend :
    (p : ℕ → Bool) (r : Regex) (c : ℕ) (s : Text) (m : Mark) (f : Found)
    → p c ≡ true
    → Accepts (star p ∷ r) s (note m c) f
    → Accepts (star p ∷ r) (c ∷ s) m f
extend p r c s m f e (w, t, q, k, a) = (c ∷ w, t, ground arith, ground arith, a)

-- A match is an accepted split.
pub match_at-Accepts :
    (r : Regex) (s : Text) (m : Mark) {f : Found} → match_at r s m ≡ some f → Accepts r s m f
unfolding match_at
match_at-Accepts [] s m h = ground arith
match_at-Accepts (one p ∷ r) [] m h = cc
match_at-Accepts (one p ∷ r) (c ∷ s) m h = elim (Bool-cases (p c)) [
  | inl e ↦ (c, s, refl, e, match_at-Accepts r s (note m c) (ground arith))
  | inr e ↦ ground arith
]
match_at-Accepts (star p ∷ r) [] m h = ([], [], refl, refl, match_at-Accepts r [] m h)
match_at-Accepts (star p ∷ r) (c ∷ s) m h = elim (Bool-cases (p c)) [
  | inl e ↦ elim (Option-cases (match_at (star p ∷ r) s (note m c))) [
    | inl e' ↦ ([], c ∷ s, refl, refl, match_at-Accepts r (c ∷ s) m (ground arith))
    | inr (g, e') ↦ extend p r c s m _ e (match_at-Accepts (star p ∷ r) s (note m c) (ground arith))
  ]
  | inr e ↦ ([], c ∷ s, refl, refl, match_at-Accepts r (c ∷ s) m (ground arith))
]
match_at-Accepts (lazy p ∷ r) [] m h = ([], [], refl, refl, match_at-Accepts r [] m h)
match_at-Accepts (lazy p ∷ r) (c ∷ s) m h = elim (Option-cases (match_at r (c ∷ s) m)) [
  | inl e' ↦ elim (Bool-cases (p c)) [
    | inl e ↦ extend p r c s m _ e (match_at-Accepts (lazy p ∷ r) s (note m c) (ground arith))
    | inr e ↦ ground arith
  ]
  | inr (g, e') ↦ ([], c ∷ s, refl, refl, match_at-Accepts r (c ∷ s) m (ground arith))
]
match_at-Accepts (assert t ∷ r) s m h = elim (Bool-cases (t m.before s)) [
  | inl e ↦ (e, match_at-Accepts r s m (ground arith))
  | inr e ↦ ground arith
]
match_at-Accepts (group_open ∷ r) s m h = match_at-Accepts r s (open_group m) h
match_at-Accepts (group_close ∷ r) s m h = match_at-Accepts r s (close_group m) h

module _ (p : ℕ → Bool) (r : Regex) where
  star_complete :
      (w t : Text) (m : Mark)
      → all p w ≡ true
      → match_at r t (notes m w) ≢ none
      → match_at (star p ∷ r) (w ++ t) m ≢ none
  unfolding match_at
  star_complete [] [] m k h = h
  star_complete [] (c ∷ t) m k h = ground arith
  star_complete (c ∷ w) t m k h = ground (arith, star_complete w t (note m c))

  lazy_complete :
      (w t : Text) (m : Mark)
      → all p w ≡ true
      → match_at r t (notes m w) ≢ none
      → match_at (lazy p ∷ r) (w ++ t) m ≢ none
  unfolding match_at
  lazy_complete [] [] m k h = h
  lazy_complete [] (c ∷ t) m k h = ground arith
  lazy_complete (c ∷ w) t m k h = ground (arith, lazy_complete w t (note m c))

-- A text that the pattern accepts in some way has a match.
pub match_at_complete :
    (r : Regex) (s : Text) (m : Mark) (f : Found) → Accepts r s m f → match_at r s m ≢ none
unfolding match_at
match_at_complete [] s m f a = ground arith
match_at_complete (one p ∷ r) s m f (c, t, q, k, a) =
    rw (q, k) (match_at_complete r t (note m c) f a)
match_at_complete (star p ∷ r) s m f (w, t, q, k, a) =
    rw q (star_complete p r w t m k (match_at_complete r t (notes m w) f a))
match_at_complete (lazy p ∷ r) s m f (w, t, q, k, a) =
    rw q (lazy_complete p r w t m k (match_at_complete r t (notes m w) f a))
match_at_complete (assert t ∷ r) s m f (k, a) = rw k (match_at_complete r s m f a)
match_at_complete (group_open ∷ r) s m f a = match_at_complete r s (open_group m) f a
match_at_complete (group_close ∷ r) s m f a = match_at_complete r s (close_group m) f a

-- Where every accepted split has the group that `Q` describes, and `Q` describes one group, the
-- group of the match is that one.
module _ (r : Regex) (s : Text) (m : Mark) (Q : Text → Type 0)
    (sound : (f : Found) → Accepts r s m f → Q f.0.group)
    (total : (n : Text) → Q n → (f : Found) × Accepts r s m f)
    (unique : (n n' : Text) → Q n → Q n' → n ≡ n') where
  pub group-match_at : (n : Text) → (group_of (match_at r s m) ≡ some n) ↔ Q n
  group-match_at n = elim (Option-cases (match_at r s m)) [
    | inl e ↦ (
      λ h. absurd (ground (arith)),
      λ q. let (f, a) = total n q in absurd (match_at_complete r s m f a e),
    )
    | inr (f, e) ↦ (
      λ h. let g : f.0.group ≡ n = ground arith in subst Q g (sound f (match_at-Accepts r s m e)),
      λ q. rw e (ap some (unique f.0.group n (sound f (match_at-Accepts r s m e)) q)),
    )
  ]
