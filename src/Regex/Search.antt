-- ===== src/Regex/Search.antt =====
-- Searching a text with a pattern whose matches cannot overlap.
use mathlib.Core.List.{append_assoc}
use multiplayer_fabric_manua.Common.{
  ℕ, zero, suc, ◌-◌, Bool, true, false, not, List, [], ◌∷◌, ◌++◌, Option, none, some, ◌≡◌, refl,
  sym, ap, ◌∙◌, arith, inl, inr,
}
use multiplayer_fabric_manua.Common.Tests.{if◌then◌else◌, Option-cases}
use multiplayer_fabric_manua.Common.Lists.{length, all, length-append}
use multiplayer_fabric_manua.Common.Text.{Text}
use multiplayer_fabric_manua.Regex.{
  one, star, lazy, assert, group_open, group_close, Regex, Mark, mark, note, notes, open_group,
  group_of, close_group, match_at, find_all_from,
}
use multiplayer_fabric_manua.Regex.Sound.{Accepts, match_at-Accepts}

abbrev pub some_cons {ℓ} : {A : Type ℓ} → Option A → List A → List A
some_cons none l = l
some_cons (some a) l = a ∷ l

-- The groups of the matches at every position, overlapping or not.
unfoldable pub each_from : Regex → Option ℕ → Text → List Text
each_from r b [] = []
each_from r b (c ∷ s) = some_cons (group_of (match_at r (c ∷ s) (mark b))) (each_from r (some c) s)

-- No character that the pattern can consume is of class `p`.
abbrev pub Avoids : (ℕ → Bool) → Regex → Type 0
Avoids p [] = Unit
Avoids p (one q ∷ r) = ((c : ℕ) → q c ≡ true → p c ≡ false) × Avoids p r
Avoids p (star q ∷ r) = ((c : ℕ) → q c ≡ true → p c ≡ false) × Avoids p r
Avoids p (lazy q ∷ r) = ((c : ℕ) → q c ≡ true → p c ≡ false) × Avoids p r
Avoids p (assert t ∷ r) = Avoids p r
Avoids p (group_open ∷ r) = Avoids p r
Avoids p (group_close ∷ r) = Avoids p r

abbrev outside : (ℕ → Bool) → ℕ → Bool
outside p c = not (p c)

pub all_mono :
    (q p : ℕ → Bool) (w : Text)
    → ((c : ℕ) → q c ≡ true → p c ≡ true)
    → all q w ≡ true
    → all p w ≡ true
all_mono q p [] h k = refl
all_mono q p (c ∷ w) h k = ground (arith, h c, all_mono q p w h)

all-outside :
    (p q : ℕ → Bool) (w : Text)
    → ((c : ℕ) → q c ≡ true → p c ≡ false)
    → all q w ≡ true
    → all (outside p) w ≡ true
all-outside p q w h = all_mono q (outside p) w (λ c k. ground (arith, h c k))

pub all-append :
    (p : ℕ → Bool) (u w : Text) → all p u ≡ true → all p w ≡ true → all p (u ++ w) ≡ true
all-append p [] w h k = k
all-append p (c ∷ u) w h k = ground (arith, all-append p u w)

-- What an accepted split has consumed.
Consumed : (ℕ → Bool) → Text → Text → Type 0
Consumed p s t = (w : Text) × (s ≡ w ++ t) × (all (outside p) w ≡ true)

consume :
    (p q : ℕ → Bool) (u s' t : Text) {s : Text}
    → ((c : ℕ) → q c ≡ true → p c ≡ false)
    → s ≡ u ++ s'
    → all q u ≡ true
    → Consumed p s' t
    → Consumed p s t
unfolding Consumed
consume p q u s' t h e k (w, e', k') = (
  u ++ w,
  e ∙ (ap (λ x. u ++ x) e' ∙ sym (append_assoc u w t)),
  all-append (outside p) u w (all-outside p q u h k) k',
)

Accepts-Consumed :
    (p : ℕ → Bool) (r : Regex) (s : Text) (m m' : Mark) (t : Text)
    → Avoids p r
    → Accepts r s m (m', t)
    → Consumed p s t
unfolding Consumed
Accepts-Consumed p [] s m m' t v a = ([], ground arith, refl)
Accepts-Consumed p (one q ∷ r) s m m' t v (c, s', e, k, a) =
    consume p q (c ∷ []) s' t v.0 e (ground arith) (Accepts-Consumed p r s' (note m c) m' t v.1 a)
Accepts-Consumed p (star q ∷ r) s m m' t v (u, s', e, k, a) =
    consume p q u s' t v.0 e k (Accepts-Consumed p r s' (notes m u) m' t v.1 a)
Accepts-Consumed p (lazy q ∷ r) s m m' t v (u, s', e, k, a) =
    consume p q u s' t v.0 e k (Accepts-Consumed p r s' (notes m u) m' t v.1 a)
Accepts-Consumed p (assert x ∷ r) s m m' t v a = Accepts-Consumed p r s m m' t v a.1
Accepts-Consumed p (group_open ∷ r) s m m' t v a = Accepts-Consumed p r s (open_group m) m' t v a
Accepts-Consumed p (group_close ∷ r) s m m' t v a = Accepts-Consumed p r s (close_group m) m' t v a

-- The first `k` characters of a text are not of class `p`.
abbrev Clear : (ℕ → Bool) → ℕ → Text → Type 0
Clear p zero s = Unit
Clear p (suc k) [] = Unit
Clear p (suc k) (c ∷ s) = (p c ≡ false) × Clear p k s

Clear-all : (p : ℕ → Bool) (w t : Text) → all (outside p) w ≡ true → Clear p (length w) (w ++ t)
Clear-all p [] t k = tt
Clear-all p (c ∷ w) t k = (ground arith, Clear-all p w t (ground arith))

Clear-Consumed : (p : ℕ → Bool) (s t : Text) → Consumed p s t → Clear p (length s - length t) s
unfolding Consumed
Clear-Consumed p s t (w, e, k) =
    let d : length s - length t ≡ length w = omega (arith, ap length e, length-append w t) in
    rw (d, e) (Clear-all p w t k)

-- A pattern that begins with a character of a class which no later character of a match is in.
pub record Separated (p : ℕ → Bool) (q : Regex) : Type 0 where
  starts : (c : ℕ) (s : Text) (m : Mark) → p c ≡ false → match_at q (c ∷ s) m ≡ none
  clear :
      (c : ℕ) (s : Text) (m m' : Mark) (t : Text)
      → match_at q (c ∷ s) m ≡ some (m', t)
      → Clear p (length s - length t) s

pub one-Separated : (p : ℕ → Bool) (r : Regex) → Avoids p r → Separated p (one p ∷ r)
one-Separated p r v = record { starts = starts; clear = clear }
  where
    starts : (c : ℕ) (s : Text) (m : Mark) → p c ≡ false → match_at (one p ∷ r) (c ∷ s) m ≡ none
    starts c s m h = unfold match_at in ground arith

    clear :
        (c : ℕ) (s : Text) (m m' : Mark) (t : Text)
        → match_at (one p ∷ r) (c ∷ s) m ≡ some (m', t)
        → Clear p (length s - length t) s
    clear c s m m' t h =
        let (d, s', e, k, a) = match_at-Accepts (one p ∷ r) (c ∷ s) m h in
        let same : s ≡ s' = cc in
        rw same (Clear-Consumed p s' t (Accepts-Consumed p r s' (note m d) m' t v a))

match_at-assert :
    (x : Option ℕ → Text → Bool) (q : Regex) (s : Text) (m : Mark)
    → match_at (assert x ∷ q) s m ≡ (if x m.before s then match_at q s m else none)
unfolding match_at
match_at-assert x q s m = ground arith

pub assert-Separated :
    (p : ℕ → Bool) (x : Option ℕ → Text → Bool) (q : Regex)
    → Separated p q
    → Separated p (assert x ∷ q)
assert-Separated p x q h = record { starts = starts; clear = clear }
  where
    starts : (c : ℕ) (s : Text) (m : Mark) → p c ≡ false → match_at (assert x ∷ q) (c ∷ s) m ≡ none
    starts c s m k = ground (arith, match_at-assert x q (c ∷ s) m, h.starts c s m k)

    clear :
        (c : ℕ) (s : Text) (m m' : Mark) (t : Text)
        → match_at (assert x ∷ q) (c ∷ s) m ≡ some (m', t)
        → Clear p (length s - length t) s
    clear c s m m' t k = h.clear c s m m' t (ground (arith, match_at-assert x q (c ∷ s) m))

pub find_all_from-eq-each :
    (p : ℕ → Bool) (q : Regex) (h : Separated p q) (k : ℕ) (b : Option ℕ) (s : Text)
    → Clear p k s
    → find_all_from q k b s ≡ each_from q b s
unfolding find_all_from each_from
find_all_from-eq-each p q h k b [] v = refl
find_all_from-eq-each p q h (suc k) b (c ∷ s) v =
    ground (arith, h.starts c s (mark b) v.0, find_all_from-eq-each p q h k (some c) s v.1)
find_all_from-eq-each p q h zero b (c ∷ s) v = elim (Option-cases (match_at q (c ∷ s) (mark b))) [
  | inl e ↦ ground (arith, find_all_from-eq-each p q h zero (some c) s tt)
  | inr ((m, t), e) ↦ ground (
    arith,
    find_all_from-eq-each p q h (length s - length t) (some c) s (h.clear c s (mark b) m t e),
  )
]
