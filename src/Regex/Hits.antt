-- ===== src/Regex/Hits.antt =====
-- The positions of a text at which a pattern matches, and what `search` and `findall` make of them.
use mathlib.Core.Path.{subst}
use mathlib.Core.List.{Memᴰ, head?}
use multiplayer_fabric_manua.Common.{
  ℕ, zero, Bool, List, [], ◌∷◌, ◌++◌, Option, none, some, ◌≡◌, refl, sym, ap, arith, inl, inr, ◌↔◌,
  ◌⊎◌,
}
use multiplayer_fabric_manua.Common.Text.{Text}
use multiplayer_fabric_manua.Regex.{
  one, assert, Regex, mark, group_of, search_from, match_at, find_all, find_all_from,
}
use multiplayer_fabric_manua.Regex.Search.{
  some_cons, each_from, Avoids, Separated, one-Separated, assert-Separated, find_all_from-eq-each,
}

-- The character before the end of `u`, which stands after `b`.
abbrev pub char_before : Option ℕ → Text → Option ℕ
char_before b [] = b
char_before b (c ∷ u) = char_before (some c) u

-- At some position of the text, after `u`, the pattern matches with the group `n`.
abbrev pub Hit : Regex → Option ℕ → Text → Text → Type 0
Hit r b s n =
    (u : Text) × (t : Text) × (s ≡ u ++ t)
    × (group_of (match_at r t (mark (char_before b u))) ≡ some n)

some_cons-mem : {n : Text} (o : Option Text) {l : List Text} → Memᴰ n l → Memᴰ n (some_cons o l)
some_cons-mem none m = m
some_cons-mem (some g) m = Memᴰ.tail m

some_cons-mem_self :
    {n : Text} (o : Option Text) (l : List Text) → o ≡ some n → Memᴰ n (some_cons o l)
some_cons-mem_self none l e = cc
some_cons-mem_self (some g) l e = Memᴰ.head (cc)

some_cons-mem_inv :
    {n : Text} (o : Option Text) (l : List Text) → Memᴰ n (some_cons o l) → (o ≡ some n) ⊎ Memᴰ n l
some_cons-mem_inv none l m = inr m
some_cons-mem_inv (some g) l (Memᴰ.head q) = inl (ap some (sym q))
some_cons-mem_inv (some g) l (Memᴰ.tail m) = inr m

Hit-later : (r : Regex) (c : ℕ) (b : Option ℕ) (s n : Text) → Hit r (some c) s n → Hit r b (c ∷ s) n
Hit-later r c b s n (u, t, e, g) = (c ∷ u, t, ap (λ x. c ∷ x) e, g)

pub mem-each : (r : Regex) (b : Option ℕ) (s n : Text) → Memᴰ n (each_from r b s) → Hit r b s n
unfolding each_from
mem-each r b [] n h = elim h [ ]
mem-each r b (c ∷ s) n h =
    elim (some_cons-mem_inv (group_of (match_at r (c ∷ s) (mark b))) (each_from r (some c) s) h) [
      | inl e ↦ ([], c ∷ s, refl, e)
      | inr m ↦ Hit-later r c b s n (mem-each r (some c) s n m)
    ]

-- Patterns that do not match the empty text.
module _ (r : Regex) (solid : (b : Option ℕ) → match_at r [] (mark b) ≡ none) where
  pub each-mem : (b : Option ℕ) (s n : Text) → Hit r b s n → Memᴰ n (each_from r b s)
  unfolding each_from
  each-mem b [] n ([], t, e, g) =
      let h : group_of (match_at r [] (mark b)) ≡ some n =
        subst (λ x. group_of (match_at r x (mark b)) ≡ some n) (sym e) g in
      ground (arith, solid b)
  each-mem b [] n (d ∷ u, t, e, g) = cc
  each-mem b (c ∷ s) n ([], t, e, g) =
      some_cons-mem_self (group_of (match_at r (c ∷ s) (mark b))) (each_from r (some c) s) (rw e g)
  each-mem b (c ∷ s) n (d ∷ u, t, e, g) =
      let same : d ≡ c = cc in some_cons-mem _ (each-mem (some c) s n (u, t, cc, rw (sym same) g))

  pub search_from-eq-head :
      (b : Option ℕ) (s : Text) → group_of (search_from r b s) ≡ head? (each_from r b s)
  unfolding search_from each_from
  search_from-eq-head b [] = rw (solid b)
  search_from-eq-head b (c ∷ s) = ground (arith, search_from-eq-head (some c) s)

pub find_all_from-eq-nil :
    (r : Regex) (b : Option ℕ) (s : Text) → (find_all_from r 0 b s ≡ []) ↔ (each_from r b s ≡ [])
unfolding find_all_from each_from
find_all_from-eq-nil r b [] = (λ h. refl, λ h. refl)
find_all_from-eq-nil r b (c ∷ s) = ground (arith, find_all_from-eq-nil r (some c) s)

-- A pattern whose matches cannot overlap: `findall` finds the groups of every position.
module _ (p : ℕ → Bool) (r : Regex) (v : Avoids p r) (s n : Text) where
  pub mem-find_all : Memᴰ n (find_all (one p ∷ r) s) ↔ Hit (one p ∷ r) none s n
  unfolding find_all
  mem-find_all =
      rw (find_all_from-eq-each p (one p ∷ r) (one-Separated p r v) zero none s tt) (
        mem-each (one p ∷ r) none s n,
        each-mem (one p ∷ r) (λ b. unfold match_at in refl) none s n,
      )

  pub mem-find_all_assert :
      (x : Option ℕ → Text → Bool)
      → Memᴰ n (find_all (assert x ∷ one p ∷ r) s) ↔ Hit (assert x ∷ one p ∷ r) none s n
  unfolding find_all
  mem-find_all_assert x =
      let q : Regex = assert x ∷ one p ∷ r in
      let h : Separated p q = assert-Separated p x (one p ∷ r) (one-Separated p r v) in
      let solid : (b : Option ℕ) → match_at q [] (mark b) ≡ none =
        λ b. unfold match_at in ground arith in
      rw (find_all_from-eq-each p q h zero none s tt)
        (mem-each q none s n, each-mem q solid none s n)
