-- ===== src/Common/Sorting.antt =====
-- Python's `sorted` on strings: a permutation of the list, in order.
pub mod Unique
use mathlib.Core.List.{List, [], ◌∷◌, Memᴰ, Perm}
use mathlib.Core.List.Perm
use mathlib.Core.Path.{◌≡◌}
use mathlib.Core.Logic.{inl, inr}
use mathlib.Core.Bool.{false}
use native.Mathlib.Omega.{arith}
use multiplayer_fabric_manua.Common.Tests.{Bool-cases, if◌then◌else◌}
use multiplayer_fabric_manua.Common.Text.{Text, text_lt, text_lt_asymm}

-- `sorted` on strings.
unfoldable pub insert : Text → List Text → List Text
insert a [] = a ∷ []
insert a (b ∷ l) = let rest = insert a l in if text_lt b a then b ∷ rest else a ∷ b ∷ l

unfoldable pub sorted : List Text → List Text
sorted [] = []
sorted (a ∷ l) = insert a (sorted l)

insert-perm : (a : Text) (l : List Text) → Perm (insert a l) (a ∷ l)
unfolding insert
insert-perm a [] = Perm.refl (a ∷ [])
insert-perm a (b ∷ l) = elim (Bool-cases (text_lt b a)) [
  | inl e ↦ rw e (Perm.trans (Perm.cons b (insert-perm a l)) (Perm.swap a b l))
  | inr e ↦ rw e (Perm.refl (a ∷ b ∷ l))
]

pub sorted-perm : (l : List Text) → Perm (sorted l) l
unfolding sorted
sorted-perm [] = Perm.refl []
sorted-perm (a ∷ l) = Perm.trans (insert-perm a (sorted l)) (Perm.cons a (sorted-perm l))

-- Membership, with its position kept.
skip_one : (a b x : Text) (l : List Text) → Memᴰ x (a ∷ l) → Memᴰ x (a ∷ b ∷ l)
skip_one a b x l (Memᴰ.head q) = Memᴰ.head q
skip_one a b x l (Memᴰ.tail m) = Memᴰ.tail (Memᴰ.tail m)

pub mem-insert : (a x : Text) (l : List Text) → Memᴰ x (insert a l) → Memᴰ x (a ∷ l)
unfolding insert
mem-insert a x [] m = m
mem-insert a x (b ∷ l) m = elim (Bool-cases (text_lt b a)) [
  | inl e ↦ behind (rw e at m) (mem-insert a x l)
  | inr e ↦ rw e at m
]
  where
    behind : Memᴰ x (b ∷ insert a l) → (Memᴰ x (insert a l) → Memᴰ x (a ∷ l)) → Memᴰ x (a ∷ b ∷ l)
    behind (Memᴰ.head q) h = Memᴰ.tail (Memᴰ.head q)
    behind (Memᴰ.tail r) h = skip_one a b x l (h r)

insert-mem : (a x : Text) (l : List Text) → Memᴰ x (a ∷ l) → Memᴰ x (insert a l)
unfolding insert
insert-mem a x [] m = m
insert-mem a x (b ∷ l) m = elim (Bool-cases (text_lt b a)) [
  | inl e ↦ rw e (behind m (insert-mem a x l))
  | inr e ↦ rw e m
]
  where
    behind : Memᴰ x (a ∷ b ∷ l) → (Memᴰ x (a ∷ l) → Memᴰ x (insert a l)) → Memᴰ x (b ∷ insert a l)
    behind (Memᴰ.head q) h = Memᴰ.tail (h (Memᴰ.head q))
    behind (Memᴰ.tail (Memᴰ.head q)) h = Memᴰ.head q
    behind (Memᴰ.tail (Memᴰ.tail r)) h = Memᴰ.tail (h (Memᴰ.tail r))

pub mem-sorted : (x : Text) (l : List Text) → Memᴰ x (sorted l) → Memᴰ x l
unfolding sorted
mem-sorted x [] m = m
mem-sorted x (a ∷ l) m = grow (mem-insert a x (sorted l) m) (mem-sorted x l)
  where
    grow : Memᴰ x (a ∷ sorted l) → (Memᴰ x (sorted l) → Memᴰ x l) → Memᴰ x (a ∷ l)
    grow (Memᴰ.head q) h = Memᴰ.head q
    grow (Memᴰ.tail r) h = Memᴰ.tail (h r)

pub sorted-mem : (x : Text) (l : List Text) → Memᴰ x l → Memᴰ x (sorted l)
unfolding sorted
sorted-mem x [] m = m
sorted-mem x (a ∷ l) (Memᴰ.head q) = insert-mem a x (sorted l) (Memᴰ.head q)
sorted-mem x (a ∷ l) (Memᴰ.tail r) = insert-mem a x (sorted l) (Memᴰ.tail (sorted-mem x l r))

-- Each text is not behind the next one.
abbrev pub InOrder : List Text → Type 0
InOrder [] = Unit
InOrder (a ∷ []) = Unit
InOrder (a ∷ b ∷ l) = (text_lt b a ≡ false) × InOrder (b ∷ l)

insert-InOrder : (a : Text) (l : List Text) → InOrder l → InOrder (insert a l)
unfolding insert
insert-InOrder a [] h = tt
insert-InOrder a (b ∷ []) h = elim (Bool-cases (text_lt b a)) [
  | inl e ↦ rw e (text_lt_asymm b a e, tt)
  | inr e ↦ rw e (e, tt)
]
insert-InOrder a (b ∷ c ∷ l) h =
    ground (arith, insert-InOrder a (c ∷ l), text_lt_asymm b a, text_lt_asymm c a)

pub sorted-InOrder : (l : List Text) → InOrder (sorted l)
unfolding sorted
sorted-InOrder [] = tt
sorted-InOrder (a ∷ l) = insert-InOrder a (sorted l) (sorted-InOrder l)
