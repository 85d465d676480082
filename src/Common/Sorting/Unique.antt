-- ===== src/Common/Sorting/Unique.antt =====
-- A list in order without repetition is determined by its members.
use mathlib.Core.Path.{◌≡◌, refl, sym, subst}
use mathlib.Core.Logic.{◌↔◌, inl, inr}
use mathlib.Core.Bool.{false}
use mathlib.Core.List.{List, [], ◌∷◌, Memᴰ}
use native.Mathlib.Omega.{arith}
use multiplayer_fabric_manua.Common.Tests.{Bool-cases}
use multiplayer_fabric_manua.Common.Lists.{Distinct}
use multiplayer_fabric_manua.Common.Text.{Text, text_lt}
use multiplayer_fabric_manua.Common.Sorting.{InOrder, insert, mem-insert, sorted, mem-sorted}

-- `text_lt b a ≡ false` is the order of texts, with equal texts.
text_le_antisym : (a b : Text) → text_lt a b ≡ false → text_lt b a ≡ false → a ≡ b
unfolding text_lt
text_le_antisym [] [] h k = refl
text_le_antisym [] (d ∷ b) h k = absurd (ground arith)
text_le_antisym (c ∷ a) [] h k = absurd (ground arith)
text_le_antisym (c ∷ a) (d ∷ b) h k = ground (arith, text_le_antisym a b)

text_le_trans : (a b c : Text) → text_lt b a ≡ false → text_lt c b ≡ false → text_lt c a ≡ false
unfolding text_lt
text_le_trans [] b [] h k = refl
text_le_trans [] b (z ∷ c) h k = refl
text_le_trans (x ∷ a) [] c h k = absurd (ground arith)
text_le_trans (x ∷ a) (y ∷ b) [] h k = absurd (ground arith)
text_le_trans (x ∷ a) (y ∷ b) (z ∷ c) h k = ground (arith, text_le_trans a b c)

-- The first text of a list in order is behind none of the others.
head_least : (a x : Text) (l : List Text) → InOrder (a ∷ l) → Memᴰ x l → text_lt x a ≡ false
head_least a x [] h m = elim m [ ]
head_least a x (b ∷ l) (h, hs) (Memᴰ.head q) = subst (λ y. text_lt y a ≡ false) (sym q) h
head_least a x (b ∷ l) (h, hs) (Memᴰ.tail m) = text_le_trans a b x h (head_least b x l hs m)

InOrder-tail : (a : Text) (l : List Text) → InOrder (a ∷ l) → InOrder l
InOrder-tail a [] h = tt
InOrder-tail a (b ∷ l) (h, hs) = hs

abbrev pub SameMembers : List Text → List Text → Type 0
SameMembers l l' = (x : Text) → Memᴰ x l ↔ Memᴰ x l'

same_head :
    (a b : Text) (l l' : List Text)
    → InOrder (a ∷ l)
    → InOrder (b ∷ l')
    → SameMembers (a ∷ l) (b ∷ l')
    → a ≡ b
same_head a b l l' h h' same = go ((same a).0 (Memᴰ.head refl)) ((same b).1 (Memᴰ.head refl))
  where
    go : Memᴰ a (b ∷ l') → Memᴰ b (a ∷ l) → a ≡ b
    go (Memᴰ.head q) m = q
    go (Memᴰ.tail r) (Memᴰ.head q) = sym q
    go (Memᴰ.tail r) (Memᴰ.tail m) =
        text_le_antisym a b (head_least b a l' h' r) (head_least a b l h m)

other_member :
    (a x : Text) (l l' : List Text)
    → ¬ Memᴰ a l
    → ((y : Text) → Memᴰ y (a ∷ l) → Memᴰ y (a ∷ l'))
    → Memᴰ x l
    → Memᴰ x l'
other_member a x l l' fresh sub m = go (sub x (Memᴰ.tail m))
  where
    go : Memᴰ x (a ∷ l') → Memᴰ x l'
    go (Memᴰ.head q) = absurd (fresh (subst (λ y. Memᴰ y l) q m))
    go (Memᴰ.tail r) = r

pub InOrder-unique :
    (l l' : List Text)
    → InOrder l
    → InOrder l'
    → Distinct l
    → Distinct l'
    → SameMembers l l'
    → l ≡ l'
InOrder-unique [] [] h h' d d' same = refl
InOrder-unique [] (b ∷ l') h h' d d' same = elim ((same b).1 (Memᴰ.head refl)) [ ]
InOrder-unique (a ∷ l) [] h h' d d' same = elim ((same a).0 (Memᴰ.head refl)) [ ]
InOrder-unique (a ∷ l) (b ∷ l') h h' (f, d) (f', d') same =
    let q = same_head a b l l' h h' same in
    let fresh : ¬ Memᴰ a l' = subst (λ y. ¬ Memᴰ y l') (sym q) f' in
    let same' : SameMembers (a ∷ l) (a ∷ l') =
      subst (λ y. SameMembers (a ∷ l) (y ∷ l')) (sym q) same in
    let rest = InOrder-unique l l' (InOrder-tail a l h) (InOrder-tail b l' h') d d' (λ x. (
      other_member a x l l' f (λ y. (same' y).0),
      other_member a x l' l fresh (λ y. (same' y).1),
    )) in
    cc

-- `sorted` keeps a list without repetition so.
insert-Distinct : (a : Text) (l : List Text) → ¬ Memᴰ a l → Distinct l → Distinct (insert a l)
unfolding insert
insert-Distinct a [] h d = ((λ m. elim m [ ]), tt)
insert-Distinct a (b ∷ l) h (f, d) = elim (Bool-cases (text_lt b a)) [
  | inr e ↦ rw e (h, (f, d))
  | inl e ↦
      rw e ((λ m. elsewhere (mem-insert a b l m)), insert-Distinct a l (λ m. h (Memᴰ.tail m)) d)
]
  where
    elsewhere : ¬ Memᴰ b (a ∷ l)
    elsewhere (Memᴰ.head q) = h (Memᴰ.head (sym q))
    elsewhere (Memᴰ.tail r) = f r

pub sorted-Distinct : (l : List Text) → Distinct l → Distinct (sorted l)
unfolding sorted
sorted-Distinct [] d = tt
sorted-Distinct (a ∷ l) (f, d) =
    insert-Distinct a (sorted l) (λ m. f (mem-sorted a l m)) (sorted-Distinct l d)
