-- ===== src/Common/Lists.antt =====
-- Lists measured by native numbers, Boolean search, and a predicate on every element.
use Prim.Native.Nat.{ℕ, suc, ◌+◌}
use mathlib.Core.Path.{◌≡◌, refl, sym, subst}
use mathlib.Core.Logic.{◌↔◌, ◌⊎◌, inl, inr}
use mathlib.Core.Bool.{Bool, true, false, ◌&&◌, ◌||◌, false≢true}
use mathlib.Core.List.{List, [], ◌∷◌, ◌++◌, Memᴰ}
use native.Mathlib.Omega.{arith}
use multiplayer_fabric_manua.Common.Tests.{Bool-cases, if◌then◌else◌}

module _ {ℓ} {A : Type ℓ} where
  abbrev pub length : List A → ℕ
  length [] = 0
  length (x ∷ xs) = suc (length xs)

  pub length-append : (xs ys : List A) → length (xs ++ ys) ≡ length xs + length ys
  length-append [] ys = omega arith
  length-append (x ∷ xs) ys = omega (arith, length-append xs ys)

  abbrev pub all : (A → Bool) → List A → Bool
  all p [] = true
  all p (x ∷ xs) = p x && all p xs

  abbrev pub any : (A → Bool) → List A → Bool
  any p [] = false
  any p (x ∷ xs) = p x || any p xs

  -- Two parts of a concatenation are empty when it is.
  pub append-eq-nil : (xs ys : List A) → (xs ++ ys ≡ []) ↔ ((xs ≡ []) × (ys ≡ []))
  append-eq-nil [] ys = (λ e. (refl, e), λ p. p.1)
  append-eq-nil (x ∷ xs) ys = (λ e. cc, λ p. cc (p.0))

module _ {ℓ} {A : Type ℓ} where
  -- Two splits of a list at one place are one split.
  pub append-cancel_length :
      (xs xs' ys ys' : List A) → length xs ≡ length xs' → xs ++ ys ≡ xs' ++ ys' → xs ≡ xs'
  append-cancel_length [] [] ys ys' l e = refl
  append-cancel_length [] (x' ∷ xs') ys ys' l e = absurd (omega arith)
  append-cancel_length (x ∷ xs) [] ys ys' l e = absurd (omega arith)
  append-cancel_length (x ∷ xs) (x' ∷ xs') ys ys' l e =
      cc (append-cancel_length xs xs' ys ys' (omega arith) (cc))

-- A predicate on every element.
abbrev pub All {ℓ κ} : {A : Type ℓ} → (A → Type κ) → List A → Type κ
All P [] = Unit
All P (x ∷ xs) = P x × All P xs

pub All-mem {ℓ κ} : {A : Type ℓ} (P : A → Type κ) {a : A} {xs : List A} → All P xs → Memᴰ a xs → P a
All-mem P h (Memᴰ.head e) = subst P (sym e) h.0
All-mem P h (Memᴰ.tail m) = All-mem P h.1 m

module _ {ℓ} {A : Type ℓ} where
  pub mem-append_left : {a : A} {xs : List A} (ys : List A) → Memᴰ a xs → Memᴰ a (xs ++ ys)
  mem-append_left ys (Memᴰ.head e) = Memᴰ.head e
  mem-append_left ys (Memᴰ.tail m) = Memᴰ.tail (mem-append_left ys m)

  pub mem-append_right : {a : A} (xs : List A) {ys : List A} → Memᴰ a ys → Memᴰ a (xs ++ ys)
  mem-append_right [] m = m
  mem-append_right (x ∷ xs) m = Memᴰ.tail (mem-append_right xs m)

  pub mem-append_inv :
      {a : A} (xs : List A) {ys : List A} → Memᴰ a (xs ++ ys) → Memᴰ a xs ⊎ Memᴰ a ys
  mem-append_inv [] m = inr m
  mem-append_inv (x ∷ xs) (Memᴰ.head e) = inl (Memᴰ.head e)
  mem-append_inv (x ∷ xs) (Memᴰ.tail m) = elim (mem-append_inv xs m) [
    | inl l ↦ inl (Memᴰ.tail l)
    | inr r ↦ inr r
  ]

  pub any_mem : (p : A → Bool) (xs : List A) → any p xs ≡ true → (a : A) × Memᴰ a xs × (p a ≡ true)
  any_mem p [] h = absurd (false≢true h)
  any_mem p (x ∷ xs) h = elim (Bool-cases (p x)) [
    | inl e ↦ (x, Memᴰ.head refl, e)
    | inr e ↦ let (a, m, q) = any_mem p xs (ground arith) in (a, Memᴰ.tail m, q)
  ]

  pub any_of_mem : (p : A → Bool) {a : A} {xs : List A} → Memᴰ a xs → p a ≡ true → any p xs ≡ true
  any_of_mem p (Memᴰ.head {x} {xs} e) h = rw (sym e, h)
  any_of_mem p (Memᴰ.tail {x} {xs} m) h = ground (arith, any_of_mem p m h)

-- A list with no element is empty.
pub eq-nil_iff {ℓ} : {A : Type ℓ} (xs : List A) → (xs ≡ []) ↔ ((a : A) → ¬ Memᴰ a xs)
eq-nil_iff [] = (λ e a m. elim m [ ], λ h. refl)
eq-nil_iff (x ∷ xs) = (λ e. cc, λ h. absurd (h x (Memᴰ.head refl)))

-- `All` by membership.
pub All-of_mem {ℓ κ} :
    {A : Type ℓ} (P : A → Type κ) (xs : List A) → ((a : A) → Memᴰ a xs → P a) → All P xs
All-of_mem P [] h = tt
All-of_mem P (x ∷ xs) h = (h x (Memᴰ.head refl), All-of_mem P xs (λ a m. h a (Memᴰ.tail m)))

-- Problem lists that are empty together.
pub append-eq-nil_both {ℓ κ} :
    {A : Type ℓ} {P Q : Type κ} (xs ys : List A)
    → (xs ≡ []) ↔ P
    → (ys ≡ []) ↔ Q
    → (xs ++ ys ≡ []) ↔ (P × Q)
append-eq-nil_both xs ys p q = (
  λ e. let (l, r) = (append-eq-nil xs ys).0 e in (p.0 l, q.0 r),
  λ h. (append-eq-nil xs ys).1 (p.1 h.0, q.1 h.1),
)

-- A list that a test drops.
pub if-eq-nil {ℓ κ} :
    {A : Type ℓ} {P : Type κ} (b : Bool) (xs : List A)
    → (xs ≡ []) ↔ P
    → ((if b then [] else xs) ≡ []) ↔ (b ≡ false → P)
if-eq-nil true xs p = (λ e k. absurd (false≢true (sym k)), λ h. refl)
if-eq-nil false xs p = (λ e k. p.0 e, λ h. p.1 (h refl))

-- No element stands twice.
abbrev pub Distinct {ℓ} : {A : Type ℓ} → List A → Type ℓ
Distinct [] = Unit
Distinct (x ∷ xs) = (¬ Memᴰ x xs) × Distinct xs

pub Distinct-concat {ℓ} :
    {A : Type ℓ} (xs : List A) (a : A) → ¬ Memᴰ a xs → Distinct xs → Distinct (xs ++ a ∷ [])
Distinct-concat [] a h d = ((λ m. elim m [ ]), tt)
Distinct-concat (x ∷ xs) a h d = (
  λ m. elim (mem-append_inv xs m) [ inl l ↦ d.0 l | inr r ↦ h (Memᴰ.head (only r)) ],
  Distinct-concat xs a (λ m. h (Memᴰ.tail m)) d.1,
)
  where
    only : Memᴰ x (a ∷ []) → a ≡ x
    only (Memᴰ.head e) = sym e
    only (Memᴰ.tail m) = elim m [ ]

pub All-append {ℓ κ} :
    {A : Type ℓ} (P : A → Type κ) (xs ys : List A) → All P xs → All P ys → All P (xs ++ ys)
All-append P [] ys h k = k
All-append P (x ∷ xs) ys h k = (h.0, All-append P xs ys h.1 k)

pub All-append_right {ℓ κ} :
    {A : Type ℓ} (P : A → Type κ) (xs ys : List A) → All P (xs ++ ys) → All P ys
All-append_right P [] ys h = h
All-append_right P (x ∷ xs) ys h = All-append_right P xs ys h.1

pub All-append_left {ℓ κ} :
    {A : Type ℓ} (P : A → Type κ) (xs ys : List A) → All P (xs ++ ys) → All P xs
All-append_left P [] ys h = tt
All-append_left P (x ∷ xs) ys h = (h.0, All-append_left P xs ys h.1)
