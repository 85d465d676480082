-- ===== src/Common/Dict.antt =====
-- Python's `dict` with string keys, in the order of insertion.
use mathlib.Core.Path.{◌≡◌, refl, sym, ap, subst}
use mathlib.Core.Logic.{◌↔◌, ◌≢◌, inl, inr}
use mathlib.Core.Bool.{false}
use mathlib.Core.Option.{Option, none, some}
use mathlib.Core.List.{List, [], ◌∷◌, ◌++◌, Memᴰ}
use native.Mathlib.Omega.{arith}
use multiplayer_fabric_manua.Common.Tests.{Bool-cases, if◌then◌else◌}
use multiplayer_fabric_manua.Common.Text.{Text, text_eq, text_eq_iff, mem, mem_iff}
use multiplayer_fabric_manua.Common.Lists.{Distinct, Distinct-concat}

abbrev pub Dict {ℓ} : Type ℓ → Type ℓ
Dict V = List (Text × V)

module _ {ℓ} {V : Type ℓ} where
  -- `d.get(k)`
  unfoldable pub lookup : Text → Dict V → Option V
  lookup k [] = none
  lookup k ((j, v) ∷ m) = if text_eq j k then some v else lookup k m

  -- `d[k] = v`: a key that is there keeps its place.
  unfoldable pub store : Text → V → Dict V → Dict V
  store k v [] = (k, v) ∷ []
  store k v ((j, w) ∷ m) = if text_eq j k then (j, v) ∷ m else (j, w) ∷ store k v m

  abbrev pub keys : Dict V → List Text
  keys [] = []
  keys ((k, v) ∷ m) = k ∷ keys m

pub not_here : (k j : Text) (l : List Text) → k ≢ j → ¬ Memᴰ k l → ¬ Memᴰ k (j ∷ l)
not_here k j l ne h (Memᴰ.head e) = ne e
not_here k j l ne h (Memᴰ.tail m) = h m

pub lookup-none {ℓ} :
    {V : Type ℓ} (k : Text) (m : Dict V) → (lookup k m ≡ none) ↔ (¬ Memᴰ k (keys m))
unfolding lookup
lookup-none k [] = (λ h x. elim x [ ], λ h. refl)
lookup-none k ((j, v) ∷ m) = elim (Bool-cases (text_eq j k)) [
  | inl e ↦ (λ h. absurd (ground arith), λ h. absurd (h (Memᴰ.head (sym ((text_eq_iff j k).0 e)))))
  | inr e ↦ (
    λ h.
        not_here k j (keys m) (λ q. ground (arith, (text_eq_iff j k).1 (sym q)))
          ((lookup-none k m).0 (rw e at h)),
    λ h. rw e ((lookup-none k m).1 (λ x. h (Memᴰ.tail x))),
  )
]

pub keys-store {ℓ} :
    {V : Type ℓ} (k : Text) (v : V) (m : Dict V)
    → lookup k m ≡ none
    → keys (store k v m) ≡ keys m ++ k ∷ []
unfolding lookup store
keys-store k v [] h = refl
keys-store k v ((j, w) ∷ m) h = elim (Bool-cases (text_eq j k)) [
  | inl e ↦ absurd (ground arith)
  | inr e ↦ rw e (ap (λ x. j ∷ x) (keys-store k v m (rw e at h)))
]

mem-behind : (k j : Text) (l : List Text) → text_eq j k ≡ false → Memᴰ k (j ∷ l) → Memᴰ k l
mem-behind k j l e (Memᴰ.head q) = ground (arith, (text_eq_iff j k).1 (sym q))
mem-behind k j l e (Memᴰ.tail r) = r

keys-store_old {ℓ} :
    {V : Type ℓ} (k : Text) (v : V) (m : Dict V) → Memᴰ k (keys m) → keys (store k v m) ≡ keys m
unfolding store
keys-store_old k v [] h = elim h [ ]
keys-store_old k v ((j, w) ∷ m) h = elim (Bool-cases (text_eq j k)) [
  | inl e ↦ rw e
  | inr e ↦ rw e (ap (λ x. j ∷ x) (keys-store_old k v m (mem-behind k j (keys m) e h)))
]

-- A dictionary keeps one entry for a key.
pub store-Distinct {ℓ} :
    {V : Type ℓ} (k : Text) (v : V) (m : Dict V) → Distinct (keys m) → Distinct (keys (store k v m))
store-Distinct k v m d = elim (Bool-cases (mem k (keys m))) [
  | inl e ↦ rw (keys-store_old k v m ((mem_iff k (keys m)).0 e)) d
  | inr e ↦
      let fresh : ¬ Memᴰ k (keys m) = λ h. ground (arith, (mem_iff k (keys m)).1 h) in
      rw (keys-store k v m ((lookup-none k m).1 fresh)) (Distinct-concat (keys m) k fresh d)
]

pub mem-keys {ℓ} : {V : Type ℓ} (k : Text) (v : V) (m : Dict V) → Memᴰ (k, v) m → Memᴰ k (keys m)
mem-keys k v ((j, w) ∷ m) (Memᴰ.head q) = Memᴰ.head (cc)
mem-keys k v ((j, w) ∷ m) (Memᴰ.tail r) = Memᴰ.tail (mem-keys k v m r)
mem-keys k v [] h = elim h [ ]

pair {ℓ} :
    {V : Type ℓ} (k j : Text) (v w : V) → j ≡ k → some w ≡ some v → ◌≡◌ {A = Text × V} (k, v) (j, w)
pair k j v w p q = ground arith

-- An entry of a dictionary is what its key is looked up to.
pub lookup-mem {ℓ} :
    {V : Type ℓ} (k : Text) (v : V) (m : Dict V)
    → Distinct (keys m)
    → Memᴰ (k, v) m
    → lookup k m ≡ some v
unfolding lookup
lookup-mem k v [] d x = elim x [ ]
lookup-mem k v ((j, w) ∷ m) d (Memᴰ.head q) =
    let same : j ≡ k = cc in let value : w ≡ v = cc in rw ((text_eq_iff j k).1 same, value)
lookup-mem k v ((j, w) ∷ m) d (Memᴰ.tail r) = elim (Bool-cases (text_eq j k)) [
  | inl e ↦
      let same : j ≡ k = (text_eq_iff j k).0 e in
      absurd (d.0 (subst (λ x. Memᴰ x (keys m)) (sym same) (mem-keys k v m r)))
  | inr e ↦ rw e (lookup-mem k v m d.1 r)
]

pub mem-lookup {ℓ} :
    {V : Type ℓ} (k : Text) (v : V) (m : Dict V) → lookup k m ≡ some v → Memᴰ (k, v) m
unfolding lookup
mem-lookup k v [] e = cc
mem-lookup k v ((j, w) ∷ m) e = elim (Bool-cases (text_eq j k)) [
  | inl t ↦ Memᴰ.head (pair k j v w ((text_eq_iff j k).0 t) (rw t at e))
  | inr t ↦ Memᴰ.tail (mem-lookup k v m (rw t at e))
]

-- A stored key is there, and no key is lost.
pub store-keys_self {ℓ} : {V : Type ℓ} (k : Text) (v : V) (m : Dict V) → Memᴰ k (keys (store k v m))
unfolding store
store-keys_self k v [] = Memᴰ.head refl
store-keys_self k v ((j, w) ∷ m) = elim (Bool-cases (text_eq j k)) [
  | inl e ↦ rw e (Memᴰ.head (sym ((text_eq_iff j k).0 e)))
  | inr e ↦ rw e (Memᴰ.tail (store-keys_self k v m))
]

pub store-keys_other {ℓ} :
    {V : Type ℓ} (k i : Text) (v : V) (m : Dict V) → Memᴰ i (keys m) → Memᴰ i (keys (store k v m))
unfolding store
store-keys_other k i v [] h = elim h [ ]
store-keys_other k i v ((j, w) ∷ m) (Memᴰ.head q) = elim (Bool-cases (text_eq j k)) [
  | inl e ↦ rw e (Memᴰ.head q)
  | inr e ↦ rw e (Memᴰ.head q)
]
store-keys_other k i v ((j, w) ∷ m) (Memᴰ.tail h) = elim (Bool-cases (text_eq j k)) [
  | inl e ↦ rw e (Memᴰ.tail h)
  | inr e ↦ rw e (Memᴰ.tail (store-keys_other k i v m h))
]

-- A key has an entry.
pub keys-mem {ℓ} : {V : Type ℓ} (k : Text) (m : Dict V) → Memᴰ k (keys m) → (v : V) × Memᴰ (k, v) m
keys-mem k [] h = elim h [ ]
keys-mem k ((j, w) ∷ m) (Memᴰ.head q) = (w, Memᴰ.head (ap (λ x. (x, w)) q))
keys-mem k ((j, w) ∷ m) (Memᴰ.tail h) = let (v, r) = keys-mem k m h in (v, Memᴰ.tail r)
