-- ===== src/PageMeta/Related/Members.antt =====
-- Members of the sets that `finalize` of scripts/decision-meta.py builds for the related pages.
use mathlib.Core.Path.{subst}
use mathlib.Core.List.{Memᴰ}
use multiplayer_fabric_manua.Common.{
  Bool, true, List, [], ◌∷◌, ◌++◌, ◌≡◌, ◌↔◌, ◌⊎◌, inl, inr, sym, ap,
}
use multiplayer_fabric_manua.Common.Tests.{Bool-cases}
use multiplayer_fabric_manua.Common.Lists.{mem-append_inv, mem-append_left, mem-append_right}
use multiplayer_fabric_manua.Common.Text.{Text, mem, mem_iff}
use multiplayer_fabric_manua.PageMeta.Graph.{Graph, Info, add}
use multiplayer_fabric_manua.PageMeta.Related.{inbound, union, select}

pub mem-select :
    (p : Text → Bool) (k : Text) (l : List Text) → Memᴰ k (select p l) → Memᴰ k l × (p k ≡ true)
unfolding select
mem-select p k [] m = elim m [ ]
mem-select p k (j ∷ l) m = elim (Bool-cases (p j)) [
  | inl e ↦ here e (rw e at m) (mem-select p k l)
  | inr e ↦ let (r, q) = mem-select p k l (rw e at m) in (Memᴰ.tail r, q)
]
  where
    here :
        p j ≡ true
        → Memᴰ k (j ∷ select p l)
        → (Memᴰ k (select p l) → Memᴰ k l × (p k ≡ true))
        → Memᴰ k (j ∷ l) × (p k ≡ true)
    here e (Memᴰ.head q) h = (Memᴰ.head q, subst (λ x. p x ≡ true) (sym q) e)
    here e (Memᴰ.tail r) h = let (r', q) = h r in (Memᴰ.tail r', q)

pub select-mem :
    (p : Text → Bool) (k : Text) (l : List Text) → Memᴰ k l → p k ≡ true → Memᴰ k (select p l)
unfolding select
select-mem p k (j ∷ l) (Memᴰ.head q) h = rw (subst (λ x. p x ≡ true) q h) (Memᴰ.head q)
select-mem p k [] m h = m
select-mem p k (j ∷ l) (Memᴰ.tail r) h = elim (Bool-cases (p j)) [
  | inl e ↦ rw e (Memᴰ.tail (select-mem p k l r h))
  | inr e ↦ rw e (select-mem p k l r h)
]

pub mem-add : (k j : Text) (l : List Text) → Memᴰ k (add j l) ↔ (Memᴰ k l ⊎ (k ≡ j))
unfolding add
mem-add k j l = elim (Bool-cases (mem j l)) [
  | inl e ↦
      let back : (k ≡ j) → Memᴰ k l = λ q. subst (λ x. Memᴰ x l) (sym q) ((mem_iff j l).0 e) in
      rw e (inl, elim [ inl m ↦ m | inr q ↦ back q ])
  | inr e ↦ rw e (there, back)
]
  where
    last : Memᴰ k (j ∷ []) → k ≡ j
    last (Memᴰ.head q) = q
    last (Memᴰ.tail r) = elim r [ ]

    in_order : Memᴰ k l ⊎ Memᴰ k (j ∷ []) → Memᴰ k l ⊎ (k ≡ j)
    in_order (inl m) = inl m
    in_order (inr m) = inr (last m)

    there : Memᴰ k (l ++ (j ∷ [])) → Memᴰ k l ⊎ (k ≡ j)
    there m = in_order (mem-append_inv l m)

    back : Memᴰ k l ⊎ (k ≡ j) → Memᴰ k (l ++ (j ∷ []))
    back (inl m) = mem-append_left (j ∷ []) m
    back (inr q) = mem-append_right l (Memᴰ.head q)

pub mem-union : (k : Text) (a b : List Text) → Memᴰ k (union a b) ↔ (Memᴰ k a ⊎ Memᴰ k b)
unfolding union
mem-union k a [] = (inl, elim [ inl m ↦ m | inr m ↦ elim m [ ] ])
mem-union k a (j ∷ b) =
    let (f, g) = mem-union k (add j a) b in
    let (f', g') = mem-add k j a in (λ m. there f' (f m), λ m. g (back g' m))
  where
    there :
        (Memᴰ k (add j a) → Memᴰ k a ⊎ (k ≡ j))
        → Memᴰ k (add j a) ⊎ Memᴰ k b
        → Memᴰ k a ⊎ Memᴰ k (j ∷ b)
    there h (inl m) = elim (h m) [ inl r ↦ inl r | inr q ↦ inr (Memᴰ.head q) ]
    there h (inr m) = inr (Memᴰ.tail m)

    back :
        (Memᴰ k a ⊎ (k ≡ j) → Memᴰ k (add j a))
        → Memᴰ k a ⊎ Memᴰ k (j ∷ b)
        → Memᴰ k (add j a) ⊎ Memᴰ k b
    back h (inl m) = inl (h (inl m))
    back h (inr (Memᴰ.head q)) = inl (h (inr q))
    back h (inr (Memᴰ.tail r)) = inr r

pub mem-inbound :
    (graph : Graph) (k current : Text)
    → Memᴰ k (inbound graph current)
    → (info : Info) × Memᴰ (k, info) graph × Memᴰ current info.out
unfolding inbound
mem-inbound [] k current m = elim m [ ]
mem-inbound ((j, i) ∷ graph) k current m = elim (Bool-cases (mem current i.out)) [
  | inl e ↦ first ((mem_iff current i.out).0 e) (rw e at m) (mem-inbound graph k current)
  | inr e ↦ let (info, r, q) = mem-inbound graph k current (rw e at m) in (info, Memᴰ.tail r, q)
]
  where
    first :
        Memᴰ current i.out
        → Memᴰ k (j ∷ inbound graph current)
        → (Memᴰ k (inbound graph current)
            → (info : Info) × Memᴰ (k, info) graph × Memᴰ current info.out)
        → (info : Info) × Memᴰ (k, info) ((j, i) ∷ graph) × Memᴰ current info.out
    first c (Memᴰ.head q) h = (i, Memᴰ.head (ap (λ x. (x, i)) q), c)
    first c (Memᴰ.tail r) h = let (info, r', q) = h r in (info, Memᴰ.tail r', q)

pub inbound-mem :
    (graph : Graph) (k current : Text) (info : Info)
    → Memᴰ (k, info) graph
    → Memᴰ current info.out
    → Memᴰ k (inbound graph current)
unfolding inbound
inbound-mem [] k current info m c = elim m [ ]
inbound-mem ((j, i) ∷ graph) k current info (Memᴰ.head q) c =
    let same : info ≡ i = ap (λ x. x.1) q in
    let c' : mem current i.out ≡ true =
      (mem_iff current i.out).1 (subst (λ (x : Info). Memᴰ current x.out) same c) in
    rw c' (Memᴰ.head (ap (λ x. x.0) q))
inbound-mem ((j, i) ∷ graph) k current info (Memᴰ.tail r) c =
    elim (Bool-cases (mem current i.out)) [
      | inl e ↦ rw e (Memᴰ.tail (inbound-mem graph k current info r c))
      | inr e ↦ rw e (inbound-mem graph k current info r c)
    ]
