-- ===== src/Measurements/Build/References.antt =====
-- Rows that refer to a run, said by membership.
use mathlib.Core.Path.{subst}
use mathlib.Core.List.{Memᴰ}
use multiplayer_fabric_manua.Common.{
  ℕ, zero, suc, Bool, true, false, not, ◌||◌, ◌++◌, some, ◌∙◌, List, [], ◌∷◌, none, ◌≡◌, ◌≢◌, ◌↔◌,
  refl, arith, sym, ap, inl, inr,
}
use multiplayer_fabric_manua.Common.Tests.{Bool-cases}
use multiplayer_fabric_manua.Common.Lists.{All, any, any_mem, any_of_mem}
use multiplayer_fabric_manua.Common.Text.{codes, text_eq, text_eq_iff}
use multiplayer_fabric_manua.Measurements.Schema.{
  Value, null, text, int, real, Table, table_name, run_ids, value_eq, truth, sql_or, sql_not,
  is_yes, sql_eq, sql_in, is_orphan, orphan_count,
}
use multiplayer_fabric_manua.Measurements.Build.Verifying.{orphans, first_orphaned, unless_none}

pub value_eq_iff : (v w : Value) → (value_eq v w ≡ true) ↔ (v ≡ w)
unfolding value_eq
value_eq_iff null null = (λ e. refl, λ e. refl)
value_eq_iff null (text t) = (λ e. cc, λ e. cc)
value_eq_iff null (int b) = (λ e. cc, λ e. cc)
value_eq_iff null (real b q) = (λ e. cc, λ e. cc)
value_eq_iff (text s) null = (λ e. cc, λ e. cc)
value_eq_iff (text s) (text t) =
    (λ e. ap text ((text_eq_iff s t).0 e), λ e. (text_eq_iff s t).1 (cc))
value_eq_iff (text s) (int b) = (λ e. cc, λ e. cc)
value_eq_iff (text s) (real b q) = (λ e. cc, λ e. cc)
value_eq_iff (int a) null = (λ e. cc, λ e. cc)
value_eq_iff (int a) (text t) = (λ e. cc, λ e. cc)
value_eq_iff (int a) (int b) = ground arith
value_eq_iff (int a) (real b q) = (λ e. cc, λ e. cc)
value_eq_iff (real a p) null = (λ e. cc, λ e. cc)
value_eq_iff (real a p) (text t) = (λ e. cc, λ e. cc)
value_eq_iff (real a p) (int b) = (λ e. cc, λ e. cc)
value_eq_iff (real a p) (real b q) = ground arith

abbrev pub NotNull : Value → Type 0
NotNull v = v ≢ null

not_null : (v : Value) → NotNull v → value_eq null v ≡ false
not_null v n = elim (Bool-cases (value_eq null v)) [
  | inl e ↦ absurd (n (sym ((value_eq_iff null v).0 e)))
  | inr e ↦ e
]

or-truth : (a b : Bool) → sql_or (truth a) (truth b) ≡ truth (a || b)
or-truth true b = refl
or-truth false b = refl

-- Among values that are not null, `IN` has two truth values.
sql_in-truth :
    (ids : List Value) (v : Value)
    → All NotNull ids
    → NotNull v
    → sql_in ids v ≡ truth (any (value_eq v) ids)
unfolding sql_in sql_eq
sql_in-truth [] v h n = refl
sql_in-truth (w ∷ ids) v (k, h) n =
    rw (not_null v n, not_null w k, sql_in-truth ids v h n)
      (or-truth (value_eq v w) (any (value_eq v) ids))

is_orphan-truth :
    (ids : List Value) (v : Value)
    → All NotNull ids
    → NotNull v
    → is_orphan ids v ≡ not (any (value_eq v) ids)
unfolding is_orphan
is_orphan-truth ids v h n = rw (sql_in-truth ids v h n) (of_truth (any (value_eq v) ids))
  where
    of_truth : (b : Bool) → is_yes (sql_not (truth b)) ≡ not b
    of_truth true = refl
    of_truth false = refl

is_orphan_iff :
    (ids : List Value) (v : Value)
    → All NotNull ids
    → NotNull v
    → (is_orphan ids v ≡ false) ↔ Memᴰ v ids
is_orphan_iff ids v h n = (there, back)
  where
    found : any (value_eq v) ids ≡ true → Memᴰ v ids
    found e =
        let (w, m, q) = any_mem (value_eq v) ids e in
        subst (λ x. Memᴰ x ids) (sym ((value_eq_iff v w).0 q)) m

    there : is_orphan ids v ≡ false → Memᴰ v ids
    there e = let k = is_orphan-truth ids v h n in found (ground arith)

    back : Memᴰ v ids → is_orphan ids v ≡ false
    back m =
        is_orphan-truth ids v h n ∙ ap not (any_of_mem (value_eq v) m ((value_eq_iff v v).1 refl))

abbrev pub AllIn : List Value → List Value → Type 0
AllIn ids vs = (v : Value) → Memᴰ v vs → Memᴰ v ids

orphan_count_iff :
    (ids vs : List Value)
    → All NotNull ids
    → All NotNull vs
    → (orphan_count ids vs ≡ 0) ↔ AllIn ids vs
unfolding orphan_count
orphan_count_iff ids [] h ns = (λ e v m. elim m [ ], λ h. refl)
orphan_count_iff ids (v ∷ vs) h (n, ns) = elim (Bool-cases (is_orphan ids v)) [
  | inl e ↦ (
    λ q. absurd (ground arith),
    λ k. absurd (ground (arith, (is_orphan_iff ids v h n).1 (k v (Memᴰ.head refl)))),
  )
  | inr e ↦ (
    λ q. both v ((is_orphan_iff ids v h n).0 e) ((orphan_count_iff ids vs h ns).0 (rw e at q)),
    λ k. rw e ((orphan_count_iff ids vs h ns).1 (λ w m. k w (Memᴰ.tail m))),
  )
]
  where
    both : (u : Value) → Memᴰ u ids → AllIn ids vs → AllIn ids (u ∷ vs)
    both u m h w (Memᴰ.head q) = subst (λ x. Memᴰ x ids) (sym q) m
    both u m h w (Memᴰ.tail r) = h w r

-- Every row of the table has a run of the run table, which itself is not asked.
abbrev pub Refers : Table → Table → Type 0
Refers runs t = table_name t ≢ codes "run" → AllIn (run_ids runs) (run_ids t)

-- No row of the table has a null for its run.
abbrev pub HasRuns : Table → Type 0
HasRuns t = All NotNull (run_ids t)

pub orphans_iff : (runs t : Table) → HasRuns runs → HasRuns t → (orphans runs t ≡ 0) ↔ Refers runs t
orphans_iff runs t h n = elim (Bool-cases (text_eq (table_name t) (codes "run"))) [
  | inl e ↦ (λ q ne. absurd (ne ((text_eq_iff (table_name t) (codes "run")).0 e)), λ k. rw e refl)
  | inr e ↦
      let other : table_name t ≢ codes "run" =
        λ q. ground (arith, (text_eq_iff (table_name t) (codes "run")).1 q) in
      (
        λ q ne. (orphan_count_iff (run_ids runs) (run_ids t) h n).0 (rw e at q),
        λ k. rw e ((orphan_count_iff (run_ids runs) (run_ids t) h n).1 (k other)),
      )
]

-- The rows of all tables refer to runs: no table has an orphan.
pub first_orphaned-Refers :
    (runs : Table) (ts : List Table)
    → HasRuns runs
    → All HasRuns ts
    → All (Refers runs) ts
    → first_orphaned runs ts ≡ none
first_orphaned-Refers runs [] h ns rs = refl
first_orphaned-Refers runs (t ∷ ts) h (n, ns) (r, rs) =
    rw ((orphans_iff runs t h n).1 r) (first_orphaned-Refers runs ts h ns rs)

-- The first table with a row that refers to no run.
pub first_orphaned-append :
    (runs : Table) (before : List Table) (t : Table) (later : List Table)
    → HasRuns runs
    → All HasRuns (before ++ t ∷ later)
    → All (Refers runs) before
    → ¬ Refers runs t
    → first_orphaned runs (before ++ t ∷ later) ≡ some (table_name t)
first_orphaned-append runs [] t later h (n, ns) rs lost = stops (orphans runs t) refl
  where
    stops :
        (k : ℕ)
        → orphans runs t ≡ k
        → unless_none k (table_name t) (first_orphaned runs later) ≡ some (table_name t)
    stops zero e = absurd (lost ((orphans_iff runs t h n).0 e))
    stops (suc k) e = refl
first_orphaned-append runs (b ∷ before) t later h (n, ns) (r, rs) lost =
    rw ((orphans_iff runs b h n).1 r) (first_orphaned-append runs before t later h ns rs lost)
