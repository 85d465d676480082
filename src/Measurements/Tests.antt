-- ===== src/Measurements/Tests.antt =====
-- A small database in memory, with a disk for its files, that keeps the laws.
mod Outcomes
use mathlib.Core.List.{Memᴰ}
use multiplayer_fabric_manua.Common.{
  ℕ, ◌+◌, Bool, true, false, not, ◌&&◌, List, [], ◌∷◌, ◌++◌, Option, none, some, ◌≡◌, ◌≢◌, refl,
  sym, ap, ◌∙◌, arith, inl, inr,
}
use multiplayer_fabric_manua.Common.Tests.{if◌then◌else◌, Bool-cases}
use multiplayer_fabric_manua.Common.Lists.{length, length-append, append-cancel_length}
use multiplayer_fabric_manua.Common.Text.{Text, codes, text_eq, text_eq_iff}
use multiplayer_fabric_manua.PosixPath.{is_empty}
use multiplayer_fabric_manua.Measurements.Schema.{
  Row, Schema, Table, table_name, is_typed, has_keys, orphan_count, run_ids,
}
use multiplayer_fabric_manua.Measurements.Data.{schemas}
use multiplayer_fabric_manua.Measurements.Duckdb.{
  Result, ok, stop, System, Duckdb, IsDuckdb, parquet_path, is_unquoted,
}

-- A connection as the function from a name to the table.
abbrev Memory : Type 0
Memory = Text → Option Table

abbrev put : Text → Table → Memory → Memory
put t tab db u = if text_eq t u then some tab else db u

put_self : (t : Text) (tab : Table) (db : Memory) → put t tab db t ≡ some tab
put_self t tab db = rw ((text_eq_iff t t).1 refl) refl

put_ne : (t u : Text) (tab : Table) (db : Memory) → u ≢ t → put t tab db u ≡ db u
put_ne t u tab db ne = elim (Bool-cases (text_eq t u)) [
  | inl e ↦ absurd (ne (sym ((text_eq_iff t u).0 e)))
  | inr e ↦ rw e refl
]

abbrev Answer : Type 0 → Type 0
Answer A = Result (Unit {0}) A

abbrev create_in : Schema → Memory → Option Table → Answer Memory
create_in s db none = ok (put s.name (record { schema = s; rows = [] }) db)
create_in s db (some tab) = stop tt

abbrev insert_in : Text → List Row → Memory → Option Table → Answer Memory
insert_in t new db none = stop tt
insert_in t new db (some tab) =
    if not (is_empty new) && (is_typed tab.schema new && has_keys tab.schema (tab.rows ++ new))
    then ok (put t (record tab { rows = tab.rows ++ new }) db)
    else stop tt

abbrev of_table : {A : Type 0} → (Table → A) → Option Table → Answer A
of_table f none = stop tt
of_table f (some tab) = ok (f tab)

abbrev of_tables : Option Table → Option Table → Answer ℕ
of_tables (some runs) (some tab) = ok (orphan_count (run_ids runs) (run_ids tab))
of_tables _ _ = stop tt

-- A disk as the function from a path to the rows of the file.
abbrev Disk : Type 0
Disk = Text → Option (List Row)

abbrev copy_in : Text → Disk → Option Table → Answer (Unit {0}) × Disk
copy_in path disk none = (stop tt, disk)
copy_in path disk (some tab) = (ok tt, λ p. if text_eq path p then some tab.rows else disk p)

abbrev size_of : Option (List Row) → Answer ℕ
size_of none = stop tt
size_of (some rows) = ok (length rows)

abbrev system : System
system = record {
  Disk = Disk;
  OsError = Unit;
  makedirs = λ path disk. (if is_empty path then stop tt else ok tt, disk);
  getsize = λ path disk. size_of (disk path);
}

abbrev memory : Duckdb system
memory = record {
  State = Memory;
  Error = Unit;
  connect = λ t. none;
  create_table = λ s db. create_in s db (db s.name);
  executemany = λ t new db. insert_in t new db (db t);
  count_rows = λ t db. of_table (λ (tab : Table). length tab.rows) (db t);
  count_orphans = λ t db. of_tables (db (codes "run")) (db t);
  copy = λ t path db disk. copy_in path disk (db t);
}

memory-create :
    (s : Schema) (db : Memory)
    → Memᴰ s schemas
    → db s.name ≡ none
    → (db' : Memory) × (memory.create_table s db ≡ ok db')
      × (db' s.name ≡ some (record { schema = s; rows = [] }))
      × ((s' : Schema) → Memᴰ s' schemas → s'.name ≢ s.name → db' s'.name ≡ db s'.name)
memory-create s db m e =
    let tab : Table = record { schema = s; rows = [] } in
    (
      put s.name tab db,
      rw e refl,
      put_self s.name tab db,
      λ s' k ne. put_ne s.name s'.name tab db ne,
    )

some_row : (new : List Row) → new ≢ [] → is_empty new ≡ false
some_row [] ne = absurd (ne refl)
some_row (r ∷ new) ne = refl

memory-insert :
    (s : Schema) (new : List Row) (db : Memory)
    → Memᴰ s schemas
    → db s.name ≡ some (record { schema = s; rows = [] })
    → new ≢ []
    → is_typed s new ≡ true
    → has_keys s new ≡ true
    → (db' : Memory) × (memory.executemany s.name new db ≡ ok db')
      × (db' s.name ≡ some (record { schema = s; rows = new }))
      × ((s' : Schema) → Memᴰ s' schemas → s'.name ≢ s.name → db' s'.name ≡ db s'.name)
memory-insert s new db m e ne typed keyed =
    let tab : Table = record { schema = s; rows = new } in
    (
      put s.name tab db,
      rw (e, some_row new ne, typed, keyed) refl,
      put_self s.name tab db,
      λ s' k n. put_ne s.name s'.name tab db n,
    )

memory-key :
    (s : Schema) (new : List Row) (db : Memory)
    → Memᴰ s schemas
    → db s.name ≡ some (record { schema = s; rows = [] })
    → is_typed s new ≡ true
    → has_keys s new ≡ false
    → (e : Unit {0}) × (memory.executemany s.name new db ≡ stop e)
memory-key s new db m e typed broken = (tt, rw e (rejected (is_empty new)))
  where
    rejected :
        (b : Bool)
        → (if not b && (is_typed s new && has_keys s new)
            then ok (put s.name (record { schema = s; rows = new }) db)
            else stop tt)
          ≡ stop tt
    rejected true = refl
    rejected false = rw (typed, broken) refl

append-cancel : (out s s' : Text) → out ++ s ≡ out ++ s' → s ≡ s'
append-cancel [] s s' e = e
append-cancel (c ∷ out) s s' e = append-cancel out s s' cc

parquet_path-injective : (out t t' : Text) → parquet_path out t ≡ parquet_path out t' → t ≡ t'
unfolding parquet_path
parquet_path-injective out t t' e =
    let e₁ : t ++ codes ".parquet" ≡ t' ++ codes ".parquet" =
      behind
        (append-cancel out (b'/' ∷ (t ++ codes ".parquet")) (b'/' ∷ (t' ++ codes ".parquet")) e) in
    let l = length-append t (codes ".parquet") in
    let l' = length-append t' (codes ".parquet") in
    let k = ap length e₁ in
    append-cancel_length t t' (codes ".parquet") (codes ".parquet") (omega arith) e₁
  where
    behind : {c : ℕ} {s s' : Text} → c ∷ s ≡ c ∷ s' → s ≡ s'
    behind q = cc

memory-copy :
    (out : Text) (t : Table) (db : Memory) (disk : Disk)
    → Memᴰ t.schema schemas
    → is_unquoted out ≡ true
    → Unit {0}
    → db (table_name t) ≡ some t
    → (disk' : Disk) × (memory.copy (table_name t) (parquet_path out (table_name t)) db disk
        ≡ (ok tt, disk'))
      × Unit {0}
      × (disk' (parquet_path out (table_name t)) ≡ some t.rows)
      × ((s : Schema)
          → Memᴰ s schemas
          → s.name ≢ table_name t
          → disk' (parquet_path out s.name) ≡ disk (parquet_path out s.name))
memory-copy out t db disk m plain ready e =
    let path = parquet_path out (table_name t) in
    (
      (λ p. if text_eq path p then some t.rows else disk p),
      rw e refl,
      tt,
      rw ((text_eq_iff path path).1 refl) refl,
      λ s k ne.
          other (parquet_path out s.name)
            (λ q. ne (sym (parquet_path-injective out (table_name t) s.name q))),
    )
  where
    other :
        (p : Text)
        → parquet_path out (table_name t) ≢ p
        → (if text_eq (parquet_path out (table_name t)) p then some t.rows else disk p) ≡ disk p
    other p ne = elim (Bool-cases (text_eq (parquet_path out (table_name t)) p)) [
      | inl q ↦ absurd (ne ((text_eq_iff (parquet_path out (table_name t)) p).0 q))
      | inr q ↦ rw q refl
    ]

abbrev memory_laws : IsDuckdb system memory
memory_laws = record {
  table = λ db t. db t;
  contents = λ disk path. disk path;
  IsReady = λ disk out. Unit;
  connect_law = λ t. refl;
  create_law = memory-create;
  insert_law = memory-insert;
  key_law = memory-key;
  count_law = λ t db m e. rw e refl;
  orphans_law = λ runs t db k m is_run r e. rw (sym is_run, r, e) refl;
  copy_law = memory-copy;
  size_law = λ out t disk m ready c. (length t.rows, rw c refl);
}
