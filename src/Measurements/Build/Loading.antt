-- ===== src/Measurements/Build/Loading.antt =====
-- Loading the tables into a database that keeps the laws of Duckdb.antt.
use mathlib.Core.List.{Memᴰ}
use multiplayer_fabric_manua.Common.{
  inl, inr, ◌⊎◌, true, false, List, [], ◌∷◌, some, none, ◌≡◌, ◌≢◌, refl, sym, ◌∙◌, map,
}
use multiplayer_fabric_manua.Common.Lists.{All, Distinct}
use multiplayer_fabric_manua.Common.Text.{Text}
use multiplayer_fabric_manua.Measurements.Schema.{Schema, Table, table_name, is_typed, has_keys}
use multiplayer_fabric_manua.Measurements.Data.{schemas}
use multiplayer_fabric_manua.Measurements.Duckdb.{System, Duckdb, IsDuckdb, ok, stop}
use multiplayer_fabric_manua.Measurements.Build.Steps.{then_ok, then_stop, execute_ok, execute_stop}
use multiplayer_fabric_manua.Measurements.Build.{execute, World, sql, load_table, load}

-- A table has rows, they are typed, and its primary key holds.
abbrev pub IsAccepted : Table → Type 0
IsAccepted t = (t.rows ≢ []) × (is_typed t.schema t.rows ≡ true) × (has_keys t.schema t.rows ≡ true)

-- The rows of some table break its primary key, and the tables before it are accepted.
abbrev pub BreaksKey : List Table → Type 0
BreaksKey [] = ⊥
BreaksKey (t ∷ ts) =
    ((is_typed t.schema t.rows ≡ true) × (has_keys t.schema t.rows ≡ false))
    ⊎ (IsAccepted t × BreaksKey ts)

abbrev pub names : List Table → List Text
names ts = map table_name ts

-- One of the tables that the script declares, with any rows.
abbrev pub IsDeclared : Table → Type 0
IsDeclared t = Memᴰ t.schema schemas

module _ {os : System} (d : Duckdb os) (l : IsDuckdb os d) where
  -- The database has the table under its name.
  abbrev pub Holds : d.State → Table → Type 0
  Holds db t = l.table db (table_name t) ≡ some t

  -- One world is another with its database changed.
  abbrev pub SameBut : World d → World d → Type 0
  SameBut w w' = w' ≡ record w { db = w'.db }

  -- The other tables that the script declares are what they were.
  abbrev SameTables : Text → d.State → d.State → Type 0
  SameTables t db db' =
      (s : Schema) → Memᴰ s schemas → s.name ≢ t → l.table db' s.name ≡ l.table db s.name

  load_table-Holds :
      (t : Table) (w : World d)
      → IsDeclared t
      → IsAccepted t
      → l.table w.db (table_name t) ≡ none
      → (db : d.State) × (load_table d t w ≡ (ok tt, record w { db = db }))
        × Holds db t
        × SameTables (table_name t) w.db db
  unfolding load_table
  load_table-Holds t w m (some_row, typed, keyed) absent =
      let (db₁, e₁, new, same₁) = l.create_law t.schema w.db m absent in
      let (db₂, e₂, full, same₂) = l.insert_law t.schema t.rows db₁ m new some_row typed keyed in
      let w₁ : World d = record w { db = db₁ } in
      (
        db₂,
        then_ok d (execute d (d.create_table t.schema)) _ w w₁ tt
              (execute_ok d (d.create_table t.schema) w db₁ e₁)
            ∙ execute_ok d (d.executemany (table_name t) t.rows) w₁ db₂ e₂,
        full,
        λ s n ne. same₂ s n ne ∙ same₁ s n ne,
      )

  -- A table whose rows break its primary key stops the script.
  load_table-broken :
      (t : Table) (w : World d)
      → IsDeclared t
      → is_typed t.schema t.rows ≡ true
      → has_keys t.schema t.rows ≡ false
      → l.table w.db (table_name t) ≡ none
      → (e : d.Error) × (db : d.State) × (load_table d t w ≡ (stop (sql e), record w { db = db }))
  unfolding load_table
  load_table-broken t w m typed broken absent =
      let (db₁, e₁, new, same₁) = l.create_law t.schema w.db m absent in
      let (x, e₂) = l.key_law t.schema t.rows db₁ m new typed broken in
      let w₁ : World d = record w { db = db₁ } in
      (
        x,
        db₁,
        then_ok d (execute d (d.create_table t.schema)) _ w w₁ tt
              (execute_ok d (d.create_table t.schema) w db₁ e₁)
            ∙ execute_stop d (d.executemany (table_name t) t.rows) w₁ x e₂,
      )

  abbrev Absent : d.State → List Table → Type 0
  Absent db ts = All (λ t. l.table db (table_name t) ≡ none) ts

  -- Loading one table leaves the others to be loaded.
  still-Absent :
      (t : Table) (db db' : d.State) (ts : List Table)
      → ¬ Memᴰ (table_name t) (names ts)
      → All IsDeclared ts
      → SameTables (table_name t) db db'
      → Absent db ts
      → Absent db' ts
  still-Absent t db db' [] fresh m same a = tt
  still-Absent t db db' (u ∷ us) fresh (m, ms) same (a, rest) = (
    same u.schema m (λ q. fresh (Memᴰ.head (sym q))) ∙ a,
    still-Absent t db db' us (λ k. fresh (Memᴰ.tail k)) ms same rest,
  )

  pub load-Holds :
      (ts : List Table) (w : World d)
      → Distinct (names ts)
      → All IsDeclared ts
      → All IsAccepted ts
      → Absent w.db ts
      → (db : d.State) × (load d ts w ≡ (ok tt, record w { db = db }))
        × All (Holds db) ts
        × ((s : Schema)
            → Memᴰ s schemas
            → ¬ Memᴰ s.name (names ts)
            → l.table db s.name ≡ l.table w.db s.name)
  unfolding load
  load-Holds [] w dist ms acc absent = (w.db, refl, tt, λ s m n. refl)
  load-Holds (t ∷ ts) w (fresh, dist) (m, ms) (a, acc) (none_yet, absent) =
      let (db₁, e₁, h, same₁) = load_table-Holds t w m a none_yet in
      let (db₂, e₂, hs, same₂) =
        load-Holds ts (record w { db = db₁ }) dist ms acc
          (still-Absent t w.db db₁ ts fresh ms same₁ absent) in
      (
        db₂,
        then_ok d (load_table d t) _ w (record w { db = db₁ }) tt e₁ ∙ e₂,
        (same₂ t.schema m fresh ∙ h, hs),
        λ s k n. same₂ s k (λ x. n (Memᴰ.tail x)) ∙ same₁ s k (λ q. n (Memᴰ.head q)),
      )

  pub load-BreaksKey :
      (ts : List Table) (w : World d)
      → Distinct (names ts)
      → All IsDeclared ts
      → BreaksKey ts
      → Absent w.db ts
      → (e : d.Error) × (db : d.State) × (load d ts w ≡ (stop (sql e), record w { db = db }))
  unfolding load
  load-BreaksKey [] w dist ms broken absent = absurd broken
  load-BreaksKey (t ∷ ts) w dist (m, ms) (inl (typed, broken)) (none_yet, absent) =
      let (x, db, e) = load_table-broken t w m typed broken none_yet in
      (x, db, then_stop d (load_table d t) _ w (record w { db = db }) (sql x) e)
  load-BreaksKey (t ∷ ts) w (fresh, dist) (m, ms) (inr (a, later)) (none_yet, absent) =
      let (db₁, e₁, h, same₁) = load_table-Holds t w m a none_yet in
      let (x, db₂, e₂) =
        load-BreaksKey ts (record w { db = db₁ }) dist ms later
          (still-Absent t w.db db₁ ts fresh ms same₁ absent) in
      (x, db₂, then_ok d (load_table d t) _ w (record w { db = db₁ }) tt e₁ ∙ e₂)
