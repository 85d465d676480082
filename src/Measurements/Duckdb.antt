-- ===== src/Measurements/Duckdb.antt =====
-- The operating system and the database that data/measurements/build.py calls, as interfaces: their
-- operations, and what their documentation says of the calls and statements in the script.
use mathlib.Core.List.{Memᴰ, ◌∷◌, ◌++◌}
use multiplayer_fabric_manua.Common.{
  ℕ, Bool, true, false, not, List, [], Option, none, some, ◌≡◌, ◌≢◌,
}
use multiplayer_fabric_manua.Common.Tests.{◌==◌}
use multiplayer_fabric_manua.Common.Lists.{all, length}
use multiplayer_fabric_manua.Common.Text.{Text, codes}
use multiplayer_fabric_manua.Measurements.Schema.{
  Row, Schema, Table, table_name, is_typed, has_keys, orphan_count, run_ids,
}
use multiplayer_fabric_manua.Measurements.Data.{schemas}

pub data Result (E : Type 0) (A : Type 0) : Type 0 where
  ok : A → Result E A
  stop : E → Result E A

-- A call that can fail may have changed the disk all the same.
pub record System : Type 1 where
  pub Disk : Type 0
  pub OsError : Type 0
  -- `os.makedirs(…, exist_ok=True)`
  pub makedirs : Text → Disk → Result OsError (Unit {0}) × Disk
  -- `os.path.getsize`
  pub getsize : Text → Disk → Result OsError ℕ

-- `State` is a connection.
pub record Duckdb (os : System) : Type 1 where
  pub State : Type 0
  pub Error : Type 0
  pub connect : State
  -- `CREATE TABLE`
  pub create_table : Schema → State → Result Error State
  -- `INSERT INTO … VALUES`, for each row
  pub executemany : Text → List Row → State → Result Error State
  -- `SELECT count(*) FROM …`
  pub count_rows : Text → State → Result Error ℕ
  -- `SELECT count(*) FROM … WHERE run_id NOT IN (SELECT run_id FROM run)`
  pub count_orphans : Text → State → Result Error ℕ
  -- `COPY … TO '…'`: the table, and the text that stands between the quotes
  pub copy : Text → Text → State → os.Disk → Result Error (Unit {0}) × os.Disk

-- `f"{OUT}/{t}.parquet"`
unfoldable pub parquet_path : Text → Text → Text
parquet_path out t = out ++ b'/' ∷ (t ++ codes ".parquet")

-- A text without the quote that ends a literal of SQL.
abbrev pub is_unquoted : Text → Bool
is_unquoted s = all (λ c. not (c == b'\'')) s

-- The tables that a connection has, the rows that a Parquet file holds, and the folders that are
-- ready for the six files, with the effect of the statements on them. The laws are about the
-- statements of the script: the tables that it declares, with any rows.
pub record IsDuckdb (os : System) (d : Duckdb os) : Type 1 where
  pub table : d.State → Text → Option Table
  pub contents : os.Disk → Text → Option (List Row)
  -- The system and the database take the name for one folder, the database may write there each of
  -- the six files, which are no links to one another, and there is room for them.
  pub IsReady : os.Disk → Text → Type 0
  pub connect_law : (t : Text) → table d.connect t ≡ none
  -- A new table is empty.
  pub create_law :
      (s : Schema) (db : d.State)
      → Memᴰ s schemas
      → table db s.name ≡ none
      → (db' : d.State) × (d.create_table s db ≡ ok db')
        × (table db' s.name ≡ some (record { schema = s; rows = [] }))
        × ((s' : Schema)
            → Memᴰ s' schemas
            → s'.name ≢ s.name
            → table db' s'.name ≡ table db s'.name)
  -- Typed rows that keep the primary key are put into an empty table. There has to be one at least.
  pub insert_law :
      (s : Schema) (new : List Row) (db : d.State)
      → Memᴰ s schemas
      → table db s.name ≡ some (record { schema = s; rows = [] })
      → new ≢ []
      → is_typed s new ≡ true
      → has_keys s new ≡ true
      → (db' : d.State) × (d.executemany s.name new db ≡ ok db')
        × (table db' s.name ≡ some (record { schema = s; rows = new }))
        × ((s' : Schema)
            → Memᴰ s' schemas
            → s'.name ≢ s.name
            → table db' s'.name ≡ table db s'.name)
  -- Rows that break the primary key are an error.
  pub key_law :
      (s : Schema) (new : List Row) (db : d.State)
      → Memᴰ s schemas
      → table db s.name ≡ some (record { schema = s; rows = [] })
      → is_typed s new ≡ true
      → has_keys s new ≡ false
      → (e : d.Error) × (d.executemany s.name new db ≡ stop e)
  pub count_law :
      (t : Table) (db : d.State)
      → Memᴰ t.schema schemas
      → table db (table_name t) ≡ some t
      → d.count_rows (table_name t) db ≡ ok (length t.rows)
  pub orphans_law :
      (runs t : Table) (db : d.State)
      → Memᴰ runs.schema schemas
      → Memᴰ t.schema schemas
      → table_name runs ≡ codes "run"
      → table db (table_name runs) ≡ some runs
      → table db (table_name t) ≡ some t
      → d.count_orphans (table_name t) db ≡ ok (orphan_count (run_ids runs) (run_ids t))
  -- A table is written to its file in a folder that is ready, and the other files keep what they
  -- hold.
  pub copy_law :
      (out : Text) (t : Table) (db : d.State) (disk : os.Disk)
      → Memᴰ t.schema schemas
      → is_unquoted out ≡ true
      → IsReady disk out
      → table db (table_name t) ≡ some t
      → (disk' : os.Disk) × (d.copy (table_name t) (parquet_path out (table_name t)) db disk
          ≡ (ok tt, disk'))
        × IsReady disk' out
        × (contents disk' (parquet_path out (table_name t)) ≡ some t.rows)
        × ((s : Schema)
            → Memᴰ s schemas
            → s.name ≢ table_name t
            → contents disk' (parquet_path out s.name) ≡ contents disk (parquet_path out s.name))
  -- A file that was written has a size.
  pub size_law :
      (out : Text) (t : Table) (disk : os.Disk)
      → Memᴰ t.schema schemas
      → IsReady disk out
      → contents disk (parquet_path out (table_name t)) ≡ some t.rows
      → (n : ℕ) × (os.getsize (parquet_path out (table_name t)) disk ≡ ok n)
