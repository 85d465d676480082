-- ===== src/Measurements/Build.antt =====
-- The script data/measurements/build.py: it creates and fills the tables, verifies the references
-- to runs, and writes one file for a table. What it prints is kept as data.
pub mod Steps
pub mod Loading
pub mod Verifying
pub mod References
pub mod Runs
pub mod Writing
pub mod Outcomes
use multiplayer_fabric_manua.Common.{ℕ, zero, suc, List, [], ◌∷◌, ◌++◌, map}
use multiplayer_fabric_manua.Common.Tests.{if◌then◌else◌}
use multiplayer_fabric_manua.Common.Text.{Text, codes, text_eq}
use multiplayer_fabric_manua.Measurements.Schema.{Table, table_name}
use multiplayer_fabric_manua.Measurements.Duckdb.{System, Duckdb, Result, ok, stop, parquet_path}

-- `f"{t:14} rows={n:4}  orphan_run_id={orphans}"` and `f"wrote …  … bytes"`.
pub data Line : Type 0 where
  counted : Text → ℕ → ℕ → Line
  wrote : Text → ℕ → Line

-- `OUT = sys.argv[1] if len(sys.argv) > 1 else "."`
unfoldable pub out_folder : List Text → Text
out_folder [] = codes "."
out_folder (script ∷ []) = codes "."
out_folder (script ∷ out ∷ rest) = out

module _ {os : System} (d : Duckdb os) where
  open os use {Disk, OsError}
  open d use {State, Error, create_table, executemany, count_rows, count_orphans, copy}

  -- What ends the script: an error of the database or of the system, or `sys.exit` on a table.
  pub data Stop : Type 0 where
    sql : Error → Stop
    failed : OsError → Stop
    orphaned : Text → Stop

  -- The connection, the disk and the lines printed.
  pub record World : Type 0 where
    pub db : State
    pub disk : Disk
    pub printed : List Line

  abbrev pub Action : Type 0 → Type 0
  Action A = World → Result Stop A × World

  -- What comes after a step: nothing if it has stopped the script.
  abbrev pub after : {A B : Type 0} → Result Stop A × World → (A → Action B) → Result Stop B × World
  after (ok a, w) f = f a w
  after (stop e, w) f = (stop e, w)

  infixl 5 ◌>>=◌ ◌>>◌
  abbrev pub ◌>>=◌ : {A B : Type 0} → Action A → (A → Action B) → Action B
  ◌>>=◌ m f w = after (m w) f

  abbrev pub ◌>>◌ : {A B : Type 0} → Action A → Action B → Action B
  m >> k = m >>= λ _. k

  abbrev pub done : Action (Unit {0})
  done w = (ok tt, w)

  -- A statement that changes the database, and a query.
  abbrev pub changed : World → Result Error State → Result Stop (Unit {0}) × World
  changed w (ok db) = (ok tt, record w { db = db })
  changed w (stop e) = (stop (sql e), w)

  abbrev pub execute : (State → Result Error State) → Action (Unit {0})
  execute f w = changed w (f w.db)

  abbrev pub answered : {A : Type 0} → World → Result Error A → Result Stop A × World
  answered w (ok a) = (ok a, w)
  answered w (stop e) = (stop (sql e), w)

  abbrev pub query : {A : Type 0} → (State → Result Error A) → Action A
  query f w = answered w (f w.db)

  abbrev pub print : Line → Action (Unit {0})
  print l w = (ok tt, record w { printed = w.printed ++ l ∷ [] })

  abbrev pub exit_if : ℕ → Text → Action (Unit {0})
  exit_if zero t w = (ok tt, w)
  exit_if (suc n) t w = (stop (orphaned t), w)

  -- `os.makedirs(OUT, exist_ok=True)`
  abbrev pub made : World → Result OsError (Unit {0}) × Disk → Result Stop (Unit {0}) × World
  made w (ok u, disk) = (ok tt, record w { disk = disk })
  made w (stop e, disk) = (stop (failed e), record w { disk = disk })

  abbrev pub makedirs : Text → Action (Unit {0})
  makedirs out w = made w (os.makedirs out w.disk)

  -- `con.execute(f"COPY {t} TO '…' …")`
  abbrev pub copied : World → Result Error (Unit {0}) × Disk → Result Stop (Unit {0}) × World
  copied w (ok u, disk) = (ok tt, record w { disk = disk })
  copied w (stop e, disk) = (stop (sql e), record w { disk = disk })

  abbrev pub copy_to : Text → Text → Action (Unit {0})
  copy_to t path w = copied w (copy t path w.db w.disk)

  -- `os.path.getsize(…)`
  abbrev pub sized : World → Result OsError ℕ → Result Stop ℕ × World
  sized w (ok n) = (ok n, w)
  sized w (stop e) = (stop (failed e), w)

  abbrev pub getsize : Text → Action ℕ
  getsize path w = sized w (os.getsize path w.disk)

  -- `con.execute("CREATE TABLE …")` and `con.executemany("INSERT INTO …", rows)`
  unfoldable pub load_table : Table → Action (Unit {0})
  load_table t = do execute (create_table t.schema); execute (executemany (table_name t) t.rows)

  unfoldable pub load : List Table → Action (Unit {0})
  load [] = done
  load (t ∷ ts) = do load_table t; load ts

  -- `orphans`: the run table has none.
  abbrev pub orphans_of : Text → Action ℕ
  orphans_of t w = if text_eq t (codes "run") then (ok 0, w) else query (count_orphans t) w

  -- One round of the first loop of the verification.
  unfoldable pub verify_table : Text → Action (Unit {0})
  verify_table t = do
    n ← query (count_rows t)
    orphans ← orphans_of t
    print (counted t n orphans)
    exit_if orphans t

  unfoldable pub verify : List Text → Action (Unit {0})
  verify [] = done
  verify (t ∷ ts) = do verify_table t; verify ts

  unfoldable pub write_table : Text → Text → Action (Unit {0})
  write_table out t = do
    copy_to t (parquet_path out t)
    n ← getsize (parquet_path out t)
    print (wrote (parquet_path out t) n)

  unfoldable pub write : Text → List Text → Action (Unit {0})
  write out [] = done
  write out (t ∷ ts) = do write_table out t; write out ts

  -- The script on its tables.
  unfoldable pub build : List Text → List Table → Action (Unit {0})
  build argv tables = do
    let out = out_folder argv
    load tables
    verify (map table_name tables)
    makedirs out
    write out (map table_name tables)

  -- Before the script runs.
  abbrev pub start : Disk → World
  start disk = record { db = d.connect; disk = disk; printed = [] }
