-- ===== src/Measurements/Build/Outcomes.antt =====
-- How data/measurements/build.py ends.
use mathlib.Core.List.{Memᴰ}
use multiplayer_fabric_manua.Common.{true, List, [], ◌∷◌, ◌++◌, none, ◌≡◌, refl, ap, ◌∙◌, map}
use multiplayer_fabric_manua.Common.Lists.{All, All-mem, Distinct}
use multiplayer_fabric_manua.Common.Text.{Text, codes}
use multiplayer_fabric_manua.Measurements.Schema.{Table, table_name}
use multiplayer_fabric_manua.Measurements.Duckdb.{System, Duckdb, IsDuckdb, ok, stop, is_unquoted}
use multiplayer_fabric_manua.Measurements.Build.{
  World, ◌>>◌, sql, failed, orphaned, made, makedirs, load, verify, write, out_folder, build, start,
}
use multiplayer_fabric_manua.Measurements.Build.Steps.{then_ok, then_stop}
use multiplayer_fabric_manua.Measurements.Build.Loading.{
  BreaksKey, load-BreaksKey, Holds, IsDeclared, IsAccepted, names, load-Holds,
}
use multiplayer_fabric_manua.Measurements.Build.Verifying.{line_of, verify-Holds, verify-orphaned}
use multiplayer_fabric_manua.Measurements.Build.References.{
  HasRuns, Refers, first_orphaned-Refers, first_orphaned-append,
}
use multiplayer_fabric_manua.Measurements.Build.Runs.{accepted-HasRuns}
use multiplayer_fabric_manua.Measurements.Build.Writing.{Exported, write-Holds}

-- The tables can be loaded: one of them has the runs, no two have one name, each is declared as in
-- the script, and the database accepts the rows of each.
abbrev pub IsLoadable : Table → List Table → Type 0
IsLoadable runs ts =
    (table_name runs ≡ codes "run")
    × Memᴰ runs ts
    × Distinct (names ts)
    × All IsDeclared ts
    × All IsAccepted ts

pub All-HasRuns : (ts : List Table) → All IsDeclared ts → All IsAccepted ts → All HasRuns ts
All-HasRuns [] ms acc = tt
All-HasRuns (t ∷ ts) (m, ms) (a, rest) = (accepted-HasRuns t m a, All-HasRuns ts ms rest)

module _ {os : System} (d : Duckdb os) (l : IsDuckdb os d) where
  no_tables : (ts : List Table) → All (λ t. l.table d.connect (table_name t) ≡ none) ts
  no_tables [] = tt
  no_tables (t ∷ ts) = (l.connect_law (table_name t), no_tables ts)

  module _ (argv : List Text) (disk : os.Disk) (runs : Table) (ts : List Table) where
    loaded :
        IsLoadable runs ts
        → (db : d.State) × (load d ts (start d disk) ≡ (ok tt, record (start d disk) { db = db }))
          × All (Holds d l db) ts
          × Holds d l db runs
    loaded (is_run, m, dist, ms, acc) =
        let (db, e, hs, same) = load-Holds d l ts (start d disk) dist ms acc (no_tables ts) in
        (db, e, hs, All-mem (Holds d l db) hs m)

    -- The script up to the folder, when every row refers to a run.
    verified :
        IsLoadable runs ts
        → All (Refers runs) ts
        → (db : d.State) × All (Holds d l db) ts
          × (build d argv ts (start d disk)
              ≡ (◌>>◌ d (makedirs d (out_folder argv)) (write d (out_folder argv) (names ts)))
                  (record { db = db; disk = disk; printed = map (line_of runs) ts }))
    unfolding build
    verified (is_run, m, dist, ms, acc) refers =
        let (db, e, hs, r) = loaded (is_run, m, dist, ms, acc) in
        let w₁ : World d = record (start d disk) { db = db } in
        let w₂ : World d = record w₁ { printed = map (line_of runs) ts } in
        let has_runs = All-HasRuns ts ms acc in
        let none_lost =
          first_orphaned-Refers runs ts (All-mem HasRuns has_runs m) has_runs refers in
        let e₂ = verify-Holds d l runs is_run (All-mem IsDeclared ms m) ts w₁ r ms hs none_lost in
        (
          db,
          hs,
          then_ok d (load d ts) _ (start d disk) w₁ tt e
              ∙ then_ok d (verify d (names ts)) _ w₁ w₂ tt e₂,
        )

    -- When the tables are loadable, every row of the other tables refers to a run, the folder can be
    -- made and is ready for the files, and its name has no apostrophe, the script comes to its end,
    -- and then the file of each table holds its rows; for a database and a system that keep the laws
    -- of `IsDuckdb`.
    pub build-Exports :
        (disk' : os.Disk)
        → IsLoadable runs ts
        → All (Refers runs) ts
        → is_unquoted (out_folder argv) ≡ true
        → os.makedirs (out_folder argv) disk ≡ (ok tt, disk')
        → l.IsReady disk' (out_folder argv)
        → (w : World d) × (build d argv ts (start d disk) ≡ (ok tt, w))
          × All (Exported d l (out_folder argv) w.disk) ts
    build-Exports disk' loadable refers plain folder ready =
        let (is_run, m, dist, ms, acc) = loadable in
        let (db, hs, e) = verified loadable refers in
        let w₂ : World d = record { db = db; disk = disk; printed = map (line_of runs) ts } in
        let w₃ : World d = record w₂ { disk = disk' } in
        let (disk'', lines, x, kept, e₃) =
          write-Holds d l (out_folder argv) plain ts w₃ dist ms ready hs in
        (
          record w₃ { disk = disk''; printed = w₃.printed ++ lines },
          e ∙ (then_ok d (makedirs d (out_folder argv)) _ w₂ w₃ tt (ap (made d w₂) folder) ∙ e₃),
          x,
        )

    -- When the tables are loadable, every row refers to a run and the folder cannot be made, the
    -- script ends with the error of the system, after the line of each table, and the disk is as the
    -- call that failed has left it; for a database that keeps the laws of `IsDuckdb`.
    pub build-no_folder :
        (disk' : os.Disk) (e : os.OsError)
        → IsLoadable runs ts
        → All (Refers runs) ts
        → os.makedirs (out_folder argv) disk ≡ (stop e, disk')
        → (w : World d) × (build d argv ts (start d disk) ≡ (stop (failed e), w))
          × (w.disk ≡ disk')
          × (w.printed ≡ map (line_of runs) ts)
    build-no_folder disk' x loadable refers folder =
        let (db, hs, e) = verified loadable refers in
        let w₂ : World d = record { db = db; disk = disk; printed = map (line_of runs) ts } in
        let w₃ : World d = record w₂ { disk = disk' } in
        (
          w₃,
          e ∙ then_stop d (makedirs d (out_folder argv)) _ w₂ w₃ (failed x) (ap (made d w₂) folder),
          refl,
          refl,
        )

  -- When the tables are loadable and some row refers to no run, the script exits at the first table
  -- that has such a row, and the disk is as it was; for a database that keeps the laws of `IsDuckdb`.
  pub build-orphaned :
      (argv : List Text) (disk : os.Disk) (runs : Table) (before : List Table) (t : Table)
      (later : List Table)
      → IsLoadable runs (before ++ t ∷ later)
      → All (Refers runs) before
      → ¬ Refers runs t
      → (w : World d) × (build d argv (before ++ t ∷ later) (start d disk)
          ≡ (stop (orphaned (table_name t)), w))
        × (w.disk ≡ disk)
  unfolding build
  build-orphaned argv disk runs before t later (is_run, m, dist, ms, acc) refers lost =
      let ts = before ++ t ∷ later in
      let (db, e, hs, r) = loaded argv disk runs ts (is_run, m, dist, ms, acc) in
      let w₁ : World d = record (start d disk) { db = db } in
      let has_runs = All-HasRuns ts ms acc in
      let found =
        first_orphaned-append runs before t later (All-mem HasRuns has_runs m) has_runs refers
          lost in
      let (lines, e₂) =
        verify-orphaned d l runs is_run (All-mem IsDeclared ms m) ts w₁ (table_name t) r ms hs
          found in
      let w₂ : World d = record w₁ { printed = lines } in
      (
        w₂,
        then_ok d (load d ts) _ (start d disk) w₁ tt e
            ∙ then_stop d (verify d (names ts)) _ w₁ w₂ (orphaned (table_name t)) e₂,
        refl,
      )

  -- When the tables are declared as in the script under distinct names, the rows of some table are
  -- typed and break its primary key, and the tables before it are accepted, the script ends with an
  -- error of the database, the disk is as it was, and no line is printed; for a database that keeps
  -- the laws of `IsDuckdb`.
  pub build-BreaksKey :
      (argv : List Text) (disk : os.Disk) (ts : List Table)
      → Distinct (names ts)
      → All IsDeclared ts
      → BreaksKey ts
      → (e : d.Error) × (w : World d) × (build d argv ts (start d disk) ≡ (stop (sql e), w))
        × (w.disk ≡ disk)
        × (w.printed ≡ [])
  unfolding build
  build-BreaksKey argv disk ts dist ms broken =
      let (x, db, e) = load-BreaksKey d l ts (start d disk) dist ms broken (no_tables ts) in
      let w : World d = record (start d disk) { db = db } in
      (x, w, then_stop d (load d ts) _ (start d disk) w (sql x) e, refl, refl)
