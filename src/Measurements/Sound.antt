-- ===== src/Measurements/Sound.antt =====
-- The tables of data/measurements/build.py themselves.
use mathlib.Core.List.{Memᴰ}
use multiplayer_fabric_manua.Common.{true, List, [], ◌∷◌, ◌≡◌, refl}
use multiplayer_fabric_manua.Common.Lists.{All, All-mem}
use multiplayer_fabric_manua.Common.Text.{distinct, Distinct-distinct, Text, text_eq}
use multiplayer_fabric_manua.Measurements.Schema.{
  value_eq, values_eq, fits, fits_row, field, key_of, run_id, is_typed, has_null, has_keys,
  is_orphan, orphan_count, sql_in, sql_eq, Table,
}
use multiplayer_fabric_manua.Measurements.Duckdb.{System, Duckdb, IsDuckdb, ok, is_unquoted}
use multiplayer_fabric_manua.Measurements.Build.{World, build, start, out_folder}
use multiplayer_fabric_manua.Measurements.Build.Loading.{IsDeclared, IsAccepted, names}
use multiplayer_fabric_manua.Measurements.Build.Verifying.{orphans}
use multiplayer_fabric_manua.Measurements.Build.References.{HasRuns, Refers, orphans_iff}
use multiplayer_fabric_manua.Measurements.Build.Writing.{Exported}
use multiplayer_fabric_manua.Measurements.Build.Outcomes.{IsLoadable, All-HasRuns, build-Exports}
use multiplayer_fabric_manua.Measurements.Data.Runs.{
  run_table, run_schema, run_rows, run_software_table, run_software_schema, run_software_rows,
}
use multiplayer_fabric_manua.Measurements.Data.Latency.{latency_table, latency_schema, latency_rows}
use multiplayer_fabric_manua.Measurements.Data.Throughput.{
  throughput_table, throughput_schema, throughput_rows, size_table, size_schema, size_rows,
}
use multiplayer_fabric_manua.Measurements.Data.Capability.{
  capability_table, capability_schema, capability_rows,
}
use multiplayer_fabric_manua.Measurements.Data.{measurements, schemas}

run-IsAccepted : IsAccepted run_table
unfolding run_table run_schema run_rows is_typed fits fits_row has_keys key_of field has_null
    value_eq values_eq text_eq
run-IsAccepted = ((λ e. cc), refl, refl)

run_software-IsAccepted : IsAccepted run_software_table
unfolding run_software_table run_software_schema run_software_rows is_typed fits fits_row has_keys
    key_of field has_null value_eq values_eq text_eq
run_software-IsAccepted = ((λ e. cc), refl, refl)

latency-IsAccepted : IsAccepted latency_table
unfolding latency_table latency_schema latency_rows is_typed fits fits_row has_keys key_of field
    has_null value_eq values_eq text_eq
latency-IsAccepted = ((λ e. cc), refl, refl)

throughput-IsAccepted : IsAccepted throughput_table
unfolding throughput_table throughput_schema throughput_rows is_typed fits fits_row has_keys key_of
    field has_null value_eq values_eq text_eq
throughput-IsAccepted = ((λ e. cc), refl, refl)

size-IsAccepted : IsAccepted size_table
unfolding size_table size_schema size_rows is_typed fits fits_row has_keys key_of field has_null
    value_eq values_eq text_eq
size-IsAccepted = ((λ e. cc), refl, refl)

capability-IsAccepted : IsAccepted capability_table
unfolding capability_table capability_schema capability_rows is_typed fits fits_row has_keys key_of
    field has_null value_eq values_eq text_eq
capability-IsAccepted = ((λ e. cc), refl, refl)

no_orphans : All (λ t. orphans run_table t ≡ 0) measurements
unfolding measurements run_table run_schema run_rows run_software_table run_software_schema
    run_software_rows latency_table latency_schema latency_rows throughput_table throughput_schema
    throughput_rows size_table size_schema size_rows capability_table capability_schema
    capability_rows orphan_count is_orphan sql_in sql_eq run_id field value_eq text_eq
no_orphans = (refl, (refl, (refl, (refl, (refl, (refl, tt))))))

measurements-IsDeclared : All IsDeclared measurements
unfolding measurements schemas run_table run_software_table latency_table throughput_table
    size_table capability_table
measurements-IsDeclared = (
  Memᴰ.head refl,
  (
    Memᴰ.tail (Memᴰ.head refl),
    (
      Memᴰ.tail (Memᴰ.tail (Memᴰ.head refl)),
      (
        Memᴰ.tail (Memᴰ.tail (Memᴰ.tail (Memᴰ.head refl))),
        (
          Memᴰ.tail (Memᴰ.tail (Memᴰ.tail (Memᴰ.tail (Memᴰ.head refl)))),
          (Memᴰ.tail (Memᴰ.tail (Memᴰ.tail (Memᴰ.tail (Memᴰ.tail (Memᴰ.head refl))))), tt),
        ),
      ),
    ),
  ),
)

measurements-IsAccepted : All IsAccepted measurements
unfolding measurements
measurements-IsAccepted = (
  run-IsAccepted,
  (
    run_software-IsAccepted,
    (latency-IsAccepted, (throughput-IsAccepted, (size-IsAccepted, (capability-IsAccepted, tt)))),
  ),
)

measurements-IsLoadable : IsLoadable run_table measurements
unfolding measurements run_table run_schema run_software_table run_software_schema latency_table
    latency_schema throughput_table throughput_schema size_table size_schema capability_table
    capability_schema distinct text_eq
measurements-IsLoadable = (
  refl,
  Memᴰ.head refl,
  Distinct-distinct (names measurements) refl,
  measurements-IsDeclared,
  measurements-IsAccepted,
)

All-Refers :
    (runs : Table) (ts : List Table)
    → HasRuns runs
    → All HasRuns ts
    → All (λ t. orphans runs t ≡ 0) ts
    → All (Refers runs) ts
All-Refers runs [] h ns es = tt
All-Refers runs (t ∷ ts) h (n, ns) (e, es) =
    ((orphans_iff runs t h n).0 e, All-Refers runs ts h ns es)

-- On the tables that the script has, it comes to its end and the file of each table holds its rows,
-- when the folder can be made and is ready for the files, and its name has no apostrophe; for a
-- database and a system that keep the laws of `IsDuckdb`.
pub build-measurements :
    {os : System} (d : Duckdb os) (l : IsDuckdb os d) (argv : List Text) (disk disk' : os.Disk)
    → is_unquoted (out_folder argv) ≡ true
    → os.makedirs (out_folder argv) disk ≡ (ok tt, disk')
    → l.IsReady disk' (out_folder argv)
    → (w : World d) × (build d argv measurements (start d disk) ≡ (ok tt, w))
      × All (Exported d l (out_folder argv) w.disk) measurements
build-measurements d l argv disk disk' plain folder ready =
    let has_runs = All-HasRuns measurements measurements-IsDeclared measurements-IsAccepted in
    build-Exports d l argv disk run_table measurements disk' measurements-IsLoadable
      (All-Refers run_table measurements (All-mem HasRuns has_runs measurements-IsLoadable.1)
        has_runs no_orphans)
      plain folder ready
