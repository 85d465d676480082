-- ===== src/Measurements/Tests/Outcomes.antt =====
-- The outcomes of data/measurements/build.py on the database in memory.
use mathlib.Core.List.{Memᴰ}
use multiplayer_fabric_manua.Common.{String, List, [], ◌∷◌, none, ◌≡◌, refl, inl, map}
use multiplayer_fabric_manua.Common.Lists.{All, Distinct}
use multiplayer_fabric_manua.Common.Text.{Text, codes, text_eq}
use multiplayer_fabric_manua.Measurements.Schema.{
  null, text, Row, Table, table_name, fits, fits_row, field, key_of, run_id, value_eq, values_eq,
  has_null, is_typed, keys_hold, has_keys,
}
use multiplayer_fabric_manua.Measurements.Data.{measurements, schemas}
use multiplayer_fabric_manua.Measurements.Data.Runs.{run_schema}
use multiplayer_fabric_manua.Measurements.Data.Capability.{capability_schema}
use multiplayer_fabric_manua.Measurements.Duckdb.{ok, stop}
use multiplayer_fabric_manua.Measurements.Build.{
  World, sql, failed, orphaned, build, start, out_folder,
}
use multiplayer_fabric_manua.Measurements.Build.Loading.{IsDeclared, IsAccepted, names}
use multiplayer_fabric_manua.Measurements.Build.Verifying.{line_of}
use multiplayer_fabric_manua.Measurements.Build.References.{Refers}
use multiplayer_fabric_manua.Measurements.Build.Writing.{Exported}
use multiplayer_fabric_manua.Measurements.Build.Outcomes.{
  IsLoadable, build-Exports, build-no_folder, build-orphaned, build-BreaksKey,
}
use multiplayer_fabric_manua.Measurements.Sound.{build-measurements}
use multiplayer_fabric_manua.Measurements.Tests.{Disk, memory, memory_laws}

abbrev no_files : Disk
no_files path = none

-- A run, and the probes of a run.
abbrev runs : Table
runs = record {
  schema = run_schema;
  rows = (text (codes "local") ∷ null ∷ null ∷ null ∷ null ∷ null ∷ null ∷ null ∷ []) ∷ [];
}

abbrev probe : String → Row
probe run = text (codes run) ∷ text (codes "io_uring_setup") ∷ text (codes "pass") ∷ null ∷ []

abbrev probes : List Row → Table
probes rows = record { schema = capability_schema; rows = rows }

abbrev argv : List Text
argv = codes "build.py" ∷ codes "out" ∷ []

-- The tables of a run and of one probe, of that run or of another.
abbrev tables : String → List Table
tables run = runs ∷ probes (probe run ∷ []) ∷ []

runs-IsDeclared : IsDeclared runs
unfolding schemas
runs-IsDeclared = Memᴰ.head refl

probes-IsDeclared : (rows : List Row) → IsDeclared (probes rows)
unfolding schemas
probes-IsDeclared rows = Memᴰ.tail (Memᴰ.tail (Memᴰ.tail (Memᴰ.tail (Memᴰ.tail (Memᴰ.head refl)))))

runs-IsAccepted : IsAccepted runs
unfolding run_schema is_typed fits_row fits keys_hold has_keys has_null key_of field value_eq
    values_eq text_eq
runs-IsAccepted = ((λ e. cc), refl, refl)

Distinct-names : (run : String) → Distinct (names (tables run))
unfolding run_schema capability_schema
Distinct-names run = ((λ m. no m), ((λ m. elim m [ ]), tt))
  where
    no : ¬ Memᴰ (codes "run") (codes "capability" ∷ [])
    no (Memᴰ.head q) = cc
    no (Memᴰ.tail m) = elim m [ ]

is_run : table_name runs ≡ codes "run"
unfolding run_schema
is_run = refl

loadable : IsLoadable runs (tables "local")
unfolding capability_schema is_typed fits_row fits keys_hold has_keys has_null key_of field value_eq
    values_eq text_eq
loadable = (
  is_run,
  Memᴰ.head refl,
  Distinct-names "local",
  (runs-IsDeclared, (probes-IsDeclared (probe "local" ∷ []), tt)),
  (runs-IsAccepted, (((λ e. cc), refl, refl), tt)),
)

lost : IsLoadable runs (tables "nowhere")
unfolding capability_schema is_typed fits_row fits keys_hold has_keys has_null key_of field value_eq
    values_eq text_eq
lost = (
  is_run,
  Memᴰ.head refl,
  Distinct-names "nowhere",
  (runs-IsDeclared, (probes-IsDeclared (probe "nowhere" ∷ []), tt)),
  (runs-IsAccepted, (((λ e. cc), refl, refl), tt)),
)

runs-Refers : Refers runs runs
runs-Refers ne = absurd (ne is_run)

local-Refers : Refers runs (probes (probe "local" ∷ []))
unfolding run_schema capability_schema run_id field text_eq
local-Refers ne v (Memᴰ.head q) = Memᴰ.head q
local-Refers ne v (Memᴰ.tail m) = elim m [ ]

nowhere-lost : ¬ Refers runs (probes (probe "nowhere" ∷ []))
unfolding run_schema capability_schema run_id field text_eq
nowhere-lost h = no (h (λ e. cc) (text (codes "nowhere")) (Memᴰ.head refl))
  where
    no : ¬ Memᴰ (text (codes "nowhere")) (text (codes "local") ∷ [])
    no (Memᴰ.head q) = cc
    no (Memᴰ.tail m) = elim m [ ]

build-Exports_example :
    (w : World memory) × (build memory argv (tables "local") (start memory no_files) ≡ (ok tt, w))
    × All (Exported memory memory_laws (out_folder argv) w.disk) (tables "local")
build-Exports_example =
    build-Exports memory memory_laws argv no_files runs (tables "local") no_files loadable
      (runs-Refers, (local-Refers, tt)) (unfold out_folder in refl) (unfold out_folder in refl) tt

build-no_folder_example :
    (w : World memory) × (build memory
        (codes "build.py" ∷ [] ∷ [])
        (tables "local")
        (start memory no_files)
      ≡ (stop (failed tt), w))
    × (w.disk ≡ no_files)
    × (w.printed ≡ map (line_of runs) (tables "local"))
build-no_folder_example =
    build-no_folder memory memory_laws (codes "build.py" ∷ [] ∷ []) no_files runs (tables "local")
      no_files tt loadable (runs-Refers, (local-Refers, tt)) (unfold out_folder in refl)

build-orphaned_example :
    (w : World memory) × (build memory argv (tables "nowhere") (start memory no_files)
      ≡ (stop (orphaned (codes "capability")), w))
    × (w.disk ≡ no_files)
unfolding capability_schema
build-orphaned_example =
    build-orphaned memory memory_laws argv no_files runs (runs ∷ []) (probes (probe "nowhere" ∷ []))
      [] lost (runs-Refers, tt) nowhere-lost

build-BreaksKey_example :
    (e : Unit {0}) × (w : World memory) × (build memory argv
        (probes (probe "local" ∷ probe "local" ∷ []) ∷ [])
        (start memory no_files)
      ≡ (stop (sql e), w))
    × (w.disk ≡ no_files)
    × (w.printed ≡ [])
unfolding capability_schema is_typed fits_row fits keys_hold has_keys has_null key_of field value_eq
    values_eq text_eq
build-BreaksKey_example =
    build-BreaksKey memory memory_laws argv no_files
      (probes (probe "local" ∷ probe "local" ∷ []) ∷ []) ((λ m. elim m [ ]), tt)
      (probes-IsDeclared (probe "local" ∷ probe "local" ∷ []), tt) (inl (refl, refl))

build-measurements_example :
    (w : World memory) × (build memory argv measurements (start memory no_files) ≡ (ok tt, w))
    × All (Exported memory memory_laws (out_folder argv) w.disk) measurements
build-measurements_example =
    build-measurements memory memory_laws argv no_files no_files (unfold out_folder in refl)
      (unfold out_folder in refl) tt
