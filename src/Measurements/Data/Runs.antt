-- ===== src/Measurements/Data/Runs.antt =====
-- The machines and the software in data/measurements/build.py.
use multiplayer_fabric_manua.Common.{String, List, [], ◌∷◌}
use multiplayer_fabric_manua.Common.Text.{codes}
use multiplayer_fabric_manua.Measurements.Schema.{
  Value, null, text, int, Row, Schema, Table, varchar, integer, bigint,
}

-- A text value.
abbrev t : String → Value
t s = text (codes s)

unfoldable pub run_schema : Schema
run_schema = record {
  name = codes "run";
  columns =
      (codes "run_id", varchar)
      ∷ (codes "host_class", varchar)
      ∷ (codes "region", varchar)
      ∷ (codes "machine_type", varchar)
      ∷ (codes "vcpus", integer)
      ∷ (codes "memory_kb", bigint)
      ∷ (codes "kernel", varchar)
      ∷ (codes "note", varchar)
      ∷ [];
  key = codes "run_id" ∷ [];
}

unfoldable pub run_rows : List Row
run_rows =
    (t "fly-shared-1x-256"
      ∷ t "fly"
      ∷ t "iad"
      ∷ t "shared-cpu-1x"
      ∷ int 1
      ∷ int 212188
      ∷ t "6.12.91-fly"
      ∷ t "rfd/0096 transport probe, 256 MB"
      ∷ [])
    ∷ (t "fly-shared-1x-1g"
        ∷ t "fly"
        ∷ t "iad"
        ∷ t "shared-cpu-1x"
        ∷ int 1
        ∷ int 1048576
        ∷ t "6.12.91-fly"
        ∷ t "tpcc scaling probe, 1 GB"
        ∷ [])
    ∷ (t "fly-6pn-pair"
        ∷ t "fly"
        ∷ t "iad"
        ∷ t "shared-cpu-1x"
        ∷ int 1
        ∷ int 212188
        ∷ t "6.12.91-fly"
        ∷ t "rfd/0096 two machines over 6PN"
        ∷ [])
    ∷ (t "local-16core"
        ∷ t "local"
        ∷ null
        ∷ t "workstation"
        ∷ int 16
        ∷ int 65793648
        ∷ t "6.18.33.1-microsoft-standard-WSL2"
        ∷ t "container on WSL2"
        ∷ [])
    ∷ (t "ci-container"
        ∷ t "local"
        ∷ null
        ∷ t "container"
        ∷ int 16
        ∷ int 65793648
        ∷ t "6.18.33.1-microsoft-standard-WSL2"
        ∷ t "zsh2o-ci image, FoundationDB colocated"
        ∷ [])
    ∷ []

unfoldable pub run_table : Table
unfolding run_schema run_rows
run_table = record { schema = run_schema; rows = run_rows }

unfoldable pub run_software_schema : Schema
run_software_schema = record {
  name = codes "run_software";
  columns =
      (codes "run_id", varchar) ∷ (codes "component", varchar) ∷ (codes "version", varchar) ∷ [];
  key = codes "run_id" ∷ codes "component" ∷ [];
}

unfoldable pub run_software_rows : List Row
run_software_rows =
    (t "ci-container" ∷ t "foundationdb" ∷ t "7.3.43" ∷ [])
    ∷ (t "ci-container" ∷ t "postgresql" ∷ t "16" ∷ [])
    ∷ (t "ci-container" ∷ t "duckdb" ∷ t "1.x" ∷ [])
    ∷ (t "ci-container" ∷ t "fdb-relational-server" ∷ t "4.12.18.0" ∷ [])
    ∷ (t "ci-container" ∷ t "openjdk" ∷ t "21.0.11" ∷ [])
    ∷ (t "ci-container" ∷ t "zstd" ∷ t "libzstd" ∷ [])
    ∷ (t "local-16core" ∷ t "foundationdb" ∷ t "7.3.43" ∷ [])
    ∷ (t "local-16core" ∷ t "ecto_foundationdb" ∷ t "0.7.6" ∷ [])
    ∷ (t "local-16core" ∷ t "erlfdb" ∷ t "1.2.1" ∷ [])
    ∷ (t "local-16core" ∷ t "elixir" ∷ t "1.17.3" ∷ [])
    ∷ (t "fly-shared-1x-1g" ∷ t "foundationdb" ∷ t "7.3.43" ∷ [])
    ∷ (t "fly-shared-1x-1g" ∷ t "ecto_foundationdb" ∷ t "0.7.6" ∷ [])
    ∷ (t "fly-shared-1x-1g" ∷ t "erlfdb" ∷ t "1.2.1" ∷ [])
    ∷ (t "fly-shared-1x-1g" ∷ t "elixir" ∷ t "1.17.3" ∷ [])
    ∷ []

unfoldable pub run_software_table : Table
unfolding run_software_schema run_software_rows
run_software_table = record { schema = run_software_schema; rows = run_software_rows }
