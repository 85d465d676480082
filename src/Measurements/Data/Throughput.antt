-- ===== src/Measurements/Data/Throughput.antt =====
-- The throughputs and the sizes in data/measurements/build.py.
use multiplayer_fabric_manua.Common.{String, List, [], ◌∷◌}
use multiplayer_fabric_manua.Common.Text.{codes}
use multiplayer_fabric_manua.Measurements.Schema.{
  Value, text, int, real, Row, Schema, Table, varchar, integer, bigint, double,
}

-- A text value.
abbrev t : String → Value
t s = text (codes s)

unfoldable pub throughput_schema : Schema
throughput_schema = record {
  name = codes "throughput";
  columns =
      (codes "run_id", varchar)
      ∷ (codes "concurrency", integer)
      ∷ (codes "ops", bigint)
      ∷ (codes "aborts", bigint)
      ∷ (codes "seconds", double)
      ∷ [];
  key = codes "run_id" ∷ codes "concurrency" ∷ [];
}

unfoldable pub throughput_rows : List Row
throughput_rows =
    (t "fly-shared-1x-1g" ∷ int 1 ∷ int 4014 ∷ int 0 ∷ real 1000 2 ∷ [])
    ∷ (t "fly-shared-1x-1g" ∷ int 2 ∷ int 8840 ∷ int 0 ∷ real 1000 2 ∷ [])
    ∷ (t "fly-shared-1x-1g" ∷ int 4 ∷ int 14487 ∷ int 0 ∷ real 1000 2 ∷ [])
    ∷ (t "fly-shared-1x-1g" ∷ int 8 ∷ int 16081 ∷ int 0 ∷ real 1001 2 ∷ [])
    ∷ (t "fly-shared-1x-1g" ∷ int 16 ∷ int 17633 ∷ int 0 ∷ real 1001 2 ∷ [])
    ∷ (t "fly-shared-1x-1g" ∷ int 32 ∷ int 21677 ∷ int 0 ∷ real 1004 2 ∷ [])
    ∷ (t "local-16core" ∷ int 1 ∷ int 2774 ∷ int 0 ∷ real 1000 2 ∷ [])
    ∷ (t "local-16core" ∷ int 2 ∷ int 6325 ∷ int 0 ∷ real 1000 2 ∷ [])
    ∷ (t "local-16core" ∷ int 4 ∷ int 12433 ∷ int 0 ∷ real 1000 2 ∷ [])
    ∷ (t "local-16core" ∷ int 8 ∷ int 21597 ∷ int 0 ∷ real 1000 2 ∷ [])
    ∷ (t "local-16core" ∷ int 16 ∷ int 44690 ∷ int 0 ∷ real 1003 2 ∷ [])
    ∷ (t "local-16core" ∷ int 32 ∷ int 61108 ∷ int 0 ∷ real 1004 2 ∷ [])
    ∷ []

unfoldable pub throughput_table : Table
unfolding throughput_schema throughput_rows
throughput_table = record { schema = throughput_schema; rows = throughput_rows }

unfoldable pub size_schema : Schema
size_schema = record {
  name = codes "size";
  columns =
      (codes "run_id", varchar)
      ∷ (codes "subject", varchar)
      ∷ (codes "metric", varchar)
      ∷ (codes "bytes", bigint)
      ∷ [];
  key = codes "run_id" ∷ codes "subject" ∷ codes "metric" ∷ [];
}

unfoldable pub size_rows : List Row
size_rows =
    (t "ci-container" ∷ t "libriscv_script_guest" ∷ t "elf_bytes" ∷ int 4016 ∷ [])
    ∷ (t "ci-container" ∷ t "libriscv_script_guest" ∷ t "snapshot_bytes" ∷ int 41864 ∷ [])
    ∷ (t "ci-container" ∷ t "libriscv_engine_guest" ∷ t "elf_bytes" ∷ int 84982776 ∷ [])
    ∷ (t "ci-container" ∷ t "libriscv_engine_guest" ∷ t "snapshot_bytes" ∷ int 67148424 ∷ [])
    ∷ (t "ci-container" ∷ t "zstd_raw" ∷ t "frame_bytes" ∷ int 44800 ∷ [])
    ∷ (t "ci-container" ∷ t "zstd_l1_nodict" ∷ t "frame_bytes" ∷ int 3727 ∷ [])
    ∷ (t "ci-container" ∷ t "zstd_l3_nodict" ∷ t "frame_bytes" ∷ int 3239 ∷ [])
    ∷ (t "ci-container" ∷ t "zstd_l1_prefix_prev" ∷ t "frame_bytes" ∷ int 2980 ∷ [])
    ∷ (t "ci-container" ∷ t "zstd_l3_prefix_prev" ∷ t "frame_bytes" ∷ int 2774 ∷ [])
    ∷ (t "ci-container" ∷ t "zstd_l1_prefix_ack2" ∷ t "frame_bytes" ∷ int 3014 ∷ [])
    ∷ (t "ci-container" ∷ t "zstd_l1_prefix_ack4" ∷ t "frame_bytes" ∷ int 3015 ∷ [])
    ∷ (t "ci-container" ∷ t "zstd_l1_prefix_ack8" ∷ t "frame_bytes" ∷ int 3006 ∷ [])
    ∷ (t "ci-container" ∷ t "duckdb" ∷ t "parquet_200k_bytes" ∷ int 320000 ∷ [])
    ∷ (t "ci-container" ∷ t "duckdb" ∷ t "peak_rss_bytes" ∷ int 108984730 ∷ [])
    ∷ (t "ci-container" ∷ t "fdb_relational_server" ∷ t "rss_bytes" ∷ int 164626432 ∷ [])
    ∷ (t "ci-container" ∷ t "postgresql16" ∷ t "table_200k_bytes" ∷ int 16777216 ∷ [])
    ∷ []

unfoldable pub size_table : Table
unfolding size_schema size_rows
size_table = record { schema = size_schema; rows = size_rows }
