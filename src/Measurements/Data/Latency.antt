-- ===== src/Measurements/Data/Latency.antt =====
-- The latencies in data/measurements/build.py.
use multiplayer_fabric_manua.Common.{ℕ, String, List, [], ◌∷◌}
use multiplayer_fabric_manua.Common.Text.{codes}
use multiplayer_fabric_manua.Measurements.Schema.{
  Value, null, text, int, Row, Schema, Table, varchar, integer, bigint,
}

-- A row: the run, the subject and the operation, the median, p99 and minimum, and the samples.
abbrev measured : String → String → String → Value → Value → Value → ℕ → Row
measured run subject operation median p99 least samples =
    text (codes run)
    ∷ text (codes subject)
    ∷ text (codes operation)
    ∷ median
    ∷ p99
    ∷ least
    ∷ int samples
    ∷ []

unfoldable pub latency_schema : Schema
latency_schema = record {
  name = codes "latency";
  columns =
      (codes "run_id", varchar)
      ∷ (codes "subject", varchar)
      ∷ (codes "operation", varchar)
      ∷ (codes "median_ns", bigint)
      ∷ (codes "p99_ns", bigint)
      ∷ (codes "min_ns", bigint)
      ∷ (codes "samples", integer)
      ∷ [];
  key = codes "run_id" ∷ codes "subject" ∷ codes "operation" ∷ [];
}

unfoldable pub latency_rows : List Row
latency_rows =
    measured "fly-shared-1x-256" "af_unix" "seqpacket_rtt" (int 8910) (int 48000) (int 8750) 20000
    ∷ measured "fly-shared-1x-256" "af_unix" "stream_rtt" (int 9520) (int 28860) (int 9210) 20000
    ∷ measured "local-16core" "af_unix" "seqpacket_rtt" (int 59821) null null 20000
    ∷ measured "local-16core" "af_unix" "stream_rtt" (int 50181) null null 20000
    ∷ measured "local-16core" "shm_ring" "busypoll_rtt" (int 110) (int 110) (int 90) 20000
    ∷ measured "fly-6pn-pair" "6pn" "udp_rtt_peer_a" (int 879700) (int 2332600) null 498
    ∷ measured "fly-6pn-pair" "6pn" "udp_rtt_peer_b" (int 833800) (int 1873400) null 500
    ∷ measured "fly-6pn-pair" "6pn" "udp_rtt_loopback" (int 19300) null null 500
    ∷ measured "fly-6pn-pair" "6pn" "udp_rtt_loopback_b" (int 21400) null null 500
    ∷ measured "ci-container" "fdb_memory_engine" "commit" (int 2975300) (int 3872000) null 300
    ∷ measured "ci-container" "fdb_ssd_engine" "commit" (int 2396600) (int 3071000) null 300
    ∷ measured "ci-container" "fdb_memory_engine" "watch_fire" (int 12115100) (int 13873700) null
        100
    ∷ measured "ci-container" "fdb_ssd_engine" "watch_fire" (int 12053100) (int 13439500) null 100
    ∷ measured "ci-container" "fdb_memory_engine" "versionstamp_append" (int 2521900) (int 3635100)
        null 300
    ∷ measured "ci-container" "fdb_ssd_engine" "versionstamp_append" (int 2952700) (int 3876800)
        null 300
    ∷ measured "ci-container" "libriscv_script_guest" "serialize_to" (int 800) (int 1200) null 200
    ∷ measured "ci-container" "libriscv_script_guest" "deserialize_from" (int 1900) (int 7300) null
        200
    ∷ measured "ci-container" "libriscv_script_guest" "fork_construct" (int 300) (int 500) null 200
    ∷ measured "ci-container" "libriscv_engine_guest" "serialize_to" (int 12370200) (int 17063000)
        null 200
    ∷ measured "ci-container" "libriscv_engine_guest" "deserialize_from" (int 15227000)
        (int 20206500) null 200
    ∷ measured "ci-container" "libriscv_engine_guest" "fork_construct" (int 384200) (int 976900)
        null 200
    ∷ measured "ci-container" "zstd_l1_nodict" "compress_frame" (int 42400) null null 400
    ∷ measured "ci-container" "zstd_l3_nodict" "compress_frame" (int 44800) null null 400
    ∷ measured "ci-container" "zstd_l1_prefix_prev" "compress_frame" (int 63300) null null 399
    ∷ measured "ci-container" "zstd_l3_prefix_prev" "compress_frame" (int 66500) null null 399
    ∷ measured "ci-container" "zstd_l1_prefix_ack2" "compress_frame" (int 68000) null null 398
    ∷ measured "ci-container" "zstd_l1_prefix_ack4" "compress_frame" (int 68200) null null 396
    ∷ measured "ci-container" "zstd_l1_prefix_ack8" "compress_frame" (int 63900) null null 392
    ∷ measured "ci-container" "zstd_prefix" "decompress_frame" (int 17300) null null 400
    ∷ measured "ci-container" "postgresql16" "point_select" (int 84000) null null 1
    ∷ measured "ci-container" "duckdb" "point_select" (int 919100) null null 1000
    ∷ measured "ci-container" "duckdb" "point_update" (int 1190400) null null 1000
    ∷ measured "ci-container" "duckdb" "scan_200k" (int 3500000) null null 1
    ∷ measured "ci-container" "duckdb" "read_parquet" (int 1000000) null null 1
    ∷ measured "ci-container" "fdb_c_client" "point_get_newtxn" (int 405000) (int 532000) null 2000
    ∷ measured "ci-container" "fdb_c_client" "point_get_sharedtxn" (int 157000) (int 269000) null
        2000
    ∷ measured "ci-container" "frl_4_3_6_0" "point_select_20k" (int 45259000) (int 66866000) null
        1000
    ∷ measured "ci-container" "frl_4_3_6_0" "point_select_2k" (int 12779000) (int 31740000) null 300
    ∷ measured "ci-container" "frl_4_12_18_0" "point_select_2k" (int 8632000) (int 13272000) null
        300
    ∷ measured "ci-container" "frl_4_3_6_0" "insert_row" (int 14080000) null null 2000
    ∷ measured "ci-container" "frl_4_12_18_0" "insert_row" (int 15920000) null null 2000
    ∷ measured "local-16core" "ecto_foundationdb" "indexed_query" (int 558000) (int 800000) null 300
    ∷ measured "local-16core" "ecto_foundationdb" "read_modify_write" (int 3548000) (int 5022000)
        null 300
    ∷ []

unfoldable pub latency_table : Table
unfolding latency_schema latency_rows
latency_table = record { schema = latency_schema; rows = latency_rows }
