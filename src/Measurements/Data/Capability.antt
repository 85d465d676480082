-- ===== src/Measurements/Data/Capability.antt =====
-- The capabilities in data/measurements/build.py.
use multiplayer_fabric_manua.Common.{String, List, [], ◌∷◌}
use multiplayer_fabric_manua.Common.Text.{codes}
use multiplayer_fabric_manua.Measurements.Schema.{Value, null, text, Row, Schema, Table, varchar}

-- A text value.
abbrev t : String → Value
t s = text (codes s)

unfoldable pub capability_schema : Schema
capability_schema = record {
  name = codes "capability";
  columns =
      (codes "run_id", varchar)
      ∷ (codes "probe", varchar)
      ∷ (codes "result", varchar)
      ∷ (codes "detail", varchar)
      ∷ [];
  key = codes "run_id" ∷ codes "probe" ∷ [];
}

unfoldable pub capability_rows : List Row
capability_rows =
    (t "fly-shared-1x-256" ∷ t "bwrap_unshare_all_root" ∷ t "pass" ∷ null ∷ [])
    ∷ (t "fly-shared-1x-256" ∷ t "bwrap_unshare_net" ∷ t "pass" ∷ null ∷ [])
    ∷ (t "fly-shared-1x-256" ∷ t "bwrap_unprivileged_uid1000" ∷ t "pass" ∷ null ∷ [])
    ∷ (t "fly-shared-1x-256" ∷ t "ifaces_inside_unshare_net" ∷ t "pass" ∷ t "1 link" ∷ [])
    ∷ (t "fly-shared-1x-256" ∷ t "ifaces_outside" ∷ t "pass" ∷ t "4 links" ∷ [])
    ∷ (t "fly-shared-1x-256" ∷ t "io_uring_setup" ∷ t "pass" ∷ t "fd 3" ∷ [])
    ∷ (t "fly-shared-1x-256" ∷ t "io_uring_disabled_sysctl" ∷ t "pass" ∷ t "0" ∷ [])
    ∷ (t "fly-shared-1x-256" ∷ t "memfd_create" ∷ t "pass" ∷ null ∷ [])
    ∷ (t "fly-shared-1x-256"
        ∷ t "udp_bind_in6addr_any"
        ∷ t "pass"
        ∷ t "binds, wrong reply source per Fly"
        ∷ [])
    ∷ (t "fly-shared-1x-256" ∷ t "fly_global_services" ∷ t "pass" ∷ t "172.19.15.243 AF_INET" ∷ [])
    ∷ (t "local-16core" ∷ t "bwrap_unshare_all_root" ∷ t "fail" ∷ t "docker blocks userns" ∷ [])
    ∷ (t "local-16core" ∷ t "io_uring_setup" ∷ t "fail" ∷ t "EPERM, docker seccomp" ∷ [])
    ∷ (t "local-16core" ∷ t "shm_ring_busypoll_20k" ∷ t "pass" ∷ null ∷ [])
    ∷ (t "fly-shared-1x-256"
        ∷ t "shm_ring_busypoll_20k"
        ∷ t "timeout"
        ∷ t "no completion in >8 min, both procs R at 24% cpu"
        ∷ [])
    ∷ (t "ci-container"
        ∷ t "fdb_watch_limit"
        ∷ t "limit"
        ∷ t "10000 then error 1032 too_many_watches"
        ∷ [])
    ∷ (t "ci-container"
        ∷ t "libriscv_determinism_script"
        ∷ t "pass"
        ∷ t "two replays byte identical"
        ∷ [])
    ∷ (t "ci-container"
        ∷ t "libriscv_determinism_engine"
        ∷ t "pass"
        ∷ t "two replays byte identical"
        ∷ [])
    ∷ (t "ci-container"
        ∷ t "libriscv_serialize_flat_arena"
        ∷ t "fail"
        ∷ t "FEATURE_DISABLED, needs use_memory_arena=false"
        ∷ [])
    ∷ (t "ci-container"
        ∷ t "frl_setautocommit_4_3_6_0"
        ∷ t "fail"
        ∷ t "Not implemented setAutoCommit"
        ∷ [])
    ∷ (t "ci-container" ∷ t "frl_setautocommit_4_12_18_0" ∷ t "pass" ∷ null ∷ [])
    ∷ (t "ci-container"
        ∷ t "frl_update_planner_4_12_18_0"
        ∷ t "fail"
        ∷ t "SemanticException, operands not compatible"
        ∷ [])
    ∷ (t "local-16core"
        ∷ t "efdb_composite_primary_key"
        ∷ t "fail"
        ∷ t "MatchError on [:d_id, :d_w_id]"
        ∷ [])
    ∷ (t "local-16core"
        ∷ t "efdb_multifield_index_fdb71"
        ∷ t "fail"
        ∷ t "ArgumentError in erlfdb_transaction_get_mapped_range"
        ∷ [])
    ∷ (t "local-16core"
        ∷ t "efdb_multifield_index_fdb73"
        ∷ t "pass"
        ∷ t "1 row, either field order"
        ∷ [])
    ∷ []

unfoldable pub capability_table : Table
unfolding capability_schema capability_rows
capability_table = record { schema = capability_schema; rows = capability_rows }
