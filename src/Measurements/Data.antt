-- ===== src/Measurements/Data.antt =====
-- The six tables of data/measurements/build.py, in the order in which the script makes them.
pub mod Runs
pub mod Latency
pub mod Throughput
pub mod Capability
use multiplayer_fabric_manua.Common.{List, [], ◌∷◌, map, ◌≡◌, refl}
use multiplayer_fabric_manua.Measurements.Schema.{Table, Schema}
use multiplayer_fabric_manua.Measurements.Data.Runs.{
  run_schema, run_table, run_software_schema, run_software_table,
}
use multiplayer_fabric_manua.Measurements.Data.Latency.{latency_schema, latency_table}
use multiplayer_fabric_manua.Measurements.Data.Throughput.{
  throughput_schema, throughput_table, size_schema, size_table,
}
use multiplayer_fabric_manua.Measurements.Data.Capability.{capability_schema, capability_table}

unfoldable pub measurements : List Table
measurements =
    run_table ∷ run_software_table ∷ latency_table ∷ throughput_table ∷ size_table
    ∷ capability_table ∷ []

-- The declarations of the six `CREATE TABLE` statements.
unfoldable pub schemas : List Schema
schemas =
    run_schema ∷ run_software_schema ∷ latency_schema ∷ throughput_schema ∷ size_schema
    ∷ capability_schema ∷ []
