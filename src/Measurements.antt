-- ===== src/Measurements.antt =====
-- data/measurements/build.py: the tables of measurements, and the script that loads them into
-- DuckDB, verifies them and writes them as Parquet files.
pub mod Schema
pub mod Duckdb
pub mod Data
pub mod Build
pub mod Sound
mod Tests
