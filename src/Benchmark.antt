-- ===== src/Benchmark.antt =====
-- The benchmark of src/benchmark.c and its program, tools/benchmark_bptree.c.
pub mod Run
pub mod Rows
pub mod Probes
pub mod Steps
pub mod Laws
pub mod Prepared
pub mod Succeeds
pub mod Cli
pub mod CliLaws
pub mod Examples
