-- ===== src/Bench.antt =====
-- crates/ohmcp-bench: the baseline that the benchmarks compare with, JSON-RPC in lines of text.
pub mod Baseline
pub mod Answers
pub mod Same
