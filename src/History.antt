-- ===== src/History.antt =====
-- The history of runs: operator/internal/controller/history.go.
pub mod Hash
pub mod Throughput
pub mod Prune
pub mod Write
