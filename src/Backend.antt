-- ===== src/Backend.antt =====
-- The job backends: operator/internal/backend.
pub mod Reads
pub mod Contract
pub mod Collect
pub mod Pytorch
pub mod Spark
