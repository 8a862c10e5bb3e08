-- ===== src/Backend/Spark.antt =====
-- The Spark backend: operator/internal/backend/spark/spark.go.
pub mod Manifest
pub mod Status
pub mod Results
