-- ===== src/Cloud.antt =====
-- The cloud providers: operator/internal/cloud.
pub mod Gke
