-- ===== src/Backend/Pytorch.antt =====
-- The PyTorch backend: operator/internal/backend/pytorch/pytorch.go.
pub mod Command
pub mod Pod
pub mod Manifest
pub mod Status
pub mod Results
