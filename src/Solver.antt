-- ===== src/Solver.antt =====
-- The topology solver: operator/internal/controller/solver.go.
pub mod Formulas
pub mod Estimate
pub mod Search
pub mod Branches
pub mod Run
