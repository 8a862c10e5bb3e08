-- ===== src/Examples.antt =====
-- Concrete data for the tests, and the tests.
mod Samples
mod Finish
mod Lifecycle
mod Solver
mod Services
mod Backends
mod Assembly
mod Main
mod Golden
