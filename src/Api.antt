-- ===== src/Api.antt =====
-- The custom resources of operator/api/v1. A Go string type with declared constants is a data type
-- with a constructor for each constant, `unset` for the empty string and `other` for any further
-- text.
mod Spec
mod Status
pub use Spec.*
pub use Status.*
