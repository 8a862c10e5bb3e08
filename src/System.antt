-- ===== src/System.antt =====
-- What surrounds the controller: manifests, the calls that it makes with the record of those
-- already made, the answers of the services, and the world in which a handler runs.
mod Objects
mod Calls
mod Monad
pub mod Keeps
pub mod Answers
pub mod Ends
pub mod Accepts
pub mod Wakes
pub use Objects.*
pub use Calls.*
unfoldable pub use Monad.{
  ◌>>=◌, pure, give, must, must_not, current, change_memory, emit, ask, change_status,
}
pub use Monad.*
