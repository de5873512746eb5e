-- ===== src/Relay/Stable/Handlers.antt =====
-- The handlers of server.go keep every stable property; a session comes only by an acceptance.
mod Acceptance
mod Joining
mod Confirming
mod Passing
pub use Acceptance.*
pub use Joining.*
pub use Confirming.*
pub use Passing.*
