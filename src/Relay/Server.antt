-- ===== src/Relay/Server.antt =====
-- internal/relay/server.go: the handlers of a client's messages.
mod Codes
mod Joining
mod Requests
mod Confirming
mod Forwarding
mod Closing
unfoldable pub use Codes.*
unfoldable pub use Joining.*
unfoldable pub use Requests.*
unfoldable pub use Confirming.*
unfoldable pub use Forwarding.*
unfoldable pub use Closing.*
