-- ===== src/Client/Handlers.antt =====
-- client.go: what the client does with a message of the relay or of its peer (`handleMessage`).
mod Replies
mod Sessions
mod Peers
unfoldable pub use Replies.*
unfoldable pub use Sessions.*
unfoldable pub use Peers.*
