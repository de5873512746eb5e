-- ===== src/Protocol/Payloads.antt =====
-- internal/protocol/message.go: the payloads, `DecodePayload` for those that are read, and
-- `json.Marshal` for those that are written.
mod Devices
mod Shares
mod Sessions
mod Streams
mod Replies
unfoldable pub use Devices.*
unfoldable pub use Shares.*
unfoldable pub use Sessions.*
unfoldable pub use Streams.*
unfoldable pub use Replies.*
