-- ===== src/Protocol.antt =====
-- internal/protocol: the message types and session modes, the envelope, and the payloads with
-- their JSON forms.
pub mod RoundTrip
pub mod Types
pub mod Json
pub mod Message
pub mod Payloads
pub mod Codec
