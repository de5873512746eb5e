-- ===== src/Relay.antt =====
-- internal/relay: the relay server.
pub mod Limiter
pub mod State
pub mod Client
pub mod Hub
pub mod Server
pub mod WebShare
pub mod WebPeer
pub mod Dispatch
mod Kept
pub mod Forwarding
pub mod Purge
pub mod Registration
pub mod Sharing
pub mod Steps
pub mod Stable
pub mod Invariant
pub mod Consent
pub mod AuthCode
