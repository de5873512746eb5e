-- ===== src/Client.antt =====
-- internal/client: the client engine of a device, which a window or a command line drives.
pub mod State
pub mod Basics
pub mod Media
pub mod Streams
pub mod Commands
pub mod Handlers
pub mod Dispatch
pub mod Connection
pub mod Frames
pub mod Steps
pub mod Core
pub mod Refinement
pub mod Invariant
pub mod Races
pub mod Consent
pub mod Backoff
pub mod Shares
pub mod Rates
