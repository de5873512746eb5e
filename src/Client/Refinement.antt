-- ===== src/Client/Refinement.antt =====
-- client.go does what `Client.Core` says: each of its operations, and so each step, is a step of the
-- core, or leaves it alone.
mod Basics
mod Commands
mod Handlers
mod Dispatch
mod Frames
mod Steps
pub use Commands.{register-Same}
pub use Steps.{Fits, Refined, Step-Refined}
