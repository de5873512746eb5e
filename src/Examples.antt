-- ===== src/Examples.antt =====
-- Runs of the model on small inputs, and the theorems at them.
mod Data
mod Steps
mod Handlers
mod Limits
mod Stores
mod Codec
mod Devices
mod Tools
