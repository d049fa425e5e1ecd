-- ===== src/Tests.antt =====
-- Sample values, runs of the code on them, and each theorem applied to them.
pub mod Samples
mod Routing
mod Engine
mod Dispatching
mod Values
mod Normalizing
mod Commands
mod Pipeline
mod Webhooks
mod Runtimes
mod Forwarding
mod Stored
mod Access
mod Telemetry
