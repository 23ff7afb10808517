-- ===== src/Tests.antt =====
-- Concrete inputs, runs of the code on them, and instances of the theorems.
mod Data
mod Text
mod Diff
mod Batch
mod Locations
mod Bins
mod Workers
mod Client
mod Tokens
mod Storage
mod Hydration
mod Requests
mod Settings
mod Startup
mod Decode
mod Callers
mod Metrics
mod Schema
mod Loops
mod Lifecycle
