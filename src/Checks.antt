-- ===== src/Checks.antt =====
-- Runs of the theorems at concrete inputs.
mod Paths
mod Json
mod Wire
mod Server
mod Search
mod Device
mod Files
mod Handlers
mod Debug
