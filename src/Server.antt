-- ===== src/Server.antt =====
-- agent/source/server.cpp above the frames.
pub mod Handlers
pub mod Table
pub mod Gate
pub mod Access
pub mod Equality
pub mod Auth
pub mod Login
pub mod Serve
pub mod Session
pub mod Ends
