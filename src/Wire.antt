-- ===== src/Wire.antt =====
-- The byte stream of one connection, and the frames on it (agent/source/server.cpp).
pub mod Words
pub mod Socket
pub mod Frame
pub mod Stream
pub mod Sending
pub mod Delivery
pub mod Progress
