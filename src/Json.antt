-- ===== src/Json.antt =====
-- agent/source/json.hpp and agent/source/json.cpp.
pub mod Value
pub mod Number
pub mod Write
pub mod Parse
pub mod Order
pub mod Fuel
pub mod RoundTrip
mod Tests
