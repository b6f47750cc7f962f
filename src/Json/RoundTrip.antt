-- ===== src/Json/RoundTrip.antt =====
-- What `dump` writes, `parse` reads back.
pub mod Text
pub mod Grammar
pub mod Values
