-- ===== src/Std.antt =====
-- The containers and streams of the C++ standard library that the sources use.
pub mod Order
pub mod OrdMap
pub mod MultiMap
pub mod Stream
pub mod Split
pub mod Decimal
