-- ===== src/Wkb.antt =====
-- The EWKB geometry format: src/WkbDecode.cpp reads it, src/GeoUtils.cpp writes it, and the two
-- delta appliers write it with copies of their own (src/DeltaApplier.cpp).
pub mod Geometry
pub mod Cursor
pub mod Decode
pub mod Hex
pub mod Encode
mod Tests
