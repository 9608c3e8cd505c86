-- ===== src/Wire.antt =====
-- include/itch_protocol.hpp: message types, packed structs, byte order.
pub mod Scalars
pub mod MessageType
pub mod Messages
pub mod SizeOf
pub mod Symbol
pub mod Range
pub mod Overlay
pub mod Object
pub mod Format
pub mod OverlayObject
pub mod ObjectOverlay
pub mod OverlayRange
pub mod OverlayBytes
pub mod ObjectLength
mod Tests
