-- ===== src/Packet.antt =====
-- packet_datatypes.c: the bytes, integers, strings and variable byte integers of a packet.
pub mod Defs
pub mod Encode
pub mod Unread
pub mod Read
pub mod Write
pub mod RoundTrip
mod Tests
