-- ===== src/Wire.antt =====
-- include/feed/wire_format.hpp: big-endian helpers, MoldUDP64 framing, ITCH 5.0 messages.
pub mod Endian
pub mod Mold
pub mod Itch
