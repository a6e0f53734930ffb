-- ===== src/Encoder.antt =====
-- encoder_base.h and encoder_base.cc.
pub mod Output
pub mod Range
pub mod Symbols
pub mod Slots
pub mod Prices
pub mod Finder
pub mod Fast
pub mod Packets
