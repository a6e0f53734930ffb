-- ===== src/Decoder.antt =====
-- decoder.h and decoder.cc.
pub mod Input
pub mod Range
pub mod Symbols
pub mod Lz
