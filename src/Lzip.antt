-- ===== src/Lzip.antt =====
-- lzip.h: the parts that the encoder and the decoder share.
pub mod State
pub mod Model
pub mod Crc
pub mod Header
pub mod Trailer
