-- ===== src/Coder.antt =====
-- The range coder as a whole: the interval that an encoder and a decoder agree on, and what the one
-- writes read back by the other.
pub mod Interval
pub mod Emit
pub mod Follow
pub mod Stream
pub mod Codes
pub mod Objects
