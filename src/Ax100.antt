-- ===== src/Ax100.antt =====
-- The decoders behind `class ax100_decoder` (lib/ax100_decoder.cc): `ax100_mode5` and `ax100_mode6`.
pub mod Size
pub mod Mode5
