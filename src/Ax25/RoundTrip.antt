-- ===== src/Ax25/RoundTrip.antt =====
-- What `ax25_encoder` (lib/ax25_encoder.cc) sends, given to `ax25_decoder` (lib/ax25_decoder.cc).
mod Window
mod Reading
mod Closing
mod Stuffed
mod Sync
mod FirstByte
mod Preamble
mod Frame
mod Bytes
mod Ending
mod Reception
mod Sent
pub mod Link
mod Tests
