-- ===== src/Ieee802154.antt =====
-- Framing in the manner of IEEE 802.15.4: a preamble, a synchronisation word, a length where it is
-- not fixed, the payload and a checksum, the part behind the synchronisation word whitened.
pub mod Encoder
pub mod Decoder
pub mod Link
mod Tests
