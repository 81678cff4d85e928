-- ===== src/Ax25.antt =====
-- AX.25: the constants of `class ax25` (include/satnogs/ax25.h); the encoder, the rules of HDLC
-- framing that it is held against, and the decoder stand in the modules below.
pub mod Pmt
pub mod Stuffing
pub mod Encoder
pub mod Decoder
pub mod RoundTrip
use satnogs_gr_oot.Base.{ℕ, ◌+◌, ◌*◌, List}
use satnogs_gr_oot.Crc.{crc16_ax25}

abbrev pub min_addr_len : ℕ
min_addr_len = 14

abbrev pub max_addr_len : ℕ
max_addr_len = 2 * 7 + 8 * 7

abbrev pub max_ctrl_len : ℕ
max_ctrl_len = 2

abbrev pub pid_len : ℕ
pid_len = 1

abbrev pub max_header_len : ℕ
max_header_len = max_addr_len + max_ctrl_len + pid_len

abbrev pub sync_flag : ℕ
sync_flag = 0x7e

abbrev pub callsign_max_len : ℕ
callsign_max_len = 6

abbrev pub crc : List ℕ → ℕ
crc buffer = crc16_ax25 buffer
