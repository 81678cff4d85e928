-- ===== src/Ax25/Decoder.antt =====
-- `class ax25_decoder` (lib/ax25_decoder.cc, include/satnogs/ax25_decoder.h) with the item counter
-- of its base class (lib/decoder.cc). The state of `d_lfsr` is passed beside the record.
-- `d_bitstream` is the list of the bits held; each loop over it takes the bits from its index on.
-- The logging and the time stamp of the metadata are left out. `size_t` differences are written
-- with `-`; the invariant of `Ax25.Decoder.Invariant` has the bounds that keep them from wrapping.
-- `crc_check` is what the code makes of it: `true` enforces the check, and drops a frame that fails
-- it; the comment of the class says the contrary on both.
pub mod Run
pub mod Invariant
pub mod Frames
pub mod Reports
pub mod FrameEnd
pub mod Progress
pub mod Total
pub mod Session
pub mod Nrzi
mod Tests
use satnogs_gr_oot.Base.{ℕ, zero, suc, ◌+◌, ◌-◌, ◌*◌, ◌/◌, ◌%◌, ◌^◌, bit_and, bit_or, bit_xor, Bool}
use satnogs_gr_oot.Base.{true, false, Option, none, some, List, [], ltb, ◌==◌, if◌then◌else◌}
use satnogs_gr_oot.Base.{get_or, set, take, drop}
use satnogs_gr_oot.Ax25.{crc, min_addr_len, max_header_len}

-- `decoding_state_t`
pub data DecodingState : Type 0 where
  no_sync in_sync decoding : DecodingState

-- The fields that the constructor sets once.
pub record Config : Type 0 where
  pub promisc : Bool
  pub does_descramble : Bool
  pub crc_check : Bool
  pub max_frame_len : ℕ
  pub does_error_correction : Bool

pub record Decoder : Type 0 where
  pub state : DecodingState
  pub shift_reg : ℕ
  pub dec_b : ℕ
  pub prev_bit_nrzi : ℕ
  pub received_bytes : ℕ
  pub decoded_bits : ℕ
  pub frame_buffer : List ℕ
  pub bitstream : List ℕ
  pub start_idx : ℕ
  pub frame_start : ℕ
  pub sample_cnt : ℕ
  pub nitems_read : ℕ

-- What `metadata` puts into `status.data` for a frame.
pub record Frame : Type 0 where
  pub pdu : List ℕ
  pub crc_valid : Bool
  pub sample_start : ℕ
  pub sample_cnt : ℕ

-- The bytes of a fresh `d_frame_buffer` are whatever the memory held.
unfoldable pub new : Config → List ℕ → Decoder
new c memory = record {
  state = no_sync;
  shift_reg = 0;
  dec_b = 0;
  prev_bit_nrzi = 0;
  received_bytes = 0;
  decoded_bits = 0;
  frame_buffer = take (c.max_frame_len + max_header_len + 2) memory;
  bitstream = [];
  start_idx = 0;
  frame_start = 0;
  sample_cnt = 0;
  nitems_read = 0;
}

unfoldable pub reset_state : Decoder → Decoder
reset_state d = record d {
  state = no_sync;
  dec_b = 0;
  shift_reg = 0;
  decoded_bits = 0;
  received_bytes = 0;
}

unfoldable pub reset : Decoder → Decoder
unfolding reset_state
reset d = reset_state d

unfoldable pub enter_sync_state : Decoder → Decoder
enter_sync_state d = record d {
  state = in_sync;
  dec_b = 0;
  shift_reg = 0;
  decoded_bits = 0;
  received_bytes = 0;
}

unfoldable pub enter_decoding_state : Decoder → Decoder
enter_decoding_state d =
    let t = record d { state = decoding; decoded_bits = 0; received_bytes = 0 } in
    if bit_and t.shift_reg 0xfc == 0x7c
    then record t { dec_b = t.dec_b * 2 % 2 ^ 8; decoded_bits = 7 }
    else record t {
      frame_buffer = set t.frame_buffer 0 t.dec_b;
      decoded_bits = 0;
      received_bytes = 1;
    }

unfoldable pub decode_1b : ℕ → Decoder → Decoder
decode_1b bit d = record d {
  shift_reg = bit_or (d.shift_reg / 2) (bit * 2 ^ 7) % 2 ^ 8;
  dec_b = bit_or (d.dec_b / 2) (bit * 2 ^ 7) % 2 ^ 8;
}

-- `d_bitstream.erase(begin, begin + n)` and `incr_nitems_read(n)`
unfoldable pub erase_read : ℕ → Decoder → Decoder
erase_read n d = record d { bitstream = drop n d.bitstream; nitems_read = d.nitems_read + n }

-- The received checksum against that of the bytes before it.
unfoldable pub is_frame_valid : ℕ → List ℕ → Bool
is_frame_valid received buffer =
    let fcs = crc (take (received - 2) buffer) in
    let recv_fcs =
      bit_or (get_or buffer (received - 1) 0 * 2 ^ 8) (get_or buffer (received - 2) 0) in
    fcs == recv_fcs

-- Toggling the bit of weight `2 ^ k` of byte `i`.
unfoldable pub toggled : List ℕ → ℕ → ℕ → List ℕ
toggled buffer i k = set buffer i (bit_xor (get_or buffer i 0) (2 ^ k))

-- The bits of byte `i` in turn, `left` of them to go: the buffer with the first that helps toggled.
unfoldable pub correct_byte : ℕ → ℕ → ℕ → List ℕ → Option (List ℕ)
correct_byte zero i received buffer = none
correct_byte (suc left) i received buffer =
    let t = toggled buffer i (7 - left) in
    let rest = correct_byte left i received buffer in
    if is_frame_valid received t then some t else rest

-- The bytes in turn, `left` of them to go.
unfoldable pub correct_from : ℕ → ℕ → List ℕ → Option (List ℕ)
correct_from zero received buffer = none
correct_from (suc left) received buffer =
    elim (correct_byte 8 (received - suc left) received buffer) [
      | some t ↦ some t
      | none ↦ correct_from left received buffer
    ]

unfoldable pub error_correction : Config → ℕ → List ℕ → Option (List ℕ)
error_correction c received buffer =
    if c.does_error_correction then correct_from received received buffer else none

abbrev pub frame_of : Decoder → List ℕ → Bool → Frame
frame_of d buffer valid = record {
  pdu = take (d.received_bytes - 2) buffer;
  crc_valid = valid;
  sample_start = d.frame_start;
  sample_cnt = d.sample_cnt;
}

-- The new state, and the frame put into `status`, if any.
unfoldable pub enter_frame_end : Config → Decoder → Decoder × Option Frame
unfolding reset_state is_frame_valid error_correction
enter_frame_end c d =
    if ltb d.received_bytes (min_addr_len + 2)
    then (reset_state d, none)
    else if is_frame_valid d.received_bytes d.frame_buffer
    then (reset_state d, some (frame_of d d.frame_buffer true))
    else elim (error_correction c d.received_bytes d.frame_buffer) [
      | some t ↦ (reset_state (record d { frame_buffer = t }), some (frame_of d t true))
      | none ↦ (reset_state d, if c.crc_check then none else some (frame_of d d.frame_buffer false))
    ]
