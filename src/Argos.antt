-- ===== src/Argos.antt =====
-- `class argos_ldr_decoder` (lib/argos_ldr_decoder.cc, include/satnogs/argos_ldr_decoder.h) with the
-- item counter of its base class. `d_bitstream` is the list of the bits held. The loop of `_decode`
-- stands in Argos/Run. The logging and the time stamp of the metadata are left out.
pub mod Run
pub mod Step
pub mod Invariant
pub mod FrameEnd
pub mod Turns
pub mod Total
pub mod Stuffing
mod Tests
use satnogs_gr_oot.Base.{
  ℕ, zero, suc, ◌+◌, ◌-◌, ◌*◌, ◌/◌, ◌%◌, ◌^◌, bit_and, bit_or, Bool, true, false,
}
use satnogs_gr_oot.Base.{Option, none, some, List, [], ◌∷◌, ltb, ◌==◌, if◌then◌else◌, get_or, set}
use satnogs_gr_oot.Base.{take, drop}
use satnogs_gr_oot.Crc.{crc16_ccitt}

-- `decoding_state_t`
pub data State : Type 0 where
  no_sync in_sync decoding : State

-- The fields that the constructor sets once.
pub record Config : Type 0 where
  pub crc_check : Bool
  pub max_frame_len : ℕ

pub record Decoder : Type 0 where
  pub state : State
  pub shift_reg : ℕ
  pub dec_b : ℕ
  pub received_bytes : ℕ
  pub decoded_bits : ℕ
  pub frame_buffer : List ℕ
  pub bitstream : List ℕ
  pub start_idx : ℕ
  pub frame_start : ℕ
  pub sample_cnt : ℕ
  pub nitems_read : ℕ

-- What `metadata` puts into `status.data` for a frame; only valid frames have `sample_start` and
-- `sample_cnt`.
pub record Frame : Type 0 where
  pub pdu : List ℕ
  pub crc_valid : Bool
  pub samples : Option (ℕ × ℕ)

-- The bytes of a fresh `d_frame_buffer` are whatever the memory held.
unfoldable pub new : Config → List ℕ → Decoder
new c memory = record {
  state = no_sync;
  shift_reg = 0;
  dec_b = 0;
  received_bytes = 0;
  decoded_bits = 0;
  frame_buffer = take (c.max_frame_len + 2) memory;
  bitstream = [];
  start_idx = 0;
  frame_start = 0;
  sample_cnt = 0;
  nitems_read = 0;
}

unfoldable pub reset_state : Decoder → Decoder
reset_state d = record d {
  state = no_sync;
  dec_b = 0;
  shift_reg = 0;
  decoded_bits = 0;
  received_bytes = 0;
}

unfoldable pub reset : Decoder → Decoder
unfolding reset_state
reset d = reset_state d

unfoldable pub enter_sync_state : Decoder → Decoder
enter_sync_state d = record d {
  state = in_sync;
  dec_b = 0;
  shift_reg = 0;
  decoded_bits = 0;
  received_bytes = 0;
}

unfoldable pub enter_decoding_state : Decoder → Decoder
enter_decoding_state d =
    let t = record d { state = decoding; decoded_bits = 0; received_bytes = 0 } in
    if bit_and (t.shift_reg / 2 ^ 16) 0xfc == 0x7c
    then record t { dec_b = t.dec_b / 2; decoded_bits = 7 }
    else record t {
      frame_buffer = set t.frame_buffer 0 t.dec_b;
      decoded_bits = 0;
      received_bytes = 1;
    }

unfoldable pub decode_1b : ℕ → Decoder → Decoder
decode_1b bit d = record d {
  shift_reg = bit_and (bit_or (d.shift_reg * 2 % 2 ^ 32) bit) 0xFFFFFF;
  dec_b = bit_or (d.dec_b * 2) bit % 2 ^ 8;
}

-- The loop of `frame_check`: `all_zeros`.
unfoldable pub all_zeros : List ℕ → Bool
all_zeros [] = true
all_zeros (x ∷ xs) = if x == 0 then all_zeros xs else false

unfoldable pub frame_check : ℕ → List ℕ → Bool
unfolding all_zeros
frame_check received buffer =
    if all_zeros (take received buffer)
    then false
    else (let fcs = crc16_ccitt (take (received - 2) buffer) in
        let recv_fcs =
          bit_or (get_or buffer (received - 2) 0 * 2 ^ 8) (get_or buffer (received - 1) 0) in
        fcs == recv_fcs)

-- The new state, the frame put into `status`, if any, and the value returned.
unfoldable pub enter_frame_end : Config → Decoder → Decoder × Option Frame × Bool
unfolding reset_state frame_check
enter_frame_end c d =
    if ltb d.received_bytes (1 + 2)
    then (reset_state d, none, false)
    else if frame_check d.received_bytes d.frame_buffer
    then (
      reset_state d,
      some (record {
        pdu = take (d.received_bytes - 2) d.frame_buffer;
        crc_valid = true;
        samples = some (d.frame_start, d.sample_cnt);
      }),
      true,
    )
    else if c.crc_check
    then (d, none, false)
    else (
      reset_state d,
      some (record {
        pdu = take (d.received_bytes - 2) d.frame_buffer;
        crc_valid = false;
        samples = none;
      }),
      false,
    )
