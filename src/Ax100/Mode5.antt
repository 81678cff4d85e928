-- ===== src/Ax100/Mode5.antt =====
-- `class ax100_mode5` (lib/ax100_mode5.cc, lib/ax100_mode5.h) with the item counter of its base class.
-- `d_pdu` is the list of its bytes; reading or writing outside it is undefined in the code and
-- `fault` here. `decode_rs_8` is that of ReedSolomon. The logging and the time stamp of the metadata
-- are left out.
pub mod Run
pub mod Payload
pub mod Delivery
pub mod Calls
pub mod Safe
pub mod Frames
pub mod Total
mod Tests
use satnogs_gr_oot.Base.{
  ℕ, ◌+◌, ◌*◌, ◌^◌, Bool, true, false, Option, none, some, List, [], ◌∷◌, ltb,
}
use satnogs_gr_oot.Base.{if◌then◌else◌, length, take}
use satnogs_gr_oot.Crc.{CrcType}
use satnogs_gr_oot.Ieee802154.Decoder.{load_word, shift_regs}
use satnogs_gr_oot.ShiftReg.{ShiftReg}
use satnogs_gr_oot.Whitening.{Lfsr, Whitening, reset_whitening}
use satnogs_gr_oot.ShiftReg

-- `decoding_state_t`
pub data State : Type 0 where
  searching searching_sync decoding_frame_len decoding_payload : State

-- The fields that the constructor sets once.
pub record Config : Type 0 where
  pub preamble : ShiftReg
  pub preamble_len : ℕ
  pub preamble_thrsh : ℕ
  pub sync : ShiftReg
  pub sync_len : ℕ
  pub sync_thrsh : ℕ
  pub crc : CrcType
  pub rs : Bool
  pub length_field_len : ℕ
  pub max_frame_len : ℕ

-- What `metadata` puts into `status.data` for a frame; `corrected_bits` only with Reed-Solomon.
pub record Frame : Type 0 where
  pub pdu : List ℕ
  pub crc_valid : Bool
  pub sample_start : ℕ
  pub sample_cnt : ℕ
  pub corrected_bits : Option ℕ

-- `decoder_status_t`; the frame is there if `decode_success` is set.
pub record Status : Type 0 where
  pub consumed : ℕ
  pub frame : Option Frame

abbrev config_of : List ℕ → ℕ → List ℕ → ℕ → CrcType → Bool → Config
config_of preamble preamble_threshold sync sync_threshold crc enable_rs = record {
  preamble = load_word preamble (shift_regs preamble);
  preamble_len = length preamble * 8;
  preamble_thrsh = preamble_threshold;
  sync = load_word sync (shift_regs sync);
  sync_len = length sync * 8;
  sync_thrsh = sync_threshold;
  crc = crc;
  rs = enable_rs;
  length_field_len = 3;
  max_frame_len = if enable_rs then 255 else 1024;
}

module _ (lfsr : Lfsr) where
  pub record Decoder : Type 0 where
    pub preamble_shift_reg : ShiftReg
    pub sync_shift_reg : ShiftReg
    pub descrambler : Option (Whitening lfsr)
    pub state : State
    pub cnt : ℕ
    pub len : ℕ
    pub pdu : List ℕ
    pub frame_start : ℕ
    pub nitems_read : ℕ

  -- How a call ends.
  pub data Outcome : Type 0 where
    ok : Decoder → Status → Outcome
    throws fault : Outcome

  -- `none` is an exception. The bytes of a fresh `d_pdu` are whatever the memory held.
  unfoldable pub new :
      List ℕ
      → ℕ
      → List ℕ
      → ℕ
      → CrcType
      → Option (Whitening lfsr)
      → Bool
      → List ℕ
      → Option (Config × Decoder)
  new preamble preamble_threshold sync sync_threshold crc descrambler enable_rs memory =
      let c = config_of preamble preamble_threshold sync sync_threshold crc enable_rs in
      if ltb c.sync_len 8
      then none
      else if ltb c.preamble_len (2 * c.preamble_thrsh)
      then none
      else if ltb c.sync_len (2 * c.sync_thrsh)
      then none
      else some (
        c,
        record {
          preamble_shift_reg = shift_regs preamble;
          sync_shift_reg = shift_regs sync;
          descrambler = descrambler;
          state = searching;
          cnt = 0;
          len = 0;
          pdu = take 1024 memory;
          frame_start = 0;
          nitems_read = 0;
        },
      )

  unfoldable pub reset_descrambler : Option (Whitening lfsr) → Option (Whitening lfsr)
  reset_descrambler none = none
  reset_descrambler (some w) = some (reset_whitening lfsr w)

  unfoldable pub reset : Decoder → Decoder
  unfolding reset_descrambler
  reset d = record d {
    descrambler = reset_descrambler d.descrambler;
    cnt = 0;
    state = searching;
    preamble_shift_reg = ShiftReg.reset d.preamble_shift_reg;
    sync_shift_reg = ShiftReg.reset d.sync_shift_reg;
  }
