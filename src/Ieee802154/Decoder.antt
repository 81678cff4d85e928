-- ===== src/Ieee802154/Decoder.antt =====
-- `class ieee802_15_4_variant_decoder` (lib/ieee802_15_4_variant_decoder.cc and its header) with the
-- item counter of its base class. `d_pdu` is the list of its bytes; a write behind its end changes
-- nothing in the model, and is undefined in the code: the laws say when there is none. The logging
-- and the time stamp of the metadata are left out.
pub mod Run
pub mod Safe
pub mod Parts
pub mod Total
pub mod Payload
pub mod Checked
pub mod Delivery
pub mod Search
pub mod Overrun
use satnogs_gr_oot.Base.{ℕ, ◌+◌, ◌-◌, ◌*◌, ◌^◌, Bool, true, false, ◌&&◌, not, Option, none, some}
use satnogs_gr_oot.Base.{List, [], ◌∷◌, ◌++◌, ltb, leb, ◌==◌, if◌then◌else◌, length, get_or, set}
use satnogs_gr_oot.Base.{take, drop}
use satnogs_gr_oot.Bytes.{msb_bits, join_msb}
use satnogs_gr_oot.Crc.{CrcType, crc_none, crc16_ccitt_t, crc16_aug_ccitt_t, crc16_ccitt_reversed_t}
use satnogs_gr_oot.Crc.{crc16_ax25_t, crc16_ibm_t, crc32_c_t, crc_methods_num, crc_size}
use satnogs_gr_oot.Crc.{crc16_ccitt, crc16_aug_ccitt, crc16_ccitt_reversed, crc16_ibm, crc32_c}
use satnogs_gr_oot.ShiftReg.{ShiftReg, shift_left, count, xor_reg}
use satnogs_gr_oot.Whitening.{Lfsr, Whitening, reset_whitening, descramble}
use satnogs_gr_oot.ShiftReg

-- `decoding_state_t`
pub data State : Type 0 where
  searching searching_sync decoding_generic_frame_len decoding_payload : State

-- The fields that the constructor sets once.
pub record Config : Type 0 where
  pub preamble : ShiftReg
  pub preamble_len : ℕ
  pub preamble_thrsh : ℕ
  pub sync : ShiftReg
  pub sync_len : ℕ
  pub sync_thrsh : ℕ
  pub crc : CrcType
  pub var_len : Bool
  pub drop_invalid : Bool
  pub length_field_len : ℕ

-- What `metadata` puts into `status.data` for a frame.
pub record Frame : Type 0 where
  pub pdu : List ℕ
  pub crc_valid : Bool
  pub sample_start : ℕ
  pub sample_cnt : ℕ

-- `decoder_status_t`; the frame is there if `decode_success` is set.
pub record Status : Type 0 where
  pub consumed : ℕ
  pub frame : Option Frame

-- A `uint8_t` where a `bool` is expected.
abbrev pub as_bool : ℕ → Bool
as_bool x = not (x == 0)

-- The loops of the constructor: the bits of the bytes, most significant first, shifted in.
unfoldable pub shift_bits : List ℕ → ShiftReg → ShiftReg
shift_bits [] r = r
shift_bits (b ∷ bits) r = shift_bits bits (shift_left (as_bool b) r)

unfoldable pub load_word : List ℕ → ShiftReg → ShiftReg
unfolding shift_bits
load_word [] r = r
load_word (b ∷ bytes) r = load_word bytes (shift_bits (msb_bits b) r)

abbrev pub shift_regs : List ℕ → ShiftReg
shift_regs bytes = ShiftReg.new (length bytes * 8)

abbrev pub config_of : List ℕ → ℕ → List ℕ → ℕ → CrcType → Bool → Bool → Config
config_of preamble preamble_threshold sync sync_threshold crc var_len drop_invalid = record {
  preamble = load_word preamble (shift_regs preamble);
  preamble_len = length preamble * 8;
  preamble_thrsh = preamble_threshold;
  sync = load_word sync (shift_regs sync);
  sync_len = length sync * 8;
  sync_thrsh = sync_threshold;
  crc = crc;
  var_len = var_len;
  drop_invalid = drop_invalid;
  length_field_len = if var_len then 1 else 0;
}

module _ (lfsr : Lfsr) where
  pub record Decoder : Type 0 where
    pub preamble_shift_reg : ShiftReg
    pub sync_shift_reg : ShiftReg
    pub descrambler : Option (Whitening lfsr)
    pub len : ℕ
    pub state : State
    pub cnt : ℕ
    pub frame_start_idx : ℕ
    pub pdu : List ℕ
    pub nitems_read : ℕ

  unfoldable pub reset_descrambler : Option (Whitening lfsr) → Option (Whitening lfsr)
  reset_descrambler none = none
  reset_descrambler (some w) = some (reset_whitening lfsr w)

  unfoldable pub reset : Config → Decoder → Decoder
  unfolding reset_descrambler
  reset c d = record d {
    descrambler = reset_descrambler d.descrambler;
    cnt = 0;
    state = if c.preamble_len == 0 then searching_sync else searching;
    preamble_shift_reg = ShiftReg.reset d.preamble_shift_reg;
    sync_shift_reg = ShiftReg.reset d.sync_shift_reg;
  }

  -- `none` is an exception. The bytes of a fresh `d_pdu` are whatever the memory held.
  unfoldable pub new :
      List ℕ
      → ℕ
      → List ℕ
      → ℕ
      → CrcType
      → Option (Whitening lfsr)
      → Bool
      → ℕ
      → Bool
      → List ℕ
      → Option (Config × Decoder)
  unfolding load_word reset
  new preamble preamble_threshold sync sync_threshold crc descrambler var_len max_len drop_invalid
        memory =
      let c = config_of preamble preamble_threshold sync sync_threshold crc var_len drop_invalid in
      elim (crc_size crc) [
        | none ↦ none
        | some n ↦
            if max_len == 0
            then none
            else if ltb c.sync_len 8
            then none
            else if not (c.preamble_len == 0) && ltb c.preamble_len (2 * c.preamble_thrsh)
            then none
            else if ltb c.sync_len (2 * c.sync_thrsh)
            then none
            else some (
              c,
              reset c (record {
                preamble_shift_reg = shift_regs preamble;
                sync_shift_reg = shift_regs sync;
                descrambler = descrambler;
                len = max_len + n;
                state = searching;
                cnt = 0;
                frame_start_idx = 0;
                pdu = take (max_len + n + c.length_field_len) memory;
                nitems_read = 0;
              }),
            )
      ]
