-- ===== src/Ieee802154/Tests.antt =====
-- A short PDU with its length, CRC16_CCITT and a whitening register, and the theorems at it.
use satnogs_gr_oot.Base.{ℕ, ◌+◌, ◌*◌, ◌≡◌, refl, true, false, none, some, List, [], ◌∷◌}
use satnogs_gr_oot.Base.{◌++◌, arith, length, replicate}
use satnogs_gr_oot.Crc.{crc16_ccitt_t, crc_size, little}
use satnogs_gr_oot.ShiftReg.{ShiftReg, shift_left, push_back, fill_loop}
use satnogs_gr_oot.Whitening.{Whitening, reset_whitening}
use satnogs_gr_oot.Whitening.Laws.{frame_bits}
use satnogs_gr_oot.Whitening.Sample.{counter_lfsr}
use satnogs_gr_oot.Ieee802154.Encoder.{Ieee802154Encoder, encode_pdu}
use satnogs_gr_oot.Ieee802154.Decoder.{searching, searching_sync, decoding_generic_frame_len}
use satnogs_gr_oot.Ieee802154.Decoder.{decoding_payload, Config, Decoder, new, reset, config_of}
use satnogs_gr_oot.Ieee802154.Decoder.{shift_regs, load_word, reset_descrambler}
use satnogs_gr_oot.Ieee802154.Decoder.Run.{decode}
use satnogs_gr_oot.Ieee802154.Decoder.Safe.{IsValid, Goes}
use satnogs_gr_oot.Ieee802154.Decoder.Total.{decode-Goes, built-IsValid}
use satnogs_gr_oot.Ieee802154.Decoder.Overrun.{decode_overrun}
use satnogs_gr_oot.Ieee802154.Decoder.Delivery.{Delivers}
use satnogs_gr_oot.Ieee802154.Link.{decode_calls-encode_pdu}
use satnogs_gr_oot.ShiftReg

-- A register that is where a reset brings it.
abbrev fresh_register : Whitening counter_lfsr
fresh_register = record { msb = true; self_sync = false; register = (0xff, 0xff) }

abbrev sender : Ieee802154Encoder counter_lfsr
sender = record {
  head = 0xaa ∷ 0xaa ∷ 0xd3 ∷ 0x91 ∷ [];
  crc = crc16_ccitt_t;
  scrambler = some fresh_register;
  var_len = true;
}

abbrev receiver : Config
receiver = config_of (0xaa ∷ []) 0 (0xd3 ∷ 0x91 ∷ []) 1 crc16_ccitt_t true true

-- The decoder, and what of it a call can have changed.
abbrev waiting_in : ℕ → Decoder counter_lfsr
waiting_in size = record {
  preamble_shift_reg = shift_regs (0xaa ∷ []);
  sync_shift_reg = shift_regs (0xd3 ∷ 0x91 ∷ []);
  descrambler = some fresh_register;
  len = 257;
  state = decoding_generic_frame_len;
  cnt = 0;
  frame_start_idx = 0;
  pdu = replicate size 0;
  nitems_read = 64;
}

abbrev synced : Decoder counter_lfsr
synced = waiting_in 258

abbrev octets : List ℕ
octets = 0x31 ∷ 0x00 ∷ 0xff ∷ []

synced-IsValid : IsValid counter_lfsr receiver synced
unfolding crc_size
synced-IsValid = record {
  field = refl;
  checked = λ e. cc;
  crc = (2, refl, λ h. omega arith);
  room = omega arith;
  positive = λ h. cc;
  waiting = λ h. cc;
  variable = λ h. refl;
}

decode_calls-encode_pdu_example :
    (first : ℕ) × (wire : List ℕ) × (s : Ieee802154Encoder counter_lfsr) × (t : Decoder
      counter_lfsr)
    × (encode_pdu counter_lfsr little sender octets ≡ some (sender.head ++ (first ∷ wire), s))
    × (decode counter_lfsr receiver synced (frame_bits true (first ∷ []))
        ≡ some (t, record { consumed = 8; frame = none }))
    × Delivers counter_lfsr octets
        (8 * length wire)
        (decode counter_lfsr receiver t (frame_bits true wire))
unfolding reset_whitening
decode_calls-encode_pdu_example =
    decode_calls-encode_pdu counter_lfsr little receiver synced sender octets synced-IsValid refl
      refl refl (λ e. cc) (refl, refl) (omega arith) (omega arith)

decode-Goes_example :
    Goes counter_lfsr receiver 1 24 (decode counter_lfsr receiver synced (frame_bits true octets))
decode-Goes_example =
    decode-Goes counter_lfsr receiver synced (frame_bits true octets) synced-IsValid (omega arith)

-- What the constructor returns for the same parameters.
abbrev built : Decoder counter_lfsr
built = record (waiting_in 258) { state = searching; nitems_read = 0 }

built_by_new :
    new counter_lfsr
      (0xaa ∷ [])
      0
      (0xd3 ∷ 0x91 ∷ [])
      1
      crc16_ccitt_t
      (some fresh_register)
      true
      255
      true
      (replicate 260 0)
    ≡ some (receiver, built)
unfolding new reset reset_descrambler reset_whitening crc_size load_word ShiftReg.new ShiftReg.reset
built_by_new = refl

built-IsValid_example : IsValid counter_lfsr receiver built
built-IsValid_example =
    built-IsValid counter_lfsr (0xaa ∷ []) 0 (0xd3 ∷ 0x91 ∷ []) 1 crc16_ccitt_t
      (some fresh_register) true 255 true (replicate 260 0) receiver built built_by_new
      (omega arith) (λ e. cc) (λ h. (omega arith, λ e. cc))

abbrev looking : Decoder counter_lfsr
looking = record synced { state = searching_sync }

-- A buffer for frames of 16 bytes, and a length byte that says 64.
abbrev small : Decoder counter_lfsr
small = record (waiting_in 19) { descrambler = none }

decode_overrun_example :
    (t : Decoder counter_lfsr) × (u : Decoder counter_lfsr) × (decode counter_lfsr receiver small
        (frame_bits true (64 ∷ []))
      ≡ some (t, record { consumed = 8; frame = none }))
    × (decode counter_lfsr receiver t (frame_bits true (replicate 19 0x55))
        ≡ some (u, record { consumed = 8 * 19; frame = none }))
    × (u.cnt ≡ length u.pdu + 1)
    × (u.state ≡ decoding_payload)
unfolding crc_size
decode_overrun_example =
    decode_overrun counter_lfsr receiver small 64 2 (replicate 19 0x55) refl refl refl refl
      (omega arith) (omega arith) (omega arith) refl
