-- ===== src/Ieee802154/Encoder.antt =====
-- `class ieee802_15_4_encoder` (lib/ieee802_15_4_encoder.cc). `d_buffer` up to `d_payload` is
-- written once by the constructor: it is the field `head`.
use satnogs_gr_oot.Base.{ℕ, ◌%◌, ◌^◌, Bool, true, false, Option, none, some, List, ◌∷◌, ◌++◌, ltb}
use satnogs_gr_oot.Base.{◌==◌, if◌then◌else◌, length, replicate}
use satnogs_gr_oot.Crc.{CrcType, crc_size, Endian, append}
use satnogs_gr_oot.Whitening.{Lfsr, Whitening, reset_whitening, scramble}
use satnogs_gr_oot.Ax25.Pmt.{Pmt}

abbrev pub max_frame_len : ℕ
max_frame_len = 255

-- The length where it is sent, and the PDU: what the checksum is taken of.
unfoldable pub counted : Bool → List ℕ → List ℕ
counted true pdu = length pdu % 2 ^ 8 ∷ pdu
counted false pdu = pdu

module _ (lfsr : Lfsr) where
  pub record Ieee802154Encoder : Type 0 where
    pub head : List ℕ
    pub crc : CrcType
    pub scrambler : Option (Whitening lfsr)
    pub var_len : Bool

  -- `none` is an exception: of the constructor, or of `crc_size`.
  unfoldable pub new :
      ℕ → ℕ → List ℕ → CrcType → Option (Whitening lfsr) → Bool → Option Ieee802154Encoder
  new preamble preamble_len sync_word crc scrambler var_len =
      if length sync_word == 0 then none else elim (crc_size crc) [
        | none ↦ none
        | some n ↦ some (record {
          head = replicate preamble_len preamble ++ sync_word;
          crc = crc;
          scrambler = scrambler;
          var_len = var_len;
        })
      ]

  -- `if (d_scrambler) { d_scrambler->reset(); d_scrambler->scramble(…); }`
  unfoldable pub scrambled : Option (Whitening lfsr) → List ℕ → List ℕ × Option (Whitening lfsr)
  scrambled none payload = (payload, none)
  scrambled (some w) payload =
      let (os, v) = scramble lfsr (reset_whitening lfsr w) payload in (os, some v)

  -- `encode` from the octets of the message on; `none` is an exception.
  unfoldable pub encode_pdu :
      Endian → Ieee802154Encoder → List ℕ → Option (List ℕ × Ieee802154Encoder)
  unfolding counted scrambled
  encode_pdu host e pdu =
      if ltb max_frame_len (length pdu)
      then none
      else elim (append host e.crc (counted e.var_len pdu) true) [
        | none ↦ none
        | some fcs ↦
            let (payload, s) = scrambled e.scrambler (counted e.var_len pdu ++ fcs) in
            some (e.head ++ payload, record e { scrambler = s })
      ]

  -- The octets of the message returned.
  unfoldable pub encode :
      (pmt : Pmt) → Endian → Ieee802154Encoder → pmt.Message → Option (List ℕ × Ieee802154Encoder)
  unfolding encode_pdu
  encode pmt host e msg =
      if pmt.is_blob msg
      then encode_pdu host e (pmt.uniform_vector_elements msg)
      else if pmt.is_pair msg
      then encode_pdu host e (pmt.uniform_vector_elements (pmt.cdr msg))
      else none
