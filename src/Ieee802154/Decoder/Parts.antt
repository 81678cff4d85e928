-- ===== src/Ieee802154/Decoder/Parts.antt =====
-- The length field and the end of a payload keep a decoder valid.
use satnogs_gr_oot.Base.{
  length-drop, Bool, true, Option, none, some, ◌++◌, length-append, length-take, IsBytes,
}
use satnogs_gr_oot.Base.{refl, ◌+◌, ◌*◌, ◌∙◌, ap, get_or, set, take, drop, length-set, ◌^◌}
use satnogs_gr_oot.Base.{◌∷◌, [], if◌then◌else◌, ℕ, ◌<◌, ◌≡◌, ◌≢◌, List, arith, length}
use satnogs_gr_oot.Ieee802154.Decoder.Safe.{Goes, IsValid-reset, IsValid}
use satnogs_gr_oot.Whitening.{Whitening, descramble, scramble, Lfsr}
use satnogs_gr_oot.Whitening.Range.{scramble_loop-IsBytes, length-scramble_loop}
use satnogs_gr_oot.Bytes.Range.{join_msb-lt}
use satnogs_gr_oot.Bytes.{join_msb}
use satnogs_gr_oot.Ieee802154.Decoder.Run.{descrambled, check_crc_of, payload_done}
use satnogs_gr_oot.Ieee802154.Decoder.Run.{decode_frame_len}
use satnogs_gr_oot.Ieee802154.Decoder.{decoding_payload, Config, Decoder}
use satnogs_gr_oot.Crc.{crc_none, crc16_ax25_t, crc_methods_num, crc16_ccitt_t, crc16_aug_ccitt_t}
use satnogs_gr_oot.Crc.{crc16_ccitt_reversed_t, crc16_ibm_t, crc32_c_t, CrcType, crc_size}

module _ (lfsr : Lfsr) where
  descrambled-IsBytes :
      (w : Option (Whitening lfsr)) (xs : List ℕ)
      → IsBytes xs
      → IsBytes (descrambled lfsr w xs).0 × (length (descrambled lfsr w xs).0 ≡ length xs)
  unfolding descrambled descramble scramble
  descrambled-IsBytes none xs h = (h, refl)
  descrambled-IsBytes (some w) xs h = (
    scramble_loop-IsBytes lfsr w.msb w.self_sync w.register xs h,
    length-scramble_loop lfsr w.msb w.self_sync w.register xs,
  )

  first-lt : (xs : List ℕ) → IsBytes xs → get_or xs 0 0 < 2 ^ 8
  first-lt [] h = omega arith
  first-lt (x ∷ xs) h = h.0

  -- The length field.
  pub decode_frame_len-Goes :
      (c : Config) (input : List ℕ) (d : Decoder lfsr)
      → IsValid lfsr c d
      → c.var_len ≡ true
      → (t : Decoder lfsr) × (decode_frame_len lfsr c input d ≡ some (t, 8)) × IsValid lfsr c t
  unfolding decode_frame_len
  decode_frame_len-Goes c input d v var =
      let (n, known, more) = v.crc in
      let one : List ℕ = join_msb (take 8 input) ∷ [] in
      let (out, s) = descrambled lfsr d.descrambler one in
      let b : ℕ = get_or out 0 0 in
      let small : b < 2 ^ 8 =
        first-lt out (descrambled-IsBytes d.descrambler one (join_msb-lt (take 8 input), tt)).0 in
      let lf : c.length_field_len ≡ 1 = v.field ∙ ap (λ t. if t then 1 else 0) var in
      let (some_crc, enough) = more var in
      let size = length-set d.pdu 0 b in
      (
        record d {
          descrambler = s;
          len = b + n;
          pdu = set d.pdu 0 b;
          cnt = 1;
          state = decoding_payload;
        },
        rw (known, decode_frame_len) refl,
        record {
          field = v.field;
          checked = v.checked;
          crc = (n, known, λ h. omega (arith, enough, size));
          room = omega arith;
          positive = λ h. cc;
          waiting = λ h. omega arith;
          variable = λ h. var;
        },
      )

  pub Crc-cases :
      (t : CrcType) (pdu : List ℕ) (k n : ℕ)
      → crc_size t ≡ some n
      → t ≢ crc16_ax25_t
      → (valid : Bool) × (check_crc_of t pdu k ≡ some valid)
  unfolding check_crc_of crc_size
  Crc-cases crc_none pdu k n e ne = (_, refl)
  Crc-cases crc16_ccitt_t pdu k n e ne = (_, refl)
  Crc-cases crc16_aug_ccitt_t pdu k n e ne = (_, refl)
  Crc-cases crc16_ccitt_reversed_t pdu k n e ne = (_, refl)
  Crc-cases crc16_ax25_t pdu k n e ne = absurd (ne refl)
  Crc-cases crc16_ibm_t pdu k n e ne = (_, refl)
  Crc-cases crc32_c_t pdu k n e ne = (_, refl)
  Crc-cases crc_methods_num pdu k n e ne = cc

  pub length-descrambled :
      (w : Option (Whitening lfsr)) (xs : List ℕ) → length (descrambled lfsr w xs).0 ≡ length xs
  unfolding descrambled descramble scramble
  length-descrambled none xs = refl
  length-descrambled (some w) xs = length-scramble_loop lfsr w.msb w.self_sync w.register xs

  pub payload_done-Goes :
      (c : Config) (i : ℕ) (d t : Decoder lfsr)
      → IsValid lfsr c d
      → t.len ≡ d.len
      → length t.pdu ≡ length d.pdu
      → Goes lfsr c (8 * i + 8) (8 * i + 8) (payload_done lfsr c i t)
  unfolding payload_done
  payload_done-Goes c i d t v same size =
      let k : ℕ = c.length_field_len in
      let (n, known, more) = v.crc in
      let body : List ℕ = take t.len (drop k t.pdu) in
      let (out, s) = descrambled lfsr t.descrambler body in
      let pdu : List ℕ = take k t.pdu ++ (out ++ drop (k + t.len) t.pdu) in
      let room = v.room in
      let kept : length pdu ≡ length d.pdu = omega (
        arith,
        length-append (take k t.pdu) (out ++ drop (k + t.len) t.pdu),
        length-append out (drop (k + t.len) t.pdu),
        length-take k t.pdu (omega arith),
        length-take t.len (drop k t.pdu) (omega (arith, length-drop k t.pdu)),
        length-descrambled t.descrambler body,
        length-drop (k + t.len) t.pdu,
      ) in
      let (valid, checked) = Crc-cases c.crc pdu (t.len + k) n known v.checked in
      rw (checked, known, payload_done)
        (
          IsValid-reset lfsr c d (record t { descrambler = s; pdu = pdu }) v same kept,
          omega arith,
          omega arith,
        )
