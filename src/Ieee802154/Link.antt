-- ===== src/Ieee802154/Link.antt =====
-- What `ieee802_15_4_encoder::encode` puts behind the synchronisation word, given to
-- `ieee802_15_4_variant_decoder::decode` once it has found that word.
pub mod Calls
pub mod Undone
use mathlib.Core.Option
use satnogs_gr_oot.Base.{ℕ, zero, suc, ◌+◌, ◌-◌, ◌*◌, ◌%◌, ◌^◌, ◌≤◌, ◌<◌, ◌≡◌, ◌≢◌, refl, sym, ap}
use satnogs_gr_oot.Base.{ap₂, ◌∙◌, subst, inl, inr, Bool, true, false, Option, none, some, List, []}
use satnogs_gr_oot.Base.{◌∷◌, ◌++◌, arith, ltb, if◌then◌else◌, Option-cases, length, take, set}
use satnogs_gr_oot.Base.{length-append, length-set, IsBytes, All-append}
use satnogs_gr_oot.Crc.{crc16_aug_ccitt_t, crc_size, append, Endian}
use satnogs_gr_oot.Crc.Append.{crc_size-append}
use satnogs_gr_oot.Whitening.{Lfsr, Whitening}
use satnogs_gr_oot.Whitening.Laws.{frame_bits}
use satnogs_gr_oot.Ieee802154.Encoder.{Ieee802154Encoder, counted, scrambled, encode_pdu}
use satnogs_gr_oot.Ieee802154.Decoder.{decoding_generic_frame_len, decoding_payload, Config, Frame}
use satnogs_gr_oot.Ieee802154.Decoder.{Status, Decoder}
use satnogs_gr_oot.Ieee802154.Decoder.Run.{decode, descrambled}
use satnogs_gr_oot.Ieee802154.Decoder.Safe.{IsValid}
use satnogs_gr_oot.Ieee802154.Decoder.Checked.{append-IsBytes}
use satnogs_gr_oot.Ieee802154.Decoder.Delivery.{Delivers, fcs_size}
use satnogs_gr_oot.Ieee802154.Link.Calls.{length_read, payload_read}
use satnogs_gr_oot.Ieee802154.Link.Undone.{Matched, undone}

fcs_exists :
    (host : Endian) (c : Config) (body : List ℕ) (n : ℕ)
    → crc_size c.crc ≡ some n
    → (fcs : List ℕ) × (append host c.crc body true ≡ some fcs)
fcs_exists host c body n known = elim (Option-cases (append host c.crc body true)) [
  | inl e ↦
      let z : none ≡ some n =
        ap (Option.map length) (sym e) ∙ crc_size-append host c.crc body true ∙ known in
      absurd cc
  | inr r ↦ r
]

first_set : (xs : List ℕ) (x : ℕ) → 1 ≤ length xs → take 1 (set xs 0 x) ≡ x ∷ []
first_set [] x h = absurd (omega arith)
first_set (y ∷ xs) x h = refl

cons_of : (xs : List ℕ) → 1 ≤ length xs → (y : ℕ) × (ys : List ℕ) × (xs ≡ y ∷ ys)
cons_of [] h = absurd (omega arith)
cons_of (y ∷ ys) h = (y, ys, refl)

module _ (lfsr : Lfsr) where
  encode_pdu-counted :
      (host : Endian) (e : Ieee802154Encoder lfsr) (pdu fcs : List ℕ)
      → length pdu ≤ 255
      → e.var_len ≡ true
      → append host e.crc (counted true pdu) true ≡ some fcs
      → let (payload, s) = scrambled lfsr e.scrambler (counted true pdu ++ fcs) in
        encode_pdu lfsr host e pdu ≡ some (e.head ++ payload, record e { scrambler = s })
  unfolding encode_pdu
  encode_pdu-counted host e pdu fcs small var sum =
      let fits : ltb 255 (length pdu) ≡ false = ground arith in
      rw fits (
        ap
          (λ b. elim (append host e.crc (counted b pdu) true) [
            | none ↦ none
            | some w ↦
                let (payload, s) = scrambled lfsr e.scrambler (counted b pdu ++ w) in
                some (e.head ++ payload, record e { scrambler = s })
          ])
          var
        ∙ ap
            (λ (o : Option (List ℕ)). elim o [
              | none ↦ none
              | some w ↦
                  let (payload, s) = scrambled lfsr e.scrambler (counted true pdu ++ w) in
                  some (e.head ++ payload, record e { scrambler = s })
            ])
            sum)

  -- A PDU of at most 255 bytes that the encoder sends with its length comes through a valid decoder
  -- that has found the synchronisation word, if both have the same checksum, other than
  -- `CRC16_AUG_CCITT`, and matching registers: behind the preamble and the synchronisation word the
  -- encoder puts bytes of which the decoder reads the first in one call, and from the others the next
  -- call delivers the PDU with a valid checksum.
  pub decode_calls-encode_pdu :
      (host : Endian) (c : Config) (d : Decoder lfsr) (e : Ieee802154Encoder lfsr) (pdu : List ℕ)
      → IsValid lfsr c d
      → d.state ≡ decoding_generic_frame_len
      → e.var_len ≡ true
      → e.crc ≡ c.crc
      → c.crc ≢ crc16_aug_ccitt_t
      → Matched lfsr e.scrambler d.descrambler
      → length pdu ≤ 255
      → IsBytes pdu
      → (first : ℕ) × (wire : List ℕ) × (s : Ieee802154Encoder lfsr) × (t : Decoder lfsr)
        × (encode_pdu lfsr host e pdu ≡ some (e.head ++ (first ∷ wire), s))
        × (decode lfsr c d (frame_bits true (first ∷ []))
            ≡ some (t, record { consumed = 8; frame = none }))
        × Delivers lfsr pdu (8 * length wire) (decode lfsr c t (frame_bits true wire))
  unfolding counted
  decode_calls-encode_pdu host c d e pdu v state sends same na matched small h =
      let var = v.variable state in
      let (n, known, more) = v.crc in
      let (some_crc, room) = more var in
      let lf : c.length_field_len ≡ 1 = v.field ∙ ap (λ b. if b then 1 else 0) var in
      let x : ℕ = length pdu % 2 ^ 8 in
      let (fcs, sum) = fcs_exists host c (x ∷ pdu) n known in
      let body : IsBytes (x ∷ pdu) = (omega arith, h) in
      let behind = append-IsBytes host c.crc (x ∷ pdu) fcs sum in
      let size = fcs_size host c.crc (x ∷ pdu) fcs n sum known in
      let (first, wire, w, u, sent, one, rest, bytes, long) =
        undone lfsr e.scrambler d.descrambler x (pdu ++ fcs) matched
          (body.0, All-append (λ b. b < 2 ^ 8) pdu fcs h behind) in
      let (y, ys, cut) = cons_of wire (omega (arith, length-append pdu fcs)) in
      let (payload, s) = scrambled lfsr e.scrambler (x ∷ (pdu ++ fcs)) in
      let t : Decoder lfsr = record d {
        descrambler = w;
        len = x + n;
        state = decoding_payload;
        cnt = 1;
        pdu = set d.pdu 0 x;
        nitems_read = d.nitems_read + 8;
      } in
      (
        first,
        wire,
        record e { scrambler = s },
        t,
        encode_pdu-counted host e pdu fcs small sends
              (ap (λ k. append host k (x ∷ pdu) true) same ∙ sum)
            ∙ ap (λ z. some (e.head ++ z, record e { scrambler = s })) sent,
        length_read lfsr c d first x n w state var known bytes.0 one,
        subst (λ z. Delivers lfsr pdu (8 * length z) (decode lfsr c t (frame_bits true z)))
            (sym cut)
            (payload_read lfsr host c t (x ∷ []) pdu fcs y n ys u refl (sym lf) (sym lf)
              (ap (λ k. take k (set d.pdu 0 x)) lf ∙ first_set d.pdu x (omega arith))
              (omega (arith, ap length cut, length-append pdu fcs))
              (omega (arith, length-set d.pdu 0 x)) (subst IsBytes cut bytes.1)
              (ap (descrambled lfsr w) (sym cut) ∙ rest) sum known body na v.checked (omega arith)),
      )
