-- ===== src/Ax100/Mode5/Frames.antt =====
-- The length field and the payload of `ax100_mode5` stay inside `d_pdu`, and keep what Safe states.
use satnogs_gr_oot.Base.{
  sym, ◌∙◌, subst, ℕ, ◌+◌, ◌-◌, ◌*◌, ◌^◌, ◌≤◌, ◌<◌, ◌≡◌, refl, inl, inr, List, [], ◌∷◌, arith, ◌⊎◌,
}
use satnogs_gr_oot.Base.{ltb, ◌==◌, Bool-cases, length, Option, none, some, bit_and, bit_and-le}
use satnogs_gr_oot.Base.{
  set, take, drop, replicate, length-set, length-append, length-replicate, length-drop, length-take,
  ◌++◌, Bool, true, false,
}
use satnogs_gr_oot.Bytes.{join_msb}
use satnogs_gr_oot.Crc.{crc32_c, CrcType, crc_size}
use satnogs_gr_oot.Whitening.{Lfsr}
use satnogs_gr_oot.Golay24.{decode24}
use satnogs_gr_oot.ReedSolomon.{ReedSolomon, padding}
use satnogs_gr_oot.Ieee802154.Decoder.Run.{descrambled, network32}
use satnogs_gr_oot.Ieee802154.Decoder.Parts.{length-descrambled}
use satnogs_gr_oot.Ax100.Size.{size_sub, size_sub-le}
use satnogs_gr_oot.Ax100.Mode5.{
  Config, Decoder, Outcome, ok, throws, fault, decoding_frame_len, decoding_payload,
}
use satnogs_gr_oot.Ax100.Mode5.Run.{
  check_crc, coded_len, length_done, decode_frame_len, report, after_rs, payload_done,
  decode_payload,
}
use satnogs_gr_oot.Ax100.Mode5.Delivery.{Known, cleared, if-true, if-false}
use satnogs_gr_oot.Ax100.Mode5.Payload.{
  after_length_byte, length_round, after_payload_byte, payload_round,
}
use satnogs_gr_oot.Ax100.Mode5.Safe.{
  IsValid, TooShort, IsValid-reset, IsValid-idle, least_len, checksum_bytes,
}

least-positive : (c : Config) → 1 ≤ least_len c
least-positive c = ground arith

crc_size-bytes : (t : CrcType) → Known t → crc_size t ≡ some (checksum_bytes t)
unfolding crc_size
crc_size-bytes t (inl e) = rw e
crc_size-bytes t (inr e) = rw e

checks : (t : CrcType) (pdu : List ℕ) (n : ℕ) → Known t → (b : Bool) × (check_crc t pdu n ≡ some b)
unfolding check_crc
checks t pdu n (inl e) = (true, rw e)
checks t pdu n (inr e) = (crc32_c (take (n - 4) pdu) == network32 pdu (n - 4), rw e)

module _ (lfsr : Lfsr) where
  -- A result: a decoder with `Q`, from `high` items at most.
  abbrev pub Goes : (Decoder lfsr → Type 0) → ℕ → Outcome lfsr → Type 0
  Goes Q high (ok u s) = Q u × (s.consumed ≤ high)
  Goes Q high throws = ⊥
  Goes Q high fault = ⊥

  -- A decoder that is valid, or in a payload that cannot end.
  abbrev pub Settled : Config → Decoder lfsr → Type 0
  Settled c u = IsValid lfsr c u ⊎ TooShort lfsr c u

  pub Goes-widen :
      (Q : Decoder lfsr → Type 0) (low high : ℕ) (r : Outcome lfsr)
      → low ≤ high
      → Goes Q low r
      → Goes Q high r
  Goes-widen Q low high (ok u s) h (v, l) = (v, omega arith)
  Goes-widen Q low high throws h g = g
  Goes-widen Q low high fault h g = g

  length_done-Goes :
      (c : Config) (i : ℕ) (d t : Decoder lfsr) (o : Option ℕ)
      → IsValid lfsr c d
      → length t.pdu ≡ length d.pdu
      → Goes (Settled c) ((i + 1) * 8) (length_done lfsr c i t o)
  unfolding length_done
  length_done-Goes c i d t none v size = (inl (IsValid-reset lfsr c d t v size), omega arith)
  length_done-Goes c i d t (some w) v size =
      let n : ℕ = bit_and w 0xFF in
      let small = bit_and-le w 0xFF in
      elim (Bool-cases (ltb c.max_frame_len n)) [
        | inl long ↦
            rw (long, length_done)
              (inl (IsValid-reset lfsr c d (record t { len = n }) v size), omega arith)
        | inr fits ↦
            rw (fits, length_done)
              (
                elim (Bool-cases (ltb n (least_len c))) [
                  | inl short ↦ inr (refl, ground arith)
                  | inr long ↦
                      let kept : length (cleared lfsr c t.pdu) ≡ length d.pdu = omega (
                        arith,
                        v.limit,
                        length-append (replicate c.max_frame_len 0) (drop c.max_frame_len t.pdu),
                        length-replicate {A = ℕ} c.max_frame_len 0,
                        length-drop c.max_frame_len t.pdu,
                      ) in
                      let enough : least_len c ≤ n = ground arith in
                      inl (record {
                        field = v.field;
                        known = v.known;
                        limit = omega (arith, v.limit, kept);
                        some_room = omega (arith, v.some_room, kept);
                        in_field = λ e. cc;
                        waiting = λ e. omega (arith, enough, least-positive c);
                        fits = λ e. (ground (arith, v.limit, kept), omega arith);
                        enough = λ e. enough;
                      })
                ],
                omega arith,
              )
      ]

  pub decode_frame_len-Goes :
      (c : Config) (xs : List ℕ) (i : ℕ) (d : Decoder lfsr)
      → IsValid lfsr c d
      → d.state ≡ decoding_frame_len
      → Goes (Settled c) (8 * i + length xs) (decode_frame_len lfsr c xs i d)
  unfolding decode_frame_len after_length_byte
  decode_frame_len-Goes c [] i d v e = (inl v, omega arith)
  decode_frame_len-Goes c (a ∷ []) i d v e = (inl v, omega arith)
  decode_frame_len-Goes c (a ∷ b ∷ []) i d v e = (inl v, omega arith)
  decode_frame_len-Goes c (a ∷ b ∷ p ∷ []) i d v e = (inl v, omega arith)
  decode_frame_len-Goes c (a ∷ b ∷ p ∷ q ∷ []) i d v e = (inl v, omega arith)
  decode_frame_len-Goes c (a ∷ b ∷ p ∷ q ∷ r ∷ []) i d v e = (inl v, omega arith)
  decode_frame_len-Goes c (a ∷ b ∷ p ∷ q ∷ r ∷ s ∷ []) i d v e = (inl v, omega arith)
  decode_frame_len-Goes c (a ∷ b ∷ p ∷ q ∷ r ∷ s ∷ u ∷ []) i d v e = (inl v, omega arith)
  decode_frame_len-Goes c (a ∷ b ∷ p ∷ q ∷ r ∷ s ∷ u ∷ w ∷ xs) i d v e =
      let byte : ℕ = join_msb (a ∷ b ∷ p ∷ q ∷ r ∷ s ∷ u ∷ w ∷ []) in
      let t = record d { pdu = set d.pdu d.cnt byte; cnt = d.cnt + 1 } in
      let same = length-set d.pdu d.cnt byte in
      let early = v.in_field e in
      let room : d.cnt < length d.pdu = omega (arith, v.some_room, early) in
      subst (Goes (Settled c) (8 * i + length (a ∷ b ∷ p ∷ q ∷ r ∷ s ∷ u ∷ w ∷ xs)))
        (sym (length_round lfsr c a b p q r s u w byte xs i d refl room))
        (elim (Bool-cases (t.cnt == c.length_field_len)) [
          | inl whole ↦
              rw (whole, after_length_byte)
                (Goes-widen _ _ _ _ (omega arith)
                  (length_done-Goes c i d t (decode24 (coded_len t.pdu)) v same))
          | inr more ↦
              rw (more, after_length_byte)
                (Goes-widen _ _ _ _ (omega arith) (
                  decode_frame_len-Goes c xs (i + 1) t
                    (IsValid-idle lfsr c d t v same (λ h. cc) (λ h. ground (arith, v.field))) e))
        ])

  report-Goes :
      (c : Config) (i : ℕ) (d t : Decoder lfsr) (corrected : Option ℕ)
      → IsValid lfsr c d
      → length t.pdu ≡ length d.pdu
      → checksum_bytes c.crc ≤ t.len
      → t.len ≤ length t.pdu
      → t.len < 2 ^ 8
      → Goes (IsValid lfsr c) ((i + 1) * 8) (report lfsr c i t corrected)
  unfolding report
  report-Goes c i d t corrected v size enough room small =
      let n : ℕ = checksum_bytes c.crc in
      let known = crc_size-bytes c.crc v.known in
      let body : size_sub t.len n ≡ t.len - n = size_sub-le t.len n enough (omega arith) in
      let inside : ltb (length t.pdu) (size_sub t.len n) ≡ false = ground (arith, body, room) in
      let (valid, checked) = checks c.crc t.pdu t.len v.known in
      rw (known, inside, checked, report) (IsValid-reset lfsr c d t v size, omega arith)

  module _ (rs : ReedSolomon) where
    open rs use {decode_rs_8, in_place}

    after_rs-Goes :
        (c : Config) (i : ℕ) (d t : Decoder lfsr) (symbols : List ℕ) (ret : Option ℕ)
        → IsValid lfsr c d
        → length t.pdu ≡ length d.pdu
        → 32 + checksum_bytes c.crc ≤ t.len
        → t.len ≤ length t.pdu
        → t.len < 2 ^ 8
        → length symbols ≡ t.len
        → Goes (IsValid lfsr c) ((i + 1) * 8) (after_rs lfsr c i t (symbols, ret))
    unfolding after_rs
    after_rs-Goes c i d t symbols ret v size enough room small whole =
        let u : Decoder lfsr = record t {
          pdu = symbols ++ drop t.len t.pdu;
          len = size_sub t.len 32;
        } in
        let kept : length u.pdu ≡ length d.pdu =
          omega (arith, length-append symbols (drop t.len t.pdu), length-drop t.len t.pdu) in
        let rest : u.len ≡ t.len - 32 = size_sub-le t.len 32 (omega arith) (omega arith) in
        go kept rest ret
      where
        go :
            length (symbols ++ drop t.len t.pdu) ≡ length d.pdu
            → size_sub t.len 32 ≡ t.len - 32
            → (ret : Option ℕ)
            → Goes (IsValid lfsr c) ((i + 1) * 8) (after_rs lfsr c i t (symbols, ret))
        go kept rest none = (
          IsValid-reset lfsr c d
              (record t { pdu = symbols ++ drop t.len t.pdu; len = size_sub t.len 32 }) v kept,
          omega arith,
        )
        go kept rest (some n) =
            report-Goes c i d
              (record t { pdu = symbols ++ drop t.len t.pdu; len = size_sub t.len 32 }) (some n) v
              kept (omega arith) (omega arith) (omega arith)

    payload_done-Goes :
        (c : Config) (i : ℕ) (d t : Decoder lfsr)
        → IsValid lfsr c d
        → length t.pdu ≡ length d.pdu
        → least_len c ≤ t.len
        → t.len ≤ length t.pdu
        → t.len < 2 ^ 8
        → Goes (IsValid lfsr c) ((i + 1) * 8) (payload_done lfsr rs c i t)
    unfolding payload_done
    payload_done-Goes c i d t v size enough room small =
        let (out, s) = descrambled lfsr t.descrambler (take t.len t.pdu) in
        let pdu : List ℕ = out ++ drop t.len t.pdu in
        let u : Decoder lfsr = record t { descrambler = s; pdu = pdu } in
        let kept : length pdu ≡ length d.pdu = omega (
          arith,
          length-append out (drop t.len t.pdu),
          length-drop t.len t.pdu,
          length-descrambled lfsr t.descrambler (take t.len t.pdu),
          length-take t.len t.pdu room,
        ) in
        elim (Bool-cases c.rs) [
          | inl coded ↦
              let (symbols, ret) = decode_rs_8 (take t.len pdu) none (padding t.len) in
              let whole : length symbols ≡ t.len =
                in_place (take t.len pdu) none (padding t.len)
                ∙ length-take t.len pdu (omega arith) in
              subst (Goes (IsValid lfsr c) ((i + 1) * 8)) (sym (if-true c.rs _ _ coded))
                (after_rs-Goes c i d u symbols ret v kept (ground arith) (omega arith) small whole)
          | inr plain ↦
              subst (Goes (IsValid lfsr c) ((i + 1) * 8)) (sym (if-false c.rs _ _ plain))
                (report-Goes c i d u none v kept (ground arith) (omega arith) small)
        ]

    pub decode_payload-Goes :
        (c : Config) (xs : List ℕ) (i : ℕ) (d : Decoder lfsr)
        → IsValid lfsr c d
        → d.state ≡ decoding_payload
        → Goes (IsValid lfsr c) (8 * i + length xs) (decode_payload lfsr rs c xs i d)
    unfolding decode_payload after_payload_byte
    decode_payload-Goes c [] i d v e = (v, omega arith)
    decode_payload-Goes c (a ∷ []) i d v e = (v, omega arith)
    decode_payload-Goes c (a ∷ b ∷ []) i d v e = (v, omega arith)
    decode_payload-Goes c (a ∷ b ∷ p ∷ []) i d v e = (v, omega arith)
    decode_payload-Goes c (a ∷ b ∷ p ∷ q ∷ []) i d v e = (v, omega arith)
    decode_payload-Goes c (a ∷ b ∷ p ∷ q ∷ r ∷ []) i d v e = (v, omega arith)
    decode_payload-Goes c (a ∷ b ∷ p ∷ q ∷ r ∷ s ∷ []) i d v e = (v, omega arith)
    decode_payload-Goes c (a ∷ b ∷ p ∷ q ∷ r ∷ s ∷ u ∷ []) i d v e = (v, omega arith)
    decode_payload-Goes c (a ∷ b ∷ p ∷ q ∷ r ∷ s ∷ u ∷ w ∷ xs) i d v e =
        let byte : ℕ = join_msb (a ∷ b ∷ p ∷ q ∷ r ∷ s ∷ u ∷ w ∷ []) in
        let t = record d { pdu = set d.pdu d.cnt byte; cnt = d.cnt + 1 } in
        let same = length-set d.pdu d.cnt byte in
        let early = v.waiting e in
        let (fits, small) = v.fits e in
        subst (Goes (IsValid lfsr c) (8 * i + length (a ∷ b ∷ p ∷ q ∷ r ∷ s ∷ u ∷ w ∷ xs)))
          (sym (payload_round lfsr rs c a b p q r s u w byte xs i d refl (omega arith)))
          (elim (Bool-cases (t.cnt == t.len)) [
            | inl whole ↦
                rw (whole, after_payload_byte)
                  (Goes-widen _ _ _ _ (omega arith)
                    (payload_done-Goes c i d t v same (v.enough e) (omega arith) small))
            | inr more ↦
                rw (more, after_payload_byte)
                  (Goes-widen _ _ _ _ (omega arith) (
                    decode_payload-Goes c xs (i + 1) t
                      (record {
                        field = v.field;
                        known = v.known;
                        limit = omega (arith, v.limit, same);
                        some_room = omega (arith, v.some_room, same);
                        in_field = λ h. cc;
                        waiting = λ h. ground arith;
                        fits = λ h. (omega arith, small);
                        enough = λ h. v.enough e;
                      })
                      e))
          ])
