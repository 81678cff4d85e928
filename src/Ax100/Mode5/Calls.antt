-- ===== src/Ax100/Mode5/Calls.antt =====
-- What two calls of `decode` of `ax100_mode5` do behind the synchronisation word.
use satnogs_gr_oot.Base.{
  ℕ, ◌+◌, ◌*◌, ◌^◌, ◌≤◌, ◌<◌, ◌≡◌, ◌++◌, ◌∷◌, [], List, Option, none, some, true, false,
}
use satnogs_gr_oot.Base.{refl, ap, ◌∙◌, arith, length, take, take-written, written, IsBytes}
use satnogs_gr_oot.Crc.{append, Endian}
use satnogs_gr_oot.ReedSolomon.{ReedSolomon}
use satnogs_gr_oot.Whitening.{Lfsr, Whitening}
use satnogs_gr_oot.Whitening.Laws.{frame_bits}
use satnogs_gr_oot.Ieee802154.Decoder.Run.{descrambled}
use satnogs_gr_oot.Ax100.Mode5.{Config, Decoder, Frame, Outcome, ok, fault, searching}
use satnogs_gr_oot.Ax100.Mode5.Run.{counted, payload_done, decode_in, decode}
use satnogs_gr_oot.Ax100.Mode5.Payload.{
  length_bytes, decode_payload-written, decode_payload-endless,
}
use satnogs_gr_oot.Ax100.Mode5.Delivery.{Known, synced, promised, length_read, payload_delivered}

module _ (lfsr : Lfsr) (rs : ReedSolomon) where
  -- What a call with the bits of `wire` does that delivers `pdu` and is ready for the next frame.
  abbrev pub Delivers : List ℕ → ℕ → Outcome lfsr → Type 0
  Delivers pdu n r =
      (u : Decoder lfsr) × (f : Frame) × (r ≡ ok u (record { consumed = n; frame = some f }))
      × (u.state ≡ searching)
      × (f.pdu ≡ pdu)
      × (f.crc_valid ≡ true)

  -- The call for the payload.
  payload_call :
      (host : Endian) (c : Config) (d : Decoder lfsr) (buffer pdu fcs wire : List ℕ) (n : ℕ)
      (s : Option (Whitening lfsr))
      → c.rs ≡ false
      → Known c.crc
      → descrambled lfsr d.descrambler wire ≡ (pdu ++ fcs, s)
      → append host c.crc pdu true ≡ some fcs
      → IsBytes pdu
      → IsBytes wire
      → length wire ≡ n
      → length pdu + length fcs ≡ n
      → 0 < n
      → n < 2 ^ 8
      → n ≤ length buffer
      → Delivers pdu (n * 8) (decode lfsr rs c (promised lfsr n buffer d) (frame_bits true wire))
  unfolding decode decode_in
  payload_call host c d buffer pdu fcs [] n s plain known read sum h hw whole size some_bytes small
        room =
      absurd (omega arith)
  payload_call host c d buffer pdu fcs (x ∷ xs) n s plain known read sum h hw whole size some_bytes
        small room =
      let e : Decoder lfsr = promised lfsr n buffer d in
      let t : Decoder lfsr = record e { pdu = written buffer 0 (x ∷ xs); cnt = n } in
      let (u, f, run, searching_again, body, valid) =
        payload_delivered lfsr rs host c (length xs) t pdu fcs (x ∷ xs) s plain known
          (ap (λ (k : ℕ). take k (written buffer 0 (x ∷ xs)))
              (let z : n ≡ 0 + length (x ∷ xs) = omega arith in z)
            ∙ take-written buffer 0 (x ∷ xs) (omega arith))
          read sum h (omega arith) small in
      (
        record u { nitems_read = u.nitems_read + n * 8 },
        f,
        ap (counted lfsr rs) (
              decode_payload-written lfsr rs c x xs 0 e hw (omega arith) (omega arith)
              ∙ ap (λ (k : ℕ). payload_done lfsr rs c k t)
                  (let z : 0 + length xs ≡ length xs = omega arith in z)
              ∙ run)
            ∙ ap
                (λ (k : ℕ).
                  ok (record u { nitems_read = u.nitems_read + k })
                    (record { consumed = k; frame = some f }))
                (let z : (length xs + 1) * 8 ≡ n * 8 = omega arith in z),
        searching_again,
        body,
        valid,
      )

  -- Without Reed-Solomon, a decoder with a length field of three bytes that has found the
  -- synchronisation word delivers a frame of at least one and at most 255 bytes, checksum included,
  -- that its buffer and `max_frame_len` have room for: a call with the bits of the length in its
  -- Golay code is read in full, and one with the bits of the payload then delivers the PDU with a
  -- valid checksum, if the checksum is none or CRC-32C and the descrambler turns the payload into the
  -- PDU and its checksum; the decoder searches for the next preamble then.
  pub decode_calls-delivered :
      (host : Endian) (c : Config) (d : Decoder lfsr) (pdu fcs wire : List ℕ) (n : ℕ)
      (s : Option (Whitening lfsr))
      → c.length_field_len ≡ 3
      → c.max_frame_len ≤ length d.pdu
      → 3 ≤ length d.pdu
      → c.rs ≡ false
      → Known c.crc
      → descrambled lfsr d.descrambler wire ≡ (pdu ++ fcs, s)
      → append host c.crc pdu true ≡ some fcs
      → IsBytes pdu
      → IsBytes wire
      → length wire ≡ n
      → length pdu + length fcs ≡ n
      → 0 < n
      → n < 2 ^ 8
      → n ≤ c.max_frame_len
      → (e : Decoder lfsr) × (decode lfsr rs c (synced lfsr d) (frame_bits true (length_bytes n))
          ≡ ok e (record { consumed = 24; frame = none }))
        × Delivers pdu (n * 8) (decode lfsr rs c e (frame_bits true wire))
  decode_calls-delivered host c d pdu fcs wire n s three room room3 plain known read sum h hw whole
        size some_bytes small fits =
      let (buffer, same, run) = length_read lfsr rs c d n three room room3 small fits in
      (
        promised lfsr n buffer d,
        run,
        payload_call host c d buffer pdu fcs wire n s plain known read sum h hw whole size
            some_bytes small (omega arith),
      )

  -- A decoder with a length field of three bytes that has found the synchronisation word accepts
  -- the length 0 in its Golay code, and a following call with the bits of more bytes than its buffer
  -- has writes behind the end of the buffer.
  pub zero_length_overrun :
      (c : Config) (d : Decoder lfsr) (xs : List ℕ)
      → c.length_field_len ≡ 3
      → c.max_frame_len ≤ length d.pdu
      → 3 ≤ length d.pdu
      → IsBytes xs
      → length d.pdu < length xs
      → (e : Decoder lfsr) × (decode lfsr rs c (synced lfsr d) (frame_bits true (length_bytes 0))
          ≡ ok e (record { consumed = 24; frame = none }))
        × (decode lfsr rs c e (frame_bits true xs) ≡ fault)
  unfolding decode decode_in
  zero_length_overrun c d xs three room room3 h far =
      let (buffer, same, run) =
        length_read lfsr rs c d 0 three room room3 (omega arith) (omega arith) in
      (
        promised lfsr 0 buffer d,
        run,
        ap (counted lfsr rs) (
            decode_payload-endless lfsr rs c xs 0 (promised lfsr 0 buffer d) h refl (omega arith)
              (omega arith)),
      )
