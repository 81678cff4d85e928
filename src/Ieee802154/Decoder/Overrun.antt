-- ===== src/Ieee802154/Decoder/Overrun.antt =====
-- A length field that says more than `d_pdu` can hold.
use satnogs_gr_oot.Base.{written, length-written}
use satnogs_gr_oot.Base.{ℕ, suc, ◌+◌, ◌*◌, ◌^◌, ◌<◌, ◌≡◌, refl, ap, ap₂, ◌∙◌, true, false, Option}
use satnogs_gr_oot.Base.{none, some, List, [], ◌∷◌, arith, ◌==◌, length, set, length-set, IsBytes}
use satnogs_gr_oot.Bytes.Laws.{join-msb_bits}
use satnogs_gr_oot.Crc.{crc_size}
use satnogs_gr_oot.Whitening.{Lfsr}
use satnogs_gr_oot.Whitening.Laws.{frame_bits}
use satnogs_gr_oot.Ieee802154.Decoder.{decoding_generic_frame_len, decoding_payload, Config, Status}
use satnogs_gr_oot.Ieee802154.Decoder.{Decoder}
use satnogs_gr_oot.Ieee802154.Decoder.Run.{descrambled, decode_payload, decode_in, decode}
use satnogs_gr_oot.Ieee802154.Decoder.Payload.{next_round}
use satnogs_gr_oot.Ieee802154.Link.Calls.{length_read}

module _ (lfsr : Lfsr) where
  -- Bytes that do not make the payload whole.
  decode_payload-part :
      (c : Config) (xs : List ℕ) (i : ℕ) (d : Decoder lfsr)
      → IsBytes xs
      → d.cnt + length xs < d.len + c.length_field_len
      → decode_payload lfsr c (frame_bits true xs) i d
        ≡ some (
          record d { pdu = written d.pdu d.cnt xs; cnt = d.cnt + length xs },
          record { consumed = 8 * (i + length xs); frame = none },
        )
  unfolding decode_payload
  decode_payload-part c [] i d h less =
      ap₂ (λ (n m : ℕ). some (record d { cnt = n }, record { consumed = m; frame = none }))
        (let e : d.cnt ≡ d.cnt + 0 = omega arith in e)
        (let e : i * 8 ≡ 8 * (i + 0) = omega arith in e)
  decode_payload-part c (x ∷ xs) i d (p, h) less =
      let more : (d.cnt + 1 == d.len + c.length_field_len) ≡ false = ground arith in
      next_round lfsr c _ _ _ _ _ _ _ _ x (frame_bits true xs) i d (join-msb_bits x p) more
      ∙ decode_payload-part c xs (i + 1) (record d { pdu = set d.pdu d.cnt x; cnt = d.cnt + 1 }) h
          (omega arith)
      ∙ ap₂
          (λ (n m : ℕ). some (
            record d { pdu = written d.pdu d.cnt (x ∷ xs); cnt = n },
            record { consumed = m; frame = none },
          ))
          (let e : d.cnt + 1 + length xs ≡ d.cnt + suc (length xs) = omega arith in e)
          (let e : 8 * (i + 1 + length xs) ≡ 8 * (i + suc (length xs)) = omega arith in e)

  -- Without a descrambler, a length byte that promises more bytes with its checksum than `d_pdu` can
  -- hold makes the decoder write behind the end of `d_pdu`: after as many bytes as `d_pdu` has, it has
  -- counted one more than that, and it still goes on.
  pub decode_overrun :
      (c : Config) (d : Decoder lfsr) (b n : ℕ) (xs : List ℕ)
      → d.state ≡ decoding_generic_frame_len
      → c.var_len ≡ true
      → d.descrambler ≡ none
      → crc_size c.crc ≡ some n
      → b < 2 ^ 8
      → length d.pdu + 1 < b + n + c.length_field_len
      → IsBytes xs
      → length xs ≡ length d.pdu
      → (t : Decoder lfsr) × (u : Decoder lfsr) × (decode lfsr c d (frame_bits true (b ∷ []))
          ≡ some (t, record { consumed = 8; frame = none }))
        × (decode lfsr c t (frame_bits true xs)
            ≡ some (u, record { consumed = 8 * length xs; frame = none }))
        × (u.cnt ≡ length u.pdu + 1)
        × (u.state ≡ decoding_payload)
  unfolding decode decode_in descrambled
  decode_overrun c d b n xs state var plain known small promise h size =
      let read : descrambled lfsr d.descrambler (b ∷ []) ≡ (b ∷ [], none) =
        ap (λ w. descrambled lfsr w (b ∷ [])) plain in
      let t : Decoder lfsr = record d {
        descrambler = none;
        len = b + n;
        state = decoding_payload;
        cnt = 1;
        pdu = set d.pdu 0 b;
        nitems_read = d.nitems_read + 8;
      } in
      let part = decode_payload-part c xs 0 t h (omega arith) in
      (
        t,
        record t {
          pdu = written t.pdu 1 xs;
          cnt = 1 + length xs;
          nitems_read = t.nitems_read + 8 * (0 + length xs);
        },
        length_read lfsr c d b b n none state var known small read,
        ap
              (λ (o : Option (Decoder lfsr × Status)). elim o [
                | none ↦ none
                | some (v, s) ↦ some (record v { nitems_read = v.nitems_read + s.consumed }, s)
              ])
              part
            ∙ ap
                (λ (m : ℕ). some (
                  record t {
                    pdu = written t.pdu 1 xs;
                    cnt = 1 + length xs;
                    nitems_read = t.nitems_read + 8 * (0 + length xs);
                  },
                  record { consumed = 8 * m; frame = none },
                ))
                (let e : 0 + length xs ≡ length xs = omega arith in e),
        omega (arith, length-written t.pdu 1 xs, length-set d.pdu 0 b),
        refl,
      )
