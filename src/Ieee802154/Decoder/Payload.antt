-- ===== src/Ieee802154/Decoder/Payload.antt =====
-- The loop of `decode_payload` over the bits of bytes that make up the whole payload.
use satnogs_gr_oot.Base.{ℕ, suc, ◌+◌, ◌≡◌, ap, ap₂, ◌∙◌, true, false}
use satnogs_gr_oot.Base.{List, [], ◌∷◌, arith, ◌==◌, length, set}
use satnogs_gr_oot.Base.{IsBytes, written}
use satnogs_gr_oot.Bytes.{join_msb}
use satnogs_gr_oot.Bytes.Laws.{join-msb_bits}
use satnogs_gr_oot.Whitening.{Lfsr}
use satnogs_gr_oot.Whitening.Laws.{frame_bits}
use satnogs_gr_oot.Ieee802154.Decoder.{Config, Decoder}
use satnogs_gr_oot.Ieee802154.Decoder.Run.{payload_done, decode_payload}

module _ (lfsr : Lfsr) where
  -- One round of the loop, by whether it ends it.
  last_round :
      (c : Config) (b0 b1 b2 b3 b4 b5 b6 b7 x : ℕ) (rest : List ℕ) (i : ℕ) (d : Decoder lfsr)
      → join_msb (b0 ∷ b1 ∷ b2 ∷ b3 ∷ b4 ∷ b5 ∷ b6 ∷ b7 ∷ []) ≡ x
      → (d.cnt + 1 == d.len + c.length_field_len) ≡ true
      → decode_payload lfsr c (b0 ∷ b1 ∷ b2 ∷ b3 ∷ b4 ∷ b5 ∷ b6 ∷ b7 ∷ rest) i d
        ≡ payload_done lfsr c i (record d { pdu = set d.pdu d.cnt x; cnt = d.cnt + 1 })
  unfolding decode_payload
  last_round c b0 b1 b2 b3 b4 b5 b6 b7 x rest i d e last =
      rw (last, decode_payload)
        (ap
          (λ (b : ℕ). payload_done lfsr c i (record d { pdu = set d.pdu d.cnt b; cnt = d.cnt + 1 }))
          e)

  pub next_round :
      (c : Config) (b0 b1 b2 b3 b4 b5 b6 b7 x : ℕ) (rest : List ℕ) (i : ℕ) (d : Decoder lfsr)
      → join_msb (b0 ∷ b1 ∷ b2 ∷ b3 ∷ b4 ∷ b5 ∷ b6 ∷ b7 ∷ []) ≡ x
      → (d.cnt + 1 == d.len + c.length_field_len) ≡ false
      → decode_payload lfsr c (b0 ∷ b1 ∷ b2 ∷ b3 ∷ b4 ∷ b5 ∷ b6 ∷ b7 ∷ rest) i d
        ≡ decode_payload lfsr c rest (i + 1) (record d { pdu = set d.pdu d.cnt x; cnt = d.cnt + 1 })
  unfolding decode_payload
  next_round c b0 b1 b2 b3 b4 b5 b6 b7 x rest i d e more =
      rw (more, decode_payload)
        (ap
          (λ (b : ℕ).
            decode_payload lfsr c rest (i + 1)
              (record d { pdu = set d.pdu d.cnt b; cnt = d.cnt + 1 }))
          e)

  -- The last byte of the payload ends the loop.
  pub decode_payload-written :
      (c : Config) (x : ℕ) (xs : List ℕ) (i : ℕ) (d : Decoder lfsr)
      → IsBytes (x ∷ xs)
      → d.cnt + suc (length xs) ≡ d.len + c.length_field_len
      → decode_payload lfsr c (frame_bits true (x ∷ xs)) i d
        ≡ payload_done lfsr c
            (i + length xs)
            (record d { pdu = written d.pdu d.cnt (x ∷ xs); cnt = d.len + c.length_field_len })
  decode_payload-written c x [] i d (p, h) whole =
      let last : (d.cnt + 1 == d.len + c.length_field_len) ≡ true = ground arith in
      let end : d.cnt + 1 ≡ d.len + c.length_field_len = omega arith in
      last_round c _ _ _ _ _ _ _ _ x [] i d (join-msb_bits x p) last
      ∙ (ap₂ (λ (j n : ℕ). payload_done lfsr c j (record d { pdu = set d.pdu d.cnt x; cnt = n }))
          (let e : i ≡ i + 0 = omega arith in e) end)
  decode_payload-written c x (y ∷ xs) i d (p, h) whole =
      let more : (d.cnt + 1 == d.len + c.length_field_len) ≡ false = ground arith in
      next_round c _ _ _ _ _ _ _ _ x (frame_bits true (y ∷ xs)) i d (join-msb_bits x p) more
      ∙ (decode_payload-written c y xs (i + 1)
            (record d { pdu = set d.pdu d.cnt x; cnt = d.cnt + 1 }) h (omega arith)
          ∙ ap
              (λ (j : ℕ). payload_done lfsr c j (record d {
                pdu = written d.pdu d.cnt (x ∷ y ∷ xs);
                cnt = d.len + c.length_field_len;
              }))
              (let e : i + 1 + length xs ≡ i + suc (length xs) = omega arith in e))
