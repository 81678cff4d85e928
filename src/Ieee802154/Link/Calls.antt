-- ===== src/Ieee802154/Link/Calls.antt =====
-- The two calls of `decode` behind the synchronisation word: the length, and the payload.
use satnogs_gr_oot.Base.{written, take-written}
use satnogs_gr_oot.Base.{ℕ, suc, ◌+◌, ◌*◌, ◌^◌, ◌≤◌, ◌<◌, ◌≡◌, ◌≢◌, refl, ap, ap₂, ◌∙◌, true}
use satnogs_gr_oot.Base.{Option, none, some, List, [], ◌∷◌, ◌++◌, arith, if◌then◌else◌, length}
use satnogs_gr_oot.Base.{get_or, set, take, IsBytes}
use satnogs_gr_oot.Bytes.{join_msb}
use satnogs_gr_oot.Bytes.Laws.{join-msb_bits}
use satnogs_gr_oot.Crc.{crc16_aug_ccitt_t, crc16_ax25_t, crc_size, append, Endian}
use satnogs_gr_oot.Whitening.{Lfsr, Whitening}
use satnogs_gr_oot.Whitening.Laws.{frame_bits}
use satnogs_gr_oot.Ieee802154.Decoder.{decoding_generic_frame_len, decoding_payload, Config, Status}
use satnogs_gr_oot.Ieee802154.Decoder.{Decoder}
use satnogs_gr_oot.Ieee802154.Decoder.Run.{descrambled, decode_frame_len, decode_in, decode}
use satnogs_gr_oot.Ieee802154.Decoder.Run.{without_frame}
use satnogs_gr_oot.Ieee802154.Decoder.Payload.{decode_payload-written}
use satnogs_gr_oot.Ieee802154.Decoder.Delivery.{Delivers, payload_done-Delivers}

module _ (lfsr : Lfsr) where
  -- The call for the length field.
  pub length_read :
      (c : Config) (d : Decoder lfsr) (first x n : ℕ) (v : Option (Whitening lfsr))
      → d.state ≡ decoding_generic_frame_len
      → c.var_len ≡ true
      → crc_size c.crc ≡ some n
      → first < 2 ^ 8
      → descrambled lfsr d.descrambler (first ∷ []) ≡ (x ∷ [], v)
      → decode lfsr c d (frame_bits true (first ∷ []))
        ≡ some (
          record d {
            descrambler = v;
            len = x + n;
            state = decoding_payload;
            cnt = 1;
            pdu = set d.pdu 0 x;
            nitems_read = d.nitems_read + 8;
          },
          record { consumed = 8; frame = none },
        )
  unfolding decode decode_in decode_frame_len
  length_read c d first x n v state var known small read =
      let bits : List ℕ = frame_bits true (first ∷ []) in
      let out : descrambled lfsr d.descrambler (join_msb (take 8 bits) ∷ []) ≡ (x ∷ [], v) =
        ap (λ b. descrambled lfsr d.descrambler (b ∷ [])) (join-msb_bits first small) ∙ read in
      let done : decode_frame_len lfsr c bits d
          ≡ some (
            record d {
              descrambler = v;
              len = x + n;
              pdu = set d.pdu 0 x;
              cnt = 1;
              state = decoding_payload;
            },
            8,
          ) =
        ap
          (λ (r : List ℕ × Option (Whitening lfsr)).
            let b = get_or r.0 0 0 in
            elim (crc_size c.crc) [
              | none ↦ none
              | some m ↦ some (
                record d {
                  descrambler = r.1;
                  len = b + m;
                  pdu = set d.pdu 0 b;
                  cnt = 1;
                  state = decoding_payload;
                },
                8,
              )
            ])
          out
        ∙ rw known refl in
      let inside : decode_in lfsr decoding_generic_frame_len c d bits
          ≡ some (
              without_frame lfsr (
                record d {
                  descrambler = v;
                  len = x + n;
                  pdu = set d.pdu 0 x;
                  cnt = 1;
                  state = decoding_payload;
                },
                8,
              )) =
        ap
          (λ b.
            if b
            then (elim (decode_frame_len lfsr c bits d) [
              | none ↦ none
              | some r ↦ some (without_frame lfsr r)
            ])
            else none)
          var
        ∙ ap
            (λ (o : Option (Decoder lfsr × ℕ)). elim o [
              | none ↦ none
              | some r ↦ some (without_frame lfsr r)
            ])
            done in
      ap
        (λ (o : Option (Decoder lfsr × Status)). elim o [
          | none ↦ none
          | some (t, s) ↦ some (record t { nitems_read = t.nitems_read + s.consumed }, s)
        ])
        (ap (λ z. decode_in lfsr z c d bits) state ∙ inside)

  -- The call for a whole payload.
  pub payload_read :
      (host : Endian) (c : Config) (t : Decoder lfsr) (front pdu fcs : List ℕ) (y n : ℕ)
      (ys : List ℕ) (s : Option (Whitening lfsr))
      → t.state ≡ decoding_payload
      → t.cnt ≡ c.length_field_len
      → length front ≡ c.length_field_len
      → take c.length_field_len t.pdu ≡ front
      → suc (length ys) ≡ t.len
      → c.length_field_len + t.len ≤ length t.pdu
      → IsBytes (y ∷ ys)
      → descrambled lfsr t.descrambler (y ∷ ys) ≡ (pdu ++ fcs, s)
      → append host c.crc (front ++ pdu) true ≡ some fcs
      → crc_size c.crc ≡ some n
      → IsBytes (front ++ pdu)
      → c.crc ≢ crc16_aug_ccitt_t
      → c.crc ≢ crc16_ax25_t
      → t.len ≡ length pdu + length fcs
      → Delivers lfsr pdu (8 * length (y ∷ ys)) (decode lfsr c t (frame_bits true (y ∷ ys)))
  unfolding decode decode_in
  payload_read host c t front pdu fcs y n ys s state cnt ef fe el room bytes undone_as sum known h
        na nx size =
      let k : ℕ = c.length_field_len in
      let full : Decoder lfsr = record t { pdu = written t.pdu t.cnt (y ∷ ys); cnt = t.len + k } in
      let held : take (k + t.len) full.pdu ≡ front ++ (y ∷ ys) =
        ap₂ (λ (m j : ℕ). take m (written t.pdu j (y ∷ ys)))
          (let z : k + t.len ≡ k + suc (length ys) = omega arith in z) cnt
        ∙ take-written t.pdu k (y ∷ ys) (omega arith)
        ∙ ap (λ w. w ++ (y ∷ ys)) fe in
      let (u, f, done, pdu_is, valid) =
        payload_done-Delivers lfsr host c (0 + length ys) n full front pdu fcs (y ∷ ys) s ef el held
          undone_as sum known h na nx size in
      let status : Status = record { consumed = (0 + length ys + 1) * 8; frame = some f } in
      (
        record u { nitems_read = u.nitems_read + 8 * length (y ∷ ys) },
        f,
        ap
              (λ (o : Option (Decoder lfsr × Status)). elim o [
                | none ↦ none
                | some (t, s) ↦ some (record t { nitems_read = t.nitems_read + s.consumed }, s)
              ])
              (ap (λ z. decode_in lfsr z c t (frame_bits true (y ∷ ys))) state
                ∙ decode_payload-written lfsr c y ys 0 t bytes (omega arith)
                ∙ done)
            ∙ ap
                (λ (m : ℕ). some (
                  record u { nitems_read = u.nitems_read + m },
                  record { consumed = m; frame = some f },
                ))
                (let z : (0 + length ys + 1) * 8 ≡ 8 * suc (length ys) = omega arith in z),
        pdu_is,
        valid,
      )
