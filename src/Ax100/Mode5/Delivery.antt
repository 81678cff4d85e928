-- ===== src/Ax100/Mode5/Delivery.antt =====
-- The two calls of `decode` behind the synchronisation word of `ax100_mode5`: the length and the payload.
use satnogs_gr_oot.Base.{ℕ, ◌+◌, ◌-◌, ◌*◌, ◌/◌, ◌%◌, ◌^◌, ◌≤◌, ◌<◌, bit_and, ◌≡◌}
use satnogs_gr_oot.Base.{refl, ap, ap₂, ◌∙◌, subst, ◌⊎◌, inl, inr, Bool, true, false, Option, none}
use satnogs_gr_oot.Base.{some, List, [], ◌∷◌, ◌++◌, arith, ltb, if◌then◌else◌, append_assoc, length}
use satnogs_gr_oot.Base.{take, drop, replicate, take-append_length}
use satnogs_gr_oot.Base.{IsBytes, length-append, length-replicate, length-drop}
use satnogs_gr_oot.Crc.{CrcType, crc_none, crc32_c_t, crc_size, append, Endian}
use satnogs_gr_oot.Golay24.{encode12}
use satnogs_gr_oot.ReedSolomon.{ReedSolomon, padding}
use satnogs_gr_oot.Whitening.{Lfsr, Whitening}
use satnogs_gr_oot.Whitening.Laws.{frame_bits}
use satnogs_gr_oot.Ieee802154.Decoder.Run.{check_crc_of, descrambled}
use satnogs_gr_oot.Ieee802154.Decoder.Checked.{check_crc_of-append}
use satnogs_gr_oot.Ieee802154.Decoder.Delivery.{fcs_size}
use satnogs_gr_oot.Ax100.Size.{size_sub, size_sub-le}
use satnogs_gr_oot.Ax100.Mode5.{searching, decoding_frame_len, decoding_payload, Config, Frame}
use satnogs_gr_oot.Ax100.Mode5.{Decoder, Outcome, ok, reset}
use satnogs_gr_oot.Ax100.Mode5.Run.{check_crc, after_rs, length_done, decode_frame_len, report}
use satnogs_gr_oot.Ax100.Mode5.Run.{payload_done, decode_in, counted, decode}
use satnogs_gr_oot.Ax100.Mode5.Payload.{length_bytes, length_field, length_rounds}

-- The checksums that `check_crc` knows.
abbrev pub Known : CrcType → Type 0
Known t = (t ≡ crc_none) ⊎ (t ≡ crc32_c_t)

check_crc-append :
    (host : Endian) (t : CrcType) (body fcs rest : List ℕ)
    → Known t
    → append host t body true ≡ some fcs
    → IsBytes body
    → check_crc t (body ++ (fcs ++ rest)) (length body + length fcs) ≡ some true
unfolding check_crc check_crc_of
check_crc-append host t body fcs rest (inl e) sum h = rw e
check_crc-append host t body fcs rest (inr e) sum h = rw e (
    check_crc_of-append host crc32_c_t body fcs rest
      (subst (λ z. append host z body true ≡ some fcs) e sum) h (λ f. cc) (λ f. cc))

crc_size-Known : (t : CrcType) → Known t → (n : ℕ) × (crc_size t ≡ some n)
unfolding crc_size
crc_size-Known t (inl e) = (0, rw e)
crc_size-Known t (inr e) = (4, rw e)

pub if-true : {A : Type 0} (b : Bool) (x y : A) → b ≡ true → (if b then x else y) ≡ x
if-true true x y e = refl
if-true false x y e = cc

pub if-false : {A : Type 0} (b : Bool) (x y : A) → b ≡ false → (if b then x else y) ≡ y
if-false true x y e = cc
if-false false x y e = refl

three_or_more :
    (xs : List ℕ)
    → 3 ≤ length xs
    → (p0 : ℕ) × (p1 : ℕ) × (p2 : ℕ) × (ps : List ℕ) × (xs ≡ p0 ∷ p1 ∷ p2 ∷ ps)
three_or_more [] h = absurd (omega arith)
three_or_more (x ∷ []) h = absurd (omega arith)
three_or_more (x ∷ y ∷ []) h = absurd (omega arith)
three_or_more (x ∷ y ∷ z ∷ xs) h = (x, y, z, xs, refl)

module _ (lfsr : Lfsr) where
  -- What a call with the bits of the length field does to `d_pdu`.
  abbrev pub cleared : Config → List ℕ → List ℕ
  cleared c pdu = replicate c.max_frame_len 0 ++ drop c.max_frame_len pdu

  -- A decoder that has found the synchronisation word.
  abbrev pub synced : Decoder lfsr → Decoder lfsr
  synced d = record d { state = decoding_frame_len; cnt = 0 }

  -- The same behind the length field for length `n`, with `pdu` in the buffer.
  abbrev pub promised : ℕ → List ℕ → Decoder lfsr → Decoder lfsr
  promised n pdu d = record d {
    state = decoding_payload;
    cnt = 0;
    len = n;
    pdu = pdu;
    nitems_read = d.nitems_read + 24;
  }

  length_accepted :
      (c : Config) (i : ℕ) (t : Decoder lfsr) (w n : ℕ)
      → bit_and w 0xFF ≡ n
      → n ≤ c.max_frame_len
      → length_done lfsr c i t (some w)
        ≡ ok
            (record t { len = n; cnt = 0; state = decoding_payload; pdu = cleared c t.pdu })
            (record { consumed = (i + 1) * 8; frame = none })
  unfolding length_done
  length_accepted c i t w n e fits =
      let test : ltb c.max_frame_len (bit_and w 0xFF) ≡ false = ground arith in
      rw (test, length_done)
        (ap
          (λ (k : ℕ).
            ok (record t { len = k; cnt = 0; state = decoding_payload; pdu = cleared c t.pdu })
              (record { consumed = (i + 1) * 8; frame = none }))
          e)

  module _ (rs : ReedSolomon) where
    open rs use {decode_rs_8}

    -- The call for the length field, for a buffer of three bytes or more.
    pub length_read :
        (c : Config) (d : Decoder lfsr) (n : ℕ)
        → c.length_field_len ≡ 3
        → c.max_frame_len ≤ length d.pdu
        → 3 ≤ length d.pdu
        → n < 2 ^ 8
        → n ≤ c.max_frame_len
        → (pdu : List ℕ) × (length pdu ≡ length d.pdu)
          × (decode lfsr rs c (synced d) (frame_bits true (length_bytes n))
              ≡ ok (promised n pdu d) (record { consumed = 24; frame = none }))
    unfolding decode decode_in
    length_read c d n three room some_room small fits =
        let w : ℕ = encode12 n false in
        let x : ℕ = w / 2 ^ 16 in
        let y : ℕ = w / 2 ^ 8 % 2 ^ 8 in
        let z : ℕ = w % 2 ^ 8 in
        let bits = frame_bits true (x ∷ y ∷ z ∷ []) in
        let (lt, sent, low) = length_field n small in
        let (p0, p1, p2, ps, e) = three_or_more d.pdu some_room in
        let d' : Decoder lfsr = synced d in
        let t : Decoder lfsr = record d' { cnt = 3; pdu = x ∷ y ∷ z ∷ ps } in
        (
          cleared c t.pdu,
          omega (
            arith,
            length-append (replicate c.max_frame_len 0) (drop c.max_frame_len t.pdu),
            length-replicate {A = ℕ} c.max_frame_len 0,
            length-drop c.max_frame_len t.pdu,
            ap length e,
          ),
          ap (counted lfsr rs) (
              ap (λ xs. decode_frame_len lfsr c bits 0 (record d' { pdu = xs })) e
              ∙ length_rounds lfsr c p0 p1 p2 x y z ps d' three
                  (omega arith, (omega arith, (omega arith, tt)))
              ∙ ap (length_done lfsr c 2 t) sent
              ∙ length_accepted c 2 t w n low fits),
        )

    after_descrambled : Config → ℕ → Decoder lfsr → List ℕ × Option (Whitening lfsr) → Outcome lfsr
    after_descrambled c i d (out, s) =
        let t = record d { descrambler = s; pdu = out ++ drop d.len d.pdu } in
        if c.rs
        then after_rs lfsr c i t (decode_rs_8 (take t.len t.pdu) none (padding t.len))
        else report lfsr c i t none

    -- The checksum of a payload that holds `pdu` and its checksum is right.
    report_delivered :
        (host : Endian) (c : Config) (i : ℕ) (t : Decoder lfsr) (pdu fcs rest : List ℕ)
        → Known c.crc
        → t.pdu ≡ pdu ++ (fcs ++ rest)
        → append host c.crc pdu true ≡ some fcs
        → IsBytes pdu
        → t.len ≡ length pdu + length fcs
        → t.len < 2 ^ 8
        → (f : Frame) × (report lfsr c i t none
            ≡ ok (reset lfsr t) (record { consumed = (i + 1) * 8; frame = some f }))
          × (f.pdu ≡ pdu)
          × (f.crc_valid ≡ true)
    unfolding report
    report_delivered host c i t pdu fcs rest known held sum h size small =
        let (n, known_size) = crc_size-Known c.crc known in
        let n_fcs : length fcs ≡ n = fcs_size host c.crc pdu fcs n sum known_size in
        let body : size_sub t.len n ≡ length pdu =
          size_sub-le t.len n (omega arith) (omega arith)
          ∙ (let left : t.len - n ≡ length pdu = omega arith in left) in
        let long : length t.pdu ≡ length pdu + length (fcs ++ rest) =
          ap length held ∙ length-append pdu (fcs ++ rest) in
        let inside : ltb (length t.pdu) (size_sub t.len n) ≡ false = ground arith in
        let valid : check_crc c.crc t.pdu t.len ≡ some true =
          ap₂ (check_crc c.crc) held size ∙ check_crc-append host c.crc pdu fcs rest known sum h in
        let f : Frame = record {
          pdu = take (size_sub t.len n) t.pdu;
          crc_valid = true;
          sample_start = t.frame_start;
          sample_cnt = t.nitems_read + (i + 1) * 8 - t.frame_start;
          corrected_bits = none;
        } in
        (
          f,
          rw (known_size, inside, valid, report),
          ap₂ take body held ∙ take-append_length pdu (fcs ++ rest),
          refl,
        )

    -- The frame of a whole payload, from what the descrambler gives.
    pub payload_delivered :
        (host : Endian) (c : Config) (i : ℕ) (t : Decoder lfsr) (pdu fcs wire : List ℕ)
        (s : Option (Whitening lfsr))
        → c.rs ≡ false
        → Known c.crc
        → take t.len t.pdu ≡ wire
        → descrambled lfsr t.descrambler wire ≡ (pdu ++ fcs, s)
        → append host c.crc pdu true ≡ some fcs
        → IsBytes pdu
        → t.len ≡ length pdu + length fcs
        → t.len < 2 ^ 8
        → (u : Decoder lfsr) × (f : Frame) × (payload_done lfsr rs c i t
            ≡ ok u (record { consumed = (i + 1) * 8; frame = some f }))
          × (u.state ≡ searching)
          × (f.pdu ≡ pdu)
          × (f.crc_valid ≡ true)
    unfolding payload_done reset after_descrambled
    payload_delivered host c i t pdu fcs wire s plain known held read sum h size small =
        let rest = drop t.len t.pdu in
        let t' : Decoder lfsr = record t { descrambler = s; pdu = (pdu ++ fcs) ++ rest } in
        let (f, e, body, valid) =
          report_delivered host c i t' pdu fcs rest known (append_assoc pdu fcs rest) sum h size
            small in
        (
          reset lfsr t',
          f,
          ap (after_descrambled c i t) (ap (descrambled lfsr t.descrambler) held ∙ read)
              ∙ (if-false c.rs _ _ plain ∙ e),
          refl,
          body,
          valid,
        )
