-- ===== src/Ax100/Mode5/Payload.antt =====
-- The loops of `ax100_mode5` over the bits of whole bytes.
use satnogs_gr_oot.Base.{ℕ, suc, ◌+◌, ◌/◌, ◌%◌, ◌^◌, ◌≤◌, ◌<◌, bit_and, ◌≡◌}
use satnogs_gr_oot.Base.{◌≢◌, refl, ap, ap₂, ◌∙◌, inl, inr, Bool, true, false, ◌&&◌, some}
use satnogs_gr_oot.Base.{List, [], ◌∷◌, arith, ltb, ◌==◌, ==_iff, Bool-cases}
use satnogs_gr_oot.Base.{all_below, all_below_lem, length, set}
use satnogs_gr_oot.Base.{length-set, written, IsBytes}
use satnogs_gr_oot.Bytes.{join_msb}
use satnogs_gr_oot.Bytes.Laws.{join-msb_bits}
use satnogs_gr_oot.Golay24.{encode12, decode24}
use satnogs_gr_oot.Golay24.Laws.{decode24-encode12}
use satnogs_gr_oot.ReedSolomon.{ReedSolomon}
use satnogs_gr_oot.Whitening.{Lfsr}
use satnogs_gr_oot.Whitening.Laws.{frame_bits}
use satnogs_gr_oot.Ax100.Mode5.{Config, Decoder, Outcome, fault}
use satnogs_gr_oot.Ax100.Mode5.Run.{stored, coded_len, length_done, decode_frame_len, payload_done}
use satnogs_gr_oot.Ax100.Mode5.Run.{decode_payload}

-- The length field as it is sent: the Golay code of the length, the parity in the upper half.
abbrev pub length_bytes : ℕ → List ℕ
length_bytes n = let w = encode12 n false in w / 2 ^ 16 ∷ w / 2 ^ 8 % 2 ^ 8 ∷ w % 2 ^ 8 ∷ []

length_fits : ℕ → Bool
length_fits n =
    let w = encode12 n false in
    ltb w (2 ^ 24) && ((coded_len (length_bytes n) == w) && (bit_and w 0xFF == n))

lengths : all_below 256 length_fits ≡ true
unfolding all_below length_fits encode12
lengths = refl

&&-parts : (a b : Bool) → (a && b) ≡ true → (a ≡ true) × (b ≡ true)
&&-parts true b h = (refl, h)
&&-parts false b h = cc

-- A length of a byte comes through the length field.
pub length_field :
    (n : ℕ)
    → n < 2 ^ 8
    → let w = encode12 n false in
      (w < 2 ^ 24) × (decode24 (coded_len (length_bytes n)) ≡ some w) × (bit_and w 0xFF ≡ n)
unfolding length_fits
length_field n lt =
    let w = encode12 n false in
    let (small, rest) : (ltb w (2 ^ 24) ≡ true)
        × (((coded_len (length_bytes n) == w) && (bit_and w 0xFF == n)) ≡ true) =
      &&-parts _ _ (all_below_lem 256 length_fits n lengths lt) in
    let (joined, low) = &&-parts (coded_len (length_bytes n) == w) (bit_and w 0xFF == n) rest in
    (
      ground arith,
      ap decode24 ((==_iff _ w).0 joined) ∙ (decode24-encode12 n (omega arith)).1,
      (==_iff _ n).0 low,
    )

module _ (lfsr : Lfsr) where
  -- A byte that has room.
  abbrev pub put : Decoder lfsr → ℕ → Decoder lfsr
  put d x = record d { pdu = set d.pdu d.cnt x; cnt = d.cnt + 1 }

  stored-room :
      (b : ℕ) (d : Decoder lfsr) (next : Decoder lfsr → Outcome lfsr)
      → ltb d.cnt (length d.pdu) ≡ true
      → stored lfsr b d next ≡ next (put d b)
  unfolding stored
  stored-room b d next e = rw (e, stored)

  stored-full :
      (b : ℕ) (d : Decoder lfsr) (next : Decoder lfsr → Outcome lfsr)
      → ltb d.cnt (length d.pdu) ≡ false
      → stored lfsr b d next ≡ fault
  unfolding stored
  stored-full b d next e = rw (e, stored)

  unfoldable pub after_length_byte : Config → List ℕ → ℕ → Decoder lfsr → Outcome lfsr
  after_length_byte c rest i t = elim (t.cnt == c.length_field_len) [
    | true ↦ length_done lfsr c i t (decode24 (coded_len t.pdu))
    | false ↦ decode_frame_len lfsr c rest (i + 1) t
  ]

  pub length_round :
      (c : Config) (b0 b1 b2 b3 b4 b5 b6 b7 x : ℕ) (rest : List ℕ) (i : ℕ) (d : Decoder lfsr)
      → join_msb (b0 ∷ b1 ∷ b2 ∷ b3 ∷ b4 ∷ b5 ∷ b6 ∷ b7 ∷ []) ≡ x
      → d.cnt < length d.pdu
      → decode_frame_len lfsr c (b0 ∷ b1 ∷ b2 ∷ b3 ∷ b4 ∷ b5 ∷ b6 ∷ b7 ∷ rest) i d
        ≡ after_length_byte c rest i (put d x)
  unfolding decode_frame_len after_length_byte
  length_round c b0 b1 b2 b3 b4 b5 b6 b7 x rest i d e lt =
      let room : ltb d.cnt (length d.pdu) ≡ true = ground arith in
      stored-room _ d _ room ∙ ap (λ b. after_length_byte c rest i (put d b)) e

  -- The three bytes of the length field, into a `d_pdu` of three bytes or more.
  pub length_rounds :
      (c : Config) (p0 p1 p2 x y z : ℕ) (ps : List ℕ) (d : Decoder lfsr)
      → c.length_field_len ≡ 3
      → IsBytes (x ∷ y ∷ z ∷ [])
      → decode_frame_len lfsr c
          (frame_bits true (x ∷ y ∷ z ∷ []))
          0
          (record d { cnt = 0; pdu = p0 ∷ p1 ∷ p2 ∷ ps })
        ≡ length_done lfsr c 2
            (record d { cnt = 3; pdu = x ∷ y ∷ z ∷ ps })
            (decode24 (coded_len (x ∷ y ∷ z ∷ [])))
  unfolding after_length_byte
  length_rounds c p0 p1 p2 x y z ps d three (hx, (hy, (hz, _))) =
      let d0 = record d { cnt = 0; pdu = p0 ∷ p1 ∷ p2 ∷ ps } in
      let d1 = record d { cnt = 1; pdu = x ∷ p1 ∷ p2 ∷ ps } in
      let d2 = record d { cnt = 2; pdu = x ∷ y ∷ p2 ∷ ps } in
      let t1 : (1 == c.length_field_len) ≡ false = ground arith in
      let t2 : (2 == c.length_field_len) ≡ false = ground arith in
      let t3 : (3 == c.length_field_len) ≡ true = ground arith in
      length_round c _ _ _ _ _ _ _ _ x (frame_bits true (y ∷ z ∷ [])) 0 d0 (join-msb_bits x hx)
        (omega arith)
      ∙ (rw (t1, after_length_byte) refl)
      ∙ length_round c _ _ _ _ _ _ _ _ y (frame_bits true (z ∷ [])) 1 d1 (join-msb_bits y hy)
          (omega arith)
      ∙ (rw (t2, after_length_byte) refl)
      ∙ length_round c _ _ _ _ _ _ _ _ z [] 2 d2 (join-msb_bits z hz) (omega arith)
      ∙ (rw (t3, after_length_byte) refl)

  module _ (rs : ReedSolomon) where
    unfoldable pub after_payload_byte : Config → List ℕ → ℕ → Decoder lfsr → Outcome lfsr
    after_payload_byte c rest i t = elim (t.cnt == t.len) [
      | true ↦ payload_done lfsr rs c i t
      | false ↦ decode_payload lfsr rs c rest (i + 1) t
    ]

    pub payload_round :
        (c : Config) (b0 b1 b2 b3 b4 b5 b6 b7 x : ℕ) (rest : List ℕ) (i : ℕ) (d : Decoder lfsr)
        → join_msb (b0 ∷ b1 ∷ b2 ∷ b3 ∷ b4 ∷ b5 ∷ b6 ∷ b7 ∷ []) ≡ x
        → d.cnt < length d.pdu
        → decode_payload lfsr rs c (b0 ∷ b1 ∷ b2 ∷ b3 ∷ b4 ∷ b5 ∷ b6 ∷ b7 ∷ rest) i d
          ≡ after_payload_byte c rest i (put d x)
    unfolding decode_payload after_payload_byte
    payload_round c b0 b1 b2 b3 b4 b5 b6 b7 x rest i d e lt =
        let room : ltb d.cnt (length d.pdu) ≡ true = ground arith in
        stored-room _ d _ room ∙ ap (λ b. after_payload_byte c rest i (put d b)) e

    outside :
        (c : Config) (b0 b1 b2 b3 b4 b5 b6 b7 : ℕ) (rest : List ℕ) (i : ℕ) (d : Decoder lfsr)
        → ltb d.cnt (length d.pdu) ≡ false
        → decode_payload lfsr rs c (b0 ∷ b1 ∷ b2 ∷ b3 ∷ b4 ∷ b5 ∷ b6 ∷ b7 ∷ rest) i d ≡ fault
    unfolding decode_payload
    outside c b0 b1 b2 b3 b4 b5 b6 b7 rest i d full = stored-full _ d _ full

    last_byte :
        (c : Config) (rest : List ℕ) (i : ℕ) (t : Decoder lfsr)
        → t.cnt ≡ t.len
        → after_payload_byte c rest i t ≡ payload_done lfsr rs c i t
    unfolding after_payload_byte
    last_byte c rest i t e =
        let whole : (t.cnt == t.len) ≡ true = ground arith in rw (whole, after_payload_byte)

    next_byte :
        (c : Config) (rest : List ℕ) (i : ℕ) (t : Decoder lfsr)
        → t.cnt ≢ t.len
        → after_payload_byte c rest i t ≡ decode_payload lfsr rs c rest (i + 1) t
    unfolding after_payload_byte
    next_byte c rest i t e =
        let part : (t.cnt == t.len) ≡ false = ground arith in rw (part, after_payload_byte)

    -- The bytes up to the length end the loop.
    pub decode_payload-written :
        (c : Config) (x : ℕ) (xs : List ℕ) (i : ℕ) (d : Decoder lfsr)
        → IsBytes (x ∷ xs)
        → d.cnt + suc (length xs) ≡ d.len
        → d.len ≤ length d.pdu
        → decode_payload lfsr rs c (frame_bits true (x ∷ xs)) i d
          ≡ payload_done lfsr rs c
              (i + length xs)
              (record d { pdu = written d.pdu d.cnt (x ∷ xs); cnt = d.len })
    decode_payload-written c x [] i d (p, h) whole room =
        let end : d.cnt + 1 ≡ d.len = omega arith in
        payload_round c _ _ _ _ _ _ _ _ x [] i d (join-msb_bits x p) (omega arith)
        ∙ last_byte c [] i (put d x) end
        ∙ ap₂
            (λ (j n : ℕ). payload_done lfsr rs c j (record d { pdu = set d.pdu d.cnt x; cnt = n }))
            (let e : i ≡ i + 0 = omega arith in e) end
    decode_payload-written c x (y ∷ xs) i d (p, h) whole room =
        let more : d.cnt + 1 ≢ d.len = λ e. omega arith in
        payload_round c _ _ _ _ _ _ _ _ x (frame_bits true (y ∷ xs)) i d (join-msb_bits x p)
          (omega arith)
        ∙ next_byte c (frame_bits true (y ∷ xs)) i (put d x) more
        ∙ decode_payload-written c y xs (i + 1) (put d x) h (omega arith)
            (omega (arith, length-set d.pdu d.cnt x))
        ∙ ap
            (λ (j : ℕ).
              payload_done lfsr rs c j
                (record d { pdu = written d.pdu d.cnt (x ∷ y ∷ xs); cnt = d.len }))
            (let e : i + 1 + length xs ≡ i + suc (length xs) = omega arith in e)

    -- With length 0 the loop never finds its end, and writes behind the end of `d_pdu`.
    pub decode_payload-endless :
        (c : Config) (xs : List ℕ) (i : ℕ) (d : Decoder lfsr)
        → IsBytes xs
        → d.len ≡ 0
        → length d.pdu < d.cnt + length xs
        → d.cnt ≤ length d.pdu
        → decode_payload lfsr rs c (frame_bits true xs) i d ≡ fault
    decode_payload-endless c [] i d h zero_len far inside = absurd (omega arith)
    decode_payload-endless c (x ∷ xs) i d (p, h) zero_len far inside =
        elim (Bool-cases (ltb d.cnt (length d.pdu))) [
          | inr full ↦ outside c _ _ _ _ _ _ _ _ (frame_bits true xs) i d full
          | inl room ↦
              payload_round c _ _ _ _ _ _ _ _ x (frame_bits true xs) i d (join-msb_bits x p)
                (ground arith)
              ∙ next_byte c (frame_bits true xs) i (put d x) (λ e. omega arith)
              ∙ decode_payload-endless c xs (i + 1) (put d x) h zero_len
                  (omega (arith, length-set d.pdu d.cnt x))
                  (ground (arith, length-set d.pdu d.cnt x))
        ]
