-- ===== src/Ax25/Encoder/Rounds.antt =====
-- One round of each loop of `encode`, and the loops: the stream grows by the bit, and by a stuffed
-- zero exactly where the rule of HDLC asks for one.
use native.Mathlib.Decide.{ℕ_discrete}
use native.Mathlib.Numerals.{add-one}
use satnogs_gr_oot.Base.{refl, Bool-cases, inl, inr, false, append-nil, ◌↔◌, ◌≢◌, append_assoc}
use satnogs_gr_oot.Base.{bit_and_mask, bit_or_fields, sym, ap, bit_and, ℕ, zero, suc, ◌+◌, ◌-◌, ◌*◌}
use satnogs_gr_oot.Base.{◌%◌, ◌^◌, ◌<◌, ◌≡◌, ◌∙◌, List, [], ◌∷◌, ◌++◌, arith, ◌==◌, if◌then◌else◌}
use satnogs_gr_oot.Ax25.Stuffing.{stuff}
use satnogs_gr_oot.Bytes.Laws.{IsBits}
use satnogs_gr_oot.Ax25.Encoder.{stuff_loop, plain_loop, stuff_zero, stuff_bit, Shifter, shift_in}
use satnogs_gr_oot.Ax25.Encoder.{emit}
use satnogs_gr_oot.Ax25.Encoder.Stream.{stream, stream-shift_in, stream-emit}

-- The register holds exactly `ones` ones in a row at its end, and less than a byte waits.
pub record IsReady (ones : ℕ) (s : Shifter) : Type 0 where
  pub waiting : s.enc_bits < 8
  pub byte : s.sr < 2 ^ 8
  pub few : ones < 5
  pub trailing : s.sr % 2 ^ suc ones ≡ 2 ^ ones - 1

-- Five ones at the end of the register, after a bit is shifted in.
five_ones :
    (ones b sr : ℕ)
    → ones < 5
    → b < 2
    → sr % 2 ^ suc ones ≡ 2 ^ ones - 1
    → (((sr * 2 + b) % 2 ^ 8 % 2 ^ 5 ≡ 31) → (ones ≡ 4) × (b ≡ 1))
      × ((ones ≡ 4) → (b ≡ 1) → (sr * 2 + b) % 2 ^ 8 % 2 ^ 5 ≡ 31)
five_ones zero b sr h hb t = (λ e. omega arith, λ e f. omega arith)
five_ones (suc zero) b sr h hb t = (λ e. omega arith, λ e f. omega arith)
five_ones (suc (suc zero)) b sr h hb t = (λ e. omega arith, λ e f. omega arith)
five_ones (suc (suc (suc zero))) b sr h hb t = (λ e. omega arith, λ e f. omega arith)
five_ones (suc (suc (suc (suc zero)))) b sr h hb t = (λ e. omega arith, λ e f. omega arith)
five_ones (suc (suc (suc (suc (suc n))))) b sr h hb t = absurd (omega arith)

-- The ones at the end of the register after a one.
more_ones :
    (ones sr : ℕ)
    → ones < 4
    → sr % 2 ^ suc ones ≡ 2 ^ ones - 1
    → (sr * 2 + 1) % 2 ^ 8 % 2 ^ suc (suc ones) ≡ 2 ^ suc ones - 1
more_ones zero sr h t = omega arith
more_ones (suc zero) sr h t = omega arith
more_ones (suc (suc zero)) sr h t = omega arith
more_ones (suc (suc (suc zero))) sr h t = omega arith
more_ones (suc (suc (suc (suc n)))) sr h t = absurd (omega arith)

-- What one bit adds to the stream, and the ones at its end afterwards.
abbrev pub added : ℕ → ℕ → List ℕ
added ones zero = 0 ∷ []
added ones (suc b) = if ones == 4 then 1 ∷ 0 ∷ [] else 1 ∷ []

abbrev pub ones_after : ℕ → ℕ → ℕ
ones_after ones zero = 0
ones_after ones (suc b) = if ones == 4 then 0 else suc ones

abbrev RoundDone : ℕ → ℕ → Shifter → Shifter → Type 0
RoundDone ones b s t = (stream t ≡ stream s ++ added ones b) × IsReady (ones_after ones b) t

-- The cases of a round, by its test.
stuffed_case :
    (ones b : ℕ) → ones ≡ 4 → b ≡ 1 → (added ones b ≡ b ∷ 0 ∷ []) × (ones_after ones b ≡ 0)
stuffed_case ones zero e f = absurd (omega arith)
stuffed_case ones (suc zero) e f = ground arith
stuffed_case ones (suc (suc b)) e f = absurd (omega arith)

plain_case :
    (ones b sr : ℕ)
    → ones < 5
    → b < 2
    → sr % 2 ^ suc ones ≡ 2 ^ ones - 1
    → ((ones ≡ 4) → b ≢ 1)
    → (added ones b ≡ b ∷ [])
      × (ones_after ones b < 5)
      × ((sr * 2 + b) % 2 ^ 8 % 2 ^ suc (ones_after ones b) ≡ 2 ^ ones_after ones b - 1)
plain_case ones zero sr h hb t ne = (refl, omega arith, omega arith)
plain_case ones (suc zero) sr h hb t ne = elim (Bool-cases (ones == 4)) [
  | inl e ↦ absurd (ne (ground arith) refl)
  | inr e ↦ let few : ones < 4 = ground arith in rw e (refl, omega arith, more_ones ones sr few t)
]
plain_case ones (suc (suc b)) sr h hb t ne = absurd (omega arith)

-- Without a stuffed zero.
module _ (ones b : ℕ) (s : Shifter) (ready : IsReady ones s) (hb : b < 2) where
  abbrev shifted : Shifter
  shifted = emit (shift_in b s)

  shifted_lem :
      (stream shifted ≡ stream s ++ (b ∷ []))
      × (shifted.enc_bits < 8)
      × (shifted.sr ≡ (s.sr * 2 + b) % 2 ^ 8)
  shifted_lem =
      let (es, ee, er) = stream-shift_in s b hb ready.waiting in
      let (ms, me, mr) =
        stream-emit (shift_in b s) (omega (arith, ready.waiting, ee)) (omega (arith, er)) in
      (ms ∙ es, me, mr ∙ er)

  test_lem : (bit_and shifted.sr 0x1f ≡ 31) ↔ ((s.sr * 2 + b) % 2 ^ 8 % 2 ^ 5 ≡ 31)
  test_lem =
      let e : bit_and shifted.sr 0x1f ≡ (s.sr * 2 + b) % 2 ^ 8 % 2 ^ 5 =
        bit_and_mask 5 shifted.sr ∙ ap (λ t. t % 2 ^ 5) shifted_lem.2 in
      (λ h. sym e ∙ h, λ h. e ∙ h)

  stuff_zero-eq-shift_in : bit_and shifted.sr 0x1f ≡ 31 → stuff_zero shifted ≡ shift_in 0 shifted
  unfolding stuff_zero shift_in
  stuff_zero-eq-shift_in h = rw h (
      ap (λ t. record shifted { sr = t % 2 ^ 8; enc_bits = (shifted.enc_bits + 1) % 2 ^ 8 })
        (sym (bit_or_fields 1 shifted.sr 0 (omega arith) ∙ omega arith)))

  round_stuffed : bit_and shifted.sr 0x1f ≡ 31 → RoundDone ones b s (stuff_bit b s)
  unfolding stuff_bit
  round_stuffed h =
      let (e4, e1) = (five_ones ones b s.sr ready.few hb ready.trailing).0 (test_lem.0 h) in
      let (ea, eo) = stuffed_case ones b e4 e1 in
      let (es, ee, er) = stream-shift_in shifted 0 (omega arith) shifted_lem.1 in
      let (ms, me, mr) =
        stream-emit (shift_in 0 shifted) (omega (arith, shifted_lem.1, ee)) (omega (arith, er)) in
      rw (stuff_zero-eq-shift_in h, ea, eo)
        (
          ms
              ∙ es
              ∙ ap (λ t. t ++ (0 ∷ [])) shifted_lem.0
              ∙ append_assoc (stream s) (b ∷ []) (0 ∷ []),
          record {
            waiting = me;
            byte = omega (arith, mr, er);
            few = omega arith;
            trailing = omega (arith, mr, er);
          },
        )

  round_plain : bit_and shifted.sr 0x1f ≢ 31 → RoundDone ones b s (stuff_bit b s)
  unfolding stuff_bit stuff_zero
  round_plain h =
      let (ea, few, trailing) =
        plain_case ones b s.sr ready.few hb ready.trailing
          (λ e f. h (test_lem.1 ((five_ones ones b s.sr ready.few hb ready.trailing).1 e f))) in
      let skip : (bit_and shifted.sr 0x1f == 0x1f) ≡ false = ground arith in
      let (ms, me, mr) =
        stream-emit shifted (omega (arith, shifted_lem.1)) (omega (arith, shifted_lem.2)) in
      rw (skip, ea)
        (
          ms ∙ shifted_lem.0,
          record {
            waiting = me;
            byte = omega (arith, mr, shifted_lem.2);
            few = few;
            trailing = ap (λ t. t % 2 ^ suc (ones_after ones b)) (mr ∙ shifted_lem.2) ∙ trailing;
          },
        )

  pub stuff_bit-RoundDone : RoundDone ones b s (stuff_bit b s)
  stuff_bit-RoundDone = elim (ℕ_discrete (bit_and shifted.sr 0x1f) 31) [
    | yes p ↦ round_stuffed p
    | no p ↦ round_plain p
  ]

-- The loop over the frame's bits appends the stuffed frame to the stream.
pub stream-stuff_loop :
    (ones : ℕ) (bits : List ℕ) (s : Shifter)
    → IsReady ones s
    → IsBits bits
    → (stream (stuff_loop bits s) ≡ stream s ++ stuff ones bits)
      × ((stuff_loop bits s).enc_bits < 8)
      × ((stuff_loop bits s).sr < 2 ^ 8)
unfolding stuff_loop stuff
stream-stuff_loop ones [] s r h = (sym (append-nil (stream s)), r.waiting, r.byte)
stream-stuff_loop ones (zero ∷ bits) s r (p, h) =
    let (e, r') = stuff_bit-RoundDone ones 0 s r p in
    let (ih, w1, w2) = stream-stuff_loop 0 bits (stuff_bit 0 s) r' h in
    (ih ∙ ap (λ t. t ++ stuff 0 bits) e ∙ append_assoc (stream s) (0 ∷ []) (stuff 0 bits), w1, w2)
stream-stuff_loop ones (suc zero ∷ bits) s r (p, h) =
    let (e, r') = stuff_bit-RoundDone ones 1 s r p in
    elim (Bool-cases (ones == 4)) [
      | inl four ↦
          let e' : stream (stuff_bit 1 s) ≡ stream s ++ (1 ∷ 0 ∷ []) = rw four at e in
          let r0 : IsReady 0 (stuff_bit 1 s) = rw four at r' in
          let (ih, w1, w2) = stream-stuff_loop 0 bits (stuff_bit 1 s) r0 h in
          rw four (
            ih
                ∙ ap (λ t. t ++ stuff 0 bits) e'
                ∙ append_assoc (stream s) (1 ∷ 0 ∷ []) (stuff 0 bits),
            w1,
            w2,
          )
      | inr less ↦
          let e' : stream (stuff_bit 1 s) ≡ stream s ++ (1 ∷ []) = rw less at e in
          let r1 : IsReady (suc ones) (stuff_bit 1 s) = rw less at r' in
          let (ih, w1, w2) = stream-stuff_loop (suc ones) bits (stuff_bit 1 s) r1 h in
          rw (less, add-one)
            (
              ih
                  ∙ ap (λ t. t ++ stuff (suc ones) bits) e'
                  ∙ append_assoc (stream s) (1 ∷ []) (stuff (suc ones) bits),
              w1,
              w2,
            )
    ]
stream-stuff_loop ones (suc (suc b) ∷ bits) s r (p, h) = absurd (omega arith)

-- The loop over the postamble's bits appends them as they are.
pub stream-plain_loop :
    (bits : List ℕ) (s : Shifter)
    → s.enc_bits < 8
    → s.sr < 2 ^ 8
    → IsBits bits
    → (stream (plain_loop bits s) ≡ stream s ++ bits)
      × ((plain_loop bits s).enc_bits < 8)
      × ((plain_loop bits s).sr < 2 ^ 8)
unfolding plain_loop
stream-plain_loop [] s he hs h = (sym (append-nil (stream s)), he, hs)
stream-plain_loop (b ∷ bits) s he hs (p, h) =
    let (es, ee, er) = stream-shift_in s b p he in
    let (ms, me, mr) = stream-emit (shift_in b s) (omega (arith, ee)) (omega (arith, er)) in
    let (ih, w1, w2) = stream-plain_loop bits (emit (shift_in b s)) me (omega (arith, mr, er)) h in
    (ih ∙ ap (λ t. t ++ bits) (ms ∙ es) ∙ append_assoc (stream s) (b ∷ []) bits, w1, w2)
