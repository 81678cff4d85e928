-- ===== src/Argos/Step.antt =====
-- The loop of `case DECODING` of `argos_ldr_decoder`: what one bit does, and that a pass over the bits
-- after a flag counts at least one of them.
use satnogs_gr_oot.Base.{ℕ, zero, suc, ◌+◌, ◌*◌, ◌/◌, ◌%◌, ◌^◌, ◌≤◌, ◌<◌, bit_and, bit_or, ◌≡◌, ◌≢◌}
use satnogs_gr_oot.Base.{refl, ◌∙◌, ◌⊎◌, inl, inr, true, false, List, [], ◌∷◌, arith, ◌==◌}
use satnogs_gr_oot.Base.{Bool-cases, length, length-set, bit_and_mask, all_below, all_below_lem}
use satnogs_gr_oot.Base.{if◌then◌else◌}
use satnogs_gr_oot.Base.{or_by_digits, subst, ltb, leb}
use satnogs_gr_oot.Ax25.{sync_flag}
use satnogs_gr_oot.Argos.{Config, Decoder, decode_1b}
use satnogs_gr_oot.Argos.Run.{Verdict, go_on, flag_seen, invalid, too_long, decoding_bit}
use satnogs_gr_oot.Argos.Run.{decoding_loop}

-- The last eight bits, and the bits of the frame read so far.
abbrev pub window : Decoder → ℕ
window d = bit_and d.shift_reg 0xFF

abbrev pub counted : Decoder → ℕ
counted d = 8 * d.received_bytes + d.decoded_bits

-- The lowest `n` bits are ones.
abbrev LowOnes : ℕ → ℕ → Type 0
LowOnes zero x = Unit
LowOnes (suc n) x = (x % 2 ≡ 1) × LowOnes n (x / 2)

LowOnes-bit_or : (n x y : ℕ) → LowOnes n x → LowOnes n (bit_or x y)
LowOnes-bit_or zero x y h = tt
LowOnes-bit_or (suc n) x y (h, hs) =
    let e : bit_or (x / 2) (y / 2) ≡ bit_or x y / 2 = omega (arith, or_by_digits x y) in
    (omega (arith, or_by_digits x y), subst (LowOnes n) e (LowOnes-bit_or n (x / 2) (y / 2) hs))

-- After a flag the six bits before the last two are ones, whatever came.
after_flag : (b : ℕ) (d : Decoder) → window d ≡ sync_flag → 0xFC ≤ window (decode_1b b d)
unfolding decode_1b
after_flag b d e =
    let x = d.shift_reg * 2 % 2 ^ 32 in
    let reg : d.shift_reg % 2 ^ 8 ≡ 126 = omega (arith, bit_and_mask 8 d.shift_reg) in
    let (h0, (h1, (h2, (h3, (h4, (h5, _)))))) : LowOnes 6 (bit_or (x / 2 / 2) (b / 2 / 2)) =
      LowOnes-bit_or 6 (x / 2 / 2) (b / 2 / 2) (
        omega arith,
        (omega arith, (omega arith, (omega arith, (omega arith, (omega arith, tt))))),
      ) in
    omega (
      arith,
      or_by_digits x b,
      or_by_digits (x / 2) (b / 2),
      bit_and_mask 24 (bit_or x b),
      bit_and_mask 8 (bit_and (bit_or x b) 0xFFFFFF),
    )

no_stuffing : all_below 256 (λ x. if bit_and x 0xfc == 0x7c then ltb x 0xFC else true) ≡ true
unfolding all_below
no_stuffing = refl

-- What a bit leaves alone.
pub record Kept (d t : Decoder) : Type 0 where
  pub state : t.state ≡ d.state
  pub size : length t.frame_buffer ≡ length d.frame_buffer
  pub bits : t.bitstream ≡ d.bitstream

-- What is so before a bit.
pub record Room (c : Config) (d : Decoder) : Type 0 where
  pub received : d.received_bytes ≤ c.max_frame_len
  pub waiting : d.decoded_bits ≤ 7

abbrev pub BitEnd : Config → Decoder → Decoder → Verdict → Type 0
BitEnd c d t go_on = Room c t × (counted d ≤ counted t)
BitEnd c d t flag_seen = Room c t × (counted d ≤ counted t) × (window t ≡ sync_flag)
BitEnd c d t invalid = Unit
BitEnd c d t too_long = Unit

decoding_bit-Kept : (c : Config) (b : ℕ) (d : Decoder) → Kept d (decoding_bit c b d).0
unfolding decoding_bit decode_1b
decoding_bit-Kept c b d =
    let t = decode_1b b d in ground (arith, length-set t.frame_buffer t.received_bytes t.dec_b)

decoding_bit-BitEnd :
    (c : Config) (b : ℕ) (d : Decoder)
    → Room c d
    → let (t, v) = decoding_bit c b d in BitEnd c d t v
unfolding decoding_bit decode_1b
decoding_bit-BitEnd c b d r =
    let t = decode_1b b d in
    let low = bit_and t.shift_reg 0xFF in
    elim (Bool-cases (low == sync_flag)) [
      | inl e ↦
          rw (e, decoding_bit)
            (record { received = r.received; waiting = r.waiting }, omega arith, ground arith)
      | inr e ↦ elim (Bool-cases (bit_and low 0xfc == 0x7c)) [
        | inl f ↦
            rw (e, f, decoding_bit)
              (record { received = r.received; waiting = r.waiting }, omega arith)
        | inr f ↦ elim (Bool-cases (bit_and low 0xfe == 0xfe)) [
          | inl g ↦ rw (e, f, g, decoding_bit) tt
          | inr g ↦ elim (Bool-cases (d.decoded_bits + 1 == 8)) [
            | inr h ↦
                rw (e, f, g, h, decoding_bit)
                  (record { received = r.received; waiting = ground arith }, omega arith)
            | inl h ↦ elim (Bool-cases (leb c.max_frame_len (d.received_bytes + 1))) [
              | inl k ↦ rw (e, f, g, h, k, decoding_bit) tt
              | inr k ↦
                  rw (e, f, g, h, k, decoding_bit)
                    (record { received = ground arith; waiting = omega arith }, ground arith)
            ]
          ]
        ]
      ]
    ]

pub same_count :
    (b : ℕ) (d : Decoder)
    → ((decode_1b b d).received_bytes ≡ d.received_bytes)
      × ((decode_1b b d).decoded_bits ≡ d.decoded_bits)
unfolding decode_1b
same_count b d = (refl, refl)

decoding_bit-after_flag :
    (c : Config) (b : ℕ) (d : Decoder)
    → window d ≡ sync_flag
    → let (t, v) = decoding_bit c b d in (v ≢ flag_seen) × (v ≡ go_on → counted d + 1 ≤ counted t)
unfolding decoding_bit
decoding_bit-after_flag c b d e =
    let t = decode_1b b d in
    let low = bit_and t.shift_reg 0xFF in
    let high = after_flag b d e in
    let lt : low < 256 = omega (arith, bit_and_mask 8 t.shift_reg) in
    let plain =
      all_below_lem 256 (λ x. if bit_and x 0xfc == 0x7c then ltb x 0xFC else true) low no_stuffing
        lt in
    let other : (low == sync_flag) ≡ false = ground arith in
    let kept : (bit_and low 0xfc == 0x7c) ≡ false = ground arith in
    elim (Bool-cases (bit_and low 0xfe == 0xfe)) [
      | inl g ↦ rw (other, kept, g, decoding_bit) ((λ f. cc), (λ f. cc))
      | inr g ↦ elim (Bool-cases (t.decoded_bits + 1 == 8)) [
        | inr h ↦
            rw (other, kept, g, h, decoding_bit) ((λ f. cc), (λ f. ground (arith, same_count b d)))
        | inl h ↦ elim (Bool-cases (leb c.max_frame_len (t.received_bytes + 1))) [
          | inl k ↦ rw (other, kept, g, h, k, decoding_bit) ((λ f. cc), (λ f. cc))
          | inr k ↦
              rw (other, kept, g, h, k, decoding_bit)
                ((λ f. cc), (λ f. ground (arith, same_count b d)))
        ]
      ]
    ]

abbrev pub LoopEnd : Config → Decoder → Decoder → ℕ → ℕ → ℕ → Verdict → Type 0
LoopEnd c d t i n j flag_seen =
    Room c t × (counted d ≤ counted t) × (window t ≡ sync_flag) × (i ≤ j) × (j < i + n)
LoopEnd c d t i n j go_on = Room c t
LoopEnd c d t i n j invalid = Unit
LoopEnd c d t i n j too_long = Unit

Verdict-cases : (v : Verdict) → (v ≡ go_on) ⊎ (v ≡ flag_seen) ⊎ (v ≡ invalid) ⊎ (v ≡ too_long)
Verdict-cases v = ground arith

LoopEnd-next :
    (c : Config) (d u t : Decoder) (i n j : ℕ) (v : Verdict)
    → counted d ≤ counted u
    → LoopEnd c u t (i + 1) n j v
    → LoopEnd c d t i (suc n) j v
LoopEnd-next c d u t i n j flag_seen le (r, le', w, low, high) =
    (r, omega arith, w, omega arith, omega arith)
LoopEnd-next c d u t i n j go_on le r = r
LoopEnd-next c d u t i n j invalid le r = tt
LoopEnd-next c d u t i n j too_long le r = tt

Kept-trans : {d t u : Decoder} → Kept d t → Kept t u → Kept d u
Kept-trans p q = record {
  state = q.state ∙ p.state;
  size = q.size ∙ p.size;
  bits = q.bits ∙ p.bits;
}

pub decoding_loop-LoopEnd :
    (c : Config) (bits : List ℕ) (i : ℕ) (d : Decoder)
    → Room c d
    → let (t, j, v) = decoding_loop c bits i d in Kept d t × LoopEnd c d t i (length bits) j v
unfolding decoding_loop
decoding_loop-LoopEnd c [] i d r = (record { state = refl; size = refl; bits = refl }, r)
decoding_loop-LoopEnd c (b ∷ bits) i d r =
    let (t, v) = decoding_bit c b d in
    let k = decoding_bit-Kept c b d in
    let end = decoding_bit-BitEnd c b d r in
    elim (Verdict-cases v) [
      | inl e ↦
          let (room, le) : BitEnd c d t go_on = subst (BitEnd c d t) e end in
          let (k', more) = decoding_loop-LoopEnd c bits (i + 1) t room in
          rw (e, decoding_loop) (Kept-trans k k', LoopEnd-next c d t _ i (length bits) _ _ le more)
      | inr (inl e) ↦
          let (room, le, w) : BitEnd c d t flag_seen = subst (BitEnd c d t) e end in
          rw (e, decoding_loop) (k, (room, le, w, omega arith, omega arith))
      | inr (inr (inl e)) ↦ rw (e, decoding_loop) (k, tt)
      | inr (inr (inr e)) ↦ rw (e, decoding_loop) (k, tt)
    ]

-- A pass that starts behind a flag and finds another has counted a bit.
pub decoding_loop-after_flag :
    (c : Config) (bits : List ℕ) (i : ℕ) (d : Decoder)
    → Room c d
    → window d ≡ sync_flag
    → let (t, j, v) = decoding_loop c bits i d in v ≡ flag_seen → counted d + 1 ≤ counted t
unfolding decoding_loop
decoding_loop-after_flag c [] i d r w = λ e. cc
decoding_loop-after_flag c (b ∷ bits) i d r w =
    let (t, v) = decoding_bit c b d in
    let (no_flag, more) = decoding_bit-after_flag c b d w in
    let end = decoding_bit-BitEnd c b d r in
    elim (Verdict-cases v) [
      | inl e ↦
          let (room, le) : BitEnd c d t go_on = subst (BitEnd c d t) e end in
          let (k, rest) = decoding_loop-LoopEnd c bits (i + 1) t room in
          rw (e, decoding_loop)
            (λ f.
              let (room', le', w', low, high) : LoopEnd c t _ (i + 1) (length bits) _ flag_seen =
                subst (LoopEnd c t _ (i + 1) (length bits) _) f rest in
              omega (arith, more e))
      | inr (inl e) ↦ absurd (no_flag e)
      | inr (inr (inl e)) ↦ rw (e, decoding_loop) (λ f. cc)
      | inr (inr (inr e)) ↦ rw (e, decoding_loop) (λ f. cc)
    ]
