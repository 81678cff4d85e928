-- ===== src/Ax25/RoundTrip/Window.antt =====
-- What the two registers of `ax25_decoder` hold while it reads a frame: `d_shift_reg` the last eight
-- bits of the line, `d_dec_b` the bits of the byte that has begun.
use satnogs_gr_oot.Base.{ℕ, zero, suc, ◌+◌, ◌-◌, ◌*◌, ◌/◌, ◌%◌, ◌^◌, ◌≤◌, ◌<◌, bit_and, bit_or}
use satnogs_gr_oot.Base.{bit_or_fields, or_comm, ◌≡◌, refl, ap₂, ◌⊎◌, inl, inr, true, false, ◌&&◌}
use satnogs_gr_oot.Base.{◌||◌, not, arith, ltb, leb, ◌==◌, all_below, all_below_lem}
use satnogs_gr_oot.Ax25.{sync_flag}
use satnogs_gr_oot.Ax25.Decoder.{Decoder, decode_1b}

-- `shift_reg` behind `ones` ones in a row, the newest bit at the top.
abbrev pub Window : ℕ → ℕ → Type 0
Window zero r = r < 128
Window (suc zero) r = (128 ≤ r) × (r < 192)
Window (suc (suc zero)) r = (192 ≤ r) × (r < 224)
Window (suc (suc (suc zero))) r = (224 ≤ r) × (r < 240)
Window (suc (suc (suc (suc zero)))) r = (240 ≤ r) × (r < 248)
Window (suc (suc (suc (suc (suc zero))))) r = (248 ≤ r) × (r < 252)
Window (suc (suc (suc (suc (suc (suc zero)))))) r = (252 ≤ r) × (r < 254)
Window (suc (suc (suc (suc (suc (suc (suc n))))))) r = ⊥

pub Window-lt : (ones r : ℕ) → Window ones r → r < 2 ^ 8
Window-lt zero r w = omega arith
Window-lt (suc zero) r w = omega arith
Window-lt (suc (suc zero)) r w = omega arith
Window-lt (suc (suc (suc zero))) r w = omega arith
Window-lt (suc (suc (suc (suc zero)))) r w = omega arith
Window-lt (suc (suc (suc (suc (suc zero))))) r w = omega arith
Window-lt (suc (suc (suc (suc (suc (suc zero)))))) r w = omega arith
Window-lt (suc (suc (suc (suc (suc (suc (suc n))))))) r w = absurd w

-- A zero behind fewer than five ones.
pub Window-zero : (ones r : ℕ) → ones < 5 → Window ones r → r / 2 < 124
Window-zero zero r lt w = omega arith
Window-zero (suc zero) r lt w = omega arith
Window-zero (suc (suc zero)) r lt w = omega arith
Window-zero (suc (suc (suc zero))) r lt w = omega arith
Window-zero (suc (suc (suc (suc zero)))) r lt w = omega arith
Window-zero (suc (suc (suc (suc (suc n))))) r lt w = absurd (omega arith)

pub Window-one : (ones r : ℕ) → ones < 6 → Window ones r → Window (suc ones) (r / 2 + 128)
Window-one zero r lt w = omega arith
Window-one (suc zero) r lt w = omega arith
Window-one (suc (suc zero)) r lt w = omega arith
Window-one (suc (suc (suc zero))) r lt w = omega arith
Window-one (suc (suc (suc (suc zero)))) r lt w = omega arith
Window-one (suc (suc (suc (suc (suc zero))))) r lt w = omega arith
Window-one (suc (suc (suc (suc (suc (suc n)))))) r lt w = absurd (omega arith)

-- The register after a one is no flag, no stuffed bit and no abort.
pub Window-above : (ones r : ℕ) → Window (suc ones) r → (128 ≤ r) × (r < 254)
Window-above zero r w = omega arith
Window-above (suc zero) r w = omega arith
Window-above (suc (suc zero)) r w = omega arith
Window-above (suc (suc (suc zero))) r w = omega arith
Window-above (suc (suc (suc (suc zero)))) r w = omega arith
Window-above (suc (suc (suc (suc (suc zero))))) r w = omega arith
Window-above (suc (suc (suc (suc (suc (suc n)))))) r w = absurd w

-- `decode_1b` puts the bit on top of both registers.
pub decode_1b-push :
    (b : ℕ) (d : Decoder)
    → b < 2
    → d.shift_reg < 2 ^ 8
    → d.dec_b < 2 ^ 8
    → decode_1b b d
      ≡ record d { shift_reg = d.shift_reg / 2 + b * 128; dec_b = d.dec_b / 2 + b * 128 }
unfolding decode_1b
decode_1b-push b d hb hs hd =
    let on_top : (r : ℕ) → r < 2 ^ 8 → bit_or (r / 2) (b * 2 ^ 7) % 2 ^ 8 ≡ r / 2 + b * 128 =
      λ r h. omega (arith, or_comm (r / 2) (b * 2 ^ 7), bit_or_fields 7 b (r / 2) (omega arith)) in
    ap₂ (λ s t. record d { shift_reg = s; dec_b = t }) (on_top d.shift_reg hs) (on_top d.dec_b hd)

-- The tests of `decoding_bit`, as the ranges of the register for which they hold.
tests_agree :
    all_below 256 (λ r.
      ((bit_and r 0xfc == 0x7c) && (leb 124 r && ltb r 128)
        || (not (bit_and r 0xfc == 0x7c) && not (leb 124 r && ltb r 128)))
      && ((bit_and r 0xfe == 0xfe) && leb 254 r || (not (bit_and r 0xfe == 0xfe) && ltb r 254)))
    ≡ true
unfolding all_below
tests_agree = refl

tests_at :
    (r : ℕ)
    → r < 2 ^ 8
    → ((bit_and r 0xfc == 0x7c) && (leb 124 r && ltb r 128)
          || (not (bit_and r 0xfc == 0x7c) && not (leb 124 r && ltb r 128)))
        && ((bit_and r 0xfe == 0xfe) && leb 254 r || (not (bit_and r 0xfe == 0xfe) && ltb r 254))
      ≡ true
tests_at r lt =
    all_below_lem 256
      (λ r.
        ((bit_and r 0xfc == 0x7c) && (leb 124 r && ltb r 128)
          || (not (bit_and r 0xfc == 0x7c) && not (leb 124 r && ltb r 128)))
        && ((bit_and r 0xfe == 0xfe) && leb 254 r || (not (bit_and r 0xfe == 0xfe) && ltb r 254)))
      r tests_agree lt

pub plain_tests :
    (r : ℕ)
    → (r < 124) ⊎ ((128 ≤ r) × (r < 254))
    → ((r == sync_flag) ≡ false)
      × ((bit_and r 0xfc == 0x7c) ≡ false)
      × ((bit_and r 0xfe == 0xfe) ≡ false)
plain_tests r (inl h) = ground (arith, tests_at r (omega arith))
plain_tests r (inr h) = ground (arith, tests_at r (omega arith))

pub stuffed_tests :
    (r : ℕ) → 124 ≤ r → r < 126 → ((r == sync_flag) ≡ false) × ((bit_and r 0xfc == 0x7c) ≡ true)
stuffed_tests r h k = ground (arith, tests_at r (omega arith))

-- A data bit behind `k` others of its byte, whose value is `v`.
pub push_value :
    (k r b v : ℕ)
    → k < 8
    → r < 2 ^ 8
    → b < 2
    → r / 2 ^ (8 - k) ≡ v
    → (r / 2 + b * 128) / 2 ^ (8 - suc k) ≡ v + b * 2 ^ k
push_value zero r b v lt hr hb e = omega arith
push_value (suc zero) r b v lt hr hb e = omega arith
push_value (suc (suc zero)) r b v lt hr hb e = omega arith
push_value (suc (suc (suc zero))) r b v lt hr hb e = omega arith
push_value (suc (suc (suc (suc zero)))) r b v lt hr hb e = omega arith
push_value (suc (suc (suc (suc (suc zero))))) r b v lt hr hb e = omega arith
push_value (suc (suc (suc (suc (suc (suc zero)))))) r b v lt hr hb e = omega arith
push_value (suc (suc (suc (suc (suc (suc (suc zero))))))) r b v lt hr hb e = omega arith
push_value (suc (suc (suc (suc (suc (suc (suc (suc n)))))))) r b v lt hr hb e = absurd (omega arith)

-- A stuffed bit is pushed and shifted out again.
pub keep_value :
    (k r v : ℕ) → k < 8 → r < 2 ^ 8 → r / 2 ^ (8 - k) ≡ v → r / 2 * 2 % 2 ^ 8 / 2 ^ (8 - k) ≡ v
keep_value zero r v lt hr e = omega arith
keep_value (suc zero) r v lt hr e = omega arith
keep_value (suc (suc zero)) r v lt hr e = omega arith
keep_value (suc (suc (suc zero))) r v lt hr e = omega arith
keep_value (suc (suc (suc (suc zero)))) r v lt hr e = omega arith
keep_value (suc (suc (suc (suc (suc zero))))) r v lt hr e = omega arith
keep_value (suc (suc (suc (suc (suc (suc zero)))))) r v lt hr e = omega arith
keep_value (suc (suc (suc (suc (suc (suc (suc zero))))))) r v lt hr e = omega arith
keep_value (suc (suc (suc (suc (suc (suc (suc (suc n)))))))) r v lt hr e = absurd (omega arith)
