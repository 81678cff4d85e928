-- ===== src/Bytes.antt =====
-- The lines that take a `uint8_t` apart into bits and put it together again, which lib/whitening.cc,
-- lib/convolutional_deinterleaver.cc and lib/ax25_encoder.cc write out eight at a time.
pub mod Laws
pub mod Range
use satnogs_gr_oot.Base.{ℕ, zero, suc, ◌+◌, ◌*◌, ◌/◌, ◌%◌, ◌^◌, bit_and, bit_or, List, [], ◌∷◌}

-- `x >> 7`, `(x >> 6) & 0x1`, …, `x & 0x1`
abbrev pub msb_bits : ℕ → List ℕ
msb_bits x =
    x / 2 ^ 7
    ∷ bit_and (x / 2 ^ 6) 1
    ∷ bit_and (x / 2 ^ 5) 1
    ∷ bit_and (x / 2 ^ 4) 1
    ∷ bit_and (x / 2 ^ 3) 1
    ∷ bit_and (x / 2 ^ 2) 1
    ∷ bit_and (x / 2 ^ 1) 1
    ∷ bit_and x 1
    ∷ []

-- `x & 0x1`, `(x >> 1) & 0x1`, …, `(x >> 7) & 0x1`
abbrev pub lsb_bits : ℕ → List ℕ
lsb_bits x =
    bit_and x 1
    ∷ bit_and (x / 2 ^ 1) 1
    ∷ bit_and (x / 2 ^ 2) 1
    ∷ bit_and (x / 2 ^ 3) 1
    ∷ bit_and (x / 2 ^ 4) 1
    ∷ bit_and (x / 2 ^ 5) 1
    ∷ bit_and (x / 2 ^ 6) 1
    ∷ bit_and (x / 2 ^ 7) 1
    ∷ []

-- `b |= bit << k` for falling `k`, the last with `k` 0; `b` is a `uint8_t`.
unfoldable pub or_falling : ℕ → ℕ → List ℕ → ℕ
or_falling k b [] = b
or_falling zero b (x ∷ bits) = b
or_falling (suc k) b (x ∷ bits) = or_falling k (bit_or b (x * 2 ^ k % 2 ^ 8)) bits

-- `b |= bit << k` for rising `k`.
unfoldable pub or_rising : ℕ → ℕ → List ℕ → ℕ
or_rising k b [] = b
or_rising k b (x ∷ bits) = or_rising (k + 1) (bit_or b (x * 2 ^ k % 2 ^ 8)) bits

-- `b = bit << 7; b |= bit << 6; …; b |= bit`
unfoldable pub join_msb : List ℕ → ℕ
join_msb bits = or_falling 8 0 bits

-- `b = bit; b |= bit << 1; …; b |= bit << 7`
unfoldable pub join_lsb : List ℕ → ℕ
join_lsb bits = or_rising 0 0 bits
