-- ===== src/Bytes/Range.antt =====
-- What is put together from bits, or from whatever stands for them, is a byte.
use satnogs_gr_oot.Base.{ℕ, zero, suc, ◌+◌, ◌*◌, ◌%◌, ◌^◌, ◌<◌, bit_or, bit_or-lt, List, [], ◌∷◌}
use satnogs_gr_oot.Base.{arith}
use satnogs_gr_oot.Bytes.{or_falling, or_rising, join_msb, join_lsb}

or_falling-lt : (k b : ℕ) (bits : List ℕ) → b < 2 ^ 8 → or_falling k b bits < 2 ^ 8
unfolding or_falling
or_falling-lt k b [] h = h
or_falling-lt zero b (x ∷ bits) h = h
or_falling-lt (suc k) b (x ∷ bits) h =
    or_falling-lt k (bit_or b (x * 2 ^ k % 2 ^ 8)) bits
      (bit_or-lt 8 b (x * 2 ^ k % 2 ^ 8) h (omega arith))

or_rising-lt : (k b : ℕ) (bits : List ℕ) → b < 2 ^ 8 → or_rising k b bits < 2 ^ 8
unfolding or_rising
or_rising-lt k b [] h = h
or_rising-lt k b (x ∷ bits) h =
    or_rising-lt (k + 1) (bit_or b (x * 2 ^ k % 2 ^ 8)) bits
      (bit_or-lt 8 b (x * 2 ^ k % 2 ^ 8) h (omega arith))

pub join_msb-lt : (bits : List ℕ) → join_msb bits < 2 ^ 8
unfolding join_msb
join_msb-lt bits = or_falling-lt 8 0 bits (omega arith)

pub join_lsb-lt : (bits : List ℕ) → join_lsb bits < 2 ^ 8
unfolding join_lsb
join_lsb-lt bits = or_rising-lt 0 0 bits (omega arith)
