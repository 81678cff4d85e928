-- ===== src/Utils/Laws.antt =====
-- `bit_count` and the mirror of `utils` against the bits of their arguments.
use satnogs_gr_oot.Base.{ℕ, zero, suc, ◌+◌, ◌/◌, ◌%◌, ◌^◌, ◌<◌, ◌≡◌, refl, true, ◌==◌, ==_iff}
use satnogs_gr_oot.Base.{all_below, all_below_lem}
use satnogs_gr_oot.Utils.{bit_count, reverse_byte, s_bytes_reversed}
use satnogs_gr_oot.Bytes.{join_lsb, or_rising, msb_bits}

-- The sum of the lowest `n` binary digits.
unfoldable pub ones : ℕ → ℕ → ℕ
ones zero x = 0
ones (suc n) x = x % 2 + ones n (x / 2)

counted : all_below 4096 (λ x. bit_count x == ones 12 x) ≡ true
unfolding all_below bit_count ones
counted = refl

-- On the numbers of 12 bits, which the Golay code counts, `bit_count` is the number of ones.
pub bit_count-ones : (x : ℕ) → x < 2 ^ 12 → bit_count x ≡ ones 12 x
bit_count-ones x lt =
    (==_iff (bit_count x) (ones 12 x)).0
      (all_below_lem 4096 (λ x. bit_count x == ones 12 x) x counted lt)

mirrored : all_below 256 (λ b. reverse_byte b == join_lsb (msb_bits b)) ≡ true
unfolding all_below reverse_byte s_bytes_reversed join_lsb or_rising
mirrored = refl

back_again : all_below 256 (λ b. reverse_byte (reverse_byte b) == b) ≡ true
unfolding all_below reverse_byte s_bytes_reversed
back_again = refl

-- On every byte, the table mirrors the bits: the most significant bit comes out as the least
-- significant one and so on, and mirroring twice gives the byte again.
pub reverse_byte-mirror :
    (b : ℕ)
    → b < 2 ^ 8
    → (reverse_byte b ≡ join_lsb (msb_bits b)) × (reverse_byte (reverse_byte b) ≡ b)
reverse_byte-mirror b lt = (
  (==_iff (reverse_byte b) (join_lsb (msb_bits b))).0
      (all_below_lem 256 (λ b. reverse_byte b == join_lsb (msb_bits b)) b mirrored lt),
  (==_iff (reverse_byte (reverse_byte b)) b).0
      (all_below_lem 256 (λ b. reverse_byte (reverse_byte b) == b) b back_again lt),
)
