-- ===== src/Crc/Reference.antt =====
-- CRCs by their definition: division by the generator polynomial, a bit at a time. A register
-- that moves to the left takes the most significant bit first; one that moves to the right has
-- its polynomial reflected and takes the least significant bit first.
use satnogs_gr_oot.Base.{ℕ, zero, suc, ◌*◌, ◌/◌, ◌%◌, ◌^◌, bit_xor, List, [], ◌∷◌, if◌then◌else◌}
use satnogs_gr_oot.Base.{◌==◌}

-- One bit of a 16-bit register that moves to the left.
unfoldable pub shift_left : ℕ → ℕ → ℕ
shift_left poly r = if r / 2 ^ 15 % 2 == 0 then r * 2 % 2 ^ 16 else bit_xor (r * 2 % 2 ^ 16) poly

-- One bit of a register that moves to the right.
unfoldable pub shift_right : ℕ → ℕ → ℕ
shift_right poly r = if r % 2 == 0 then r / 2 else bit_xor (r / 2) poly

unfoldable pub times : ℕ → (ℕ → ℕ) → ℕ → ℕ
times zero f r = r
times (suc n) f r = times n f (f r)

unfoldable pub left_byte : ℕ → ℕ → ℕ → ℕ
left_byte poly r d = times 8 (shift_left poly) (bit_xor r (d * 2 ^ 8))

unfoldable pub right_byte : ℕ → ℕ → ℕ → ℕ
right_byte poly r d = times 8 (shift_right poly) (bit_xor r d)

unfoldable pub remainder : (ℕ → ℕ → ℕ) → ℕ → List ℕ → ℕ
remainder byte r [] = r
remainder byte r (d ∷ bytes) = remainder byte (byte r d) bytes
