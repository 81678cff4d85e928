-- ===== src/Crc/Laws.antt =====
-- The table-driven loops of lib/crc.cc against the bit-at-a-time definition.
use native.Mathlib.Nat.{pow-suc, one-le-pow}
use satnogs_gr_oot.Base.{ℕ, zero, suc, ◌+◌, ◌*◌, ◌/◌, ◌%◌, ◌^◌, ◌<◌, bit_and, bit_xor, List, []}
use satnogs_gr_oot.Base.{◌∷◌, ◌≡◌, refl, ap, sym, ◌∙◌, arith, ◌==◌, get_or, IsBytes, all_below}
use satnogs_gr_oot.Base.{all_below_lem, ==_iff, bit_and_mask, xor_assoc, xor_comm, xor_parity}
use satnogs_gr_oot.Base.{xor_half, xor_div, xor_mod, xor_shift, xor_join, bit_xor-zero, bit_xor-lt}
use satnogs_gr_oot.Base.{xor_double, true}
use satnogs_gr_oot.Crc.{reflected_step, reflected_loop}
use satnogs_gr_oot.Crc.Reference.{shift_left, shift_right, times, left_byte, right_byte, remainder}

double : (b n : ℕ) → b * 2 ^ suc n ≡ b * 2 ^ n * 2
double b n = omega (arith, ap (λ (t : ℕ). b * t) (pow-suc 2 n))

-- A shift to the right is linear as long as what is put in has no lowest bit.
shift_right-xor :
    (poly a b : ℕ)
    → b % 2 ≡ 0
    → shift_right poly (bit_xor a b) ≡ bit_xor (shift_right poly a) (b / 2)
unfolding shift_right
shift_right-xor poly a b h = ground (
  arith,
  xor_half a b,
  xor_parity a b,
  xor_assoc (a / 2) (b / 2) poly,
  xor_comm (b / 2) poly,
  xor_assoc (a / 2) poly (b / 2),
)

times_right-xor :
    (n poly a b : ℕ)
    → times n (shift_right poly) (bit_xor a (b * 2 ^ n)) ≡ bit_xor (times n (shift_right poly) a) b
unfolding times
times_right-xor zero poly a b = ap (λ t. bit_xor a t) (omega arith)
times_right-xor (suc n) poly a b =
    ap (times n (shift_right poly)) (
      shift_right-xor poly a (b * 2 ^ suc n) (omega (arith, double b n))
      ∙ ap (λ t. bit_xor (shift_right poly a) t) (omega (arith, double b n)))
    ∙ times_right-xor n poly (shift_right poly a) b

-- A byte that is put into a register that moves to the right meets only its lowest byte.
low_byte : (r d : ℕ) → bit_xor r d ≡ bit_xor (bit_xor (r % 2 ^ 8) d) (r / 2 ^ 8 * 2 ^ 8)
low_byte r d =
    let e : r ≡ r / 2 ^ 8 * 2 ^ 8 + r % 2 ^ 8 = omega arith in
    ap (λ t. bit_xor t d) (e ∙ sym (xor_join 8 (r / 2 ^ 8) (r % 2 ^ 8) (omega arith)))
    ∙ xor_assoc (r / 2 ^ 8 * 2 ^ 8) (r % 2 ^ 8) d
    ∙ xor_comm (r / 2 ^ 8 * 2 ^ 8) (bit_xor (r % 2 ^ 8) d)

pub index-right : (r d : ℕ) → d < 2 ^ 8 → bit_and (bit_xor r d) 0xff ≡ bit_xor (r % 2 ^ 8) d
index-right r d h =
    bit_and_mask 8 (bit_xor r d) ∙ xor_mod 8 r d ∙ ap (λ t. bit_xor (r % 2 ^ 8) t) (omega arith)

right_byte_lem :
    (poly r d : ℕ)
    → right_byte poly r d ≡ bit_xor (times 8 (shift_right poly) (bit_xor (r % 2 ^ 8) d)) (r / 2 ^ 8)
unfolding right_byte
right_byte_lem poly r d =
    ap (times 8 (shift_right poly)) (low_byte r d)
    ∙ times_right-xor 8 poly (bit_xor (r % 2 ^ 8) d) (r / 2 ^ 8)

-- Where the table holds eight shifts of each index, a step through it is eight shifts.
module _ (table : List ℕ) (poly : ℕ)
    (held : all_below 256 (λ i. get_or table i 0 == times 8 (shift_right poly) i) ≡ true) where
  reflected_step-eq-right_byte :
      (r d : ℕ) → d < 2 ^ 8 → reflected_step table r d ≡ right_byte poly r d
  unfolding reflected_step
  reflected_step-eq-right_byte r d h =
      let i : ℕ = bit_xor (r % 2 ^ 8) d in
      let in_range : i < 256 = bit_xor-lt 8 (r % 2 ^ 8) d (omega arith) h in
      ap (λ t. bit_xor (r / 2 ^ 8) (get_or table t 0)) (index-right r d h)
      ∙ ap (λ t. bit_xor (r / 2 ^ 8) t) ((==_iff _ _).0 (all_below_lem 256 _ i held in_range))
      ∙ xor_comm (r / 2 ^ 8) (times 8 (shift_right poly) i)
      ∙ sym (right_byte_lem poly r d)

  pub reflected_loop-eq-remainder :
      (r : ℕ) (bytes : List ℕ)
      → IsBytes bytes
      → reflected_loop table r bytes ≡ remainder (right_byte poly) r bytes
  unfolding reflected_loop remainder
  reflected_loop-eq-remainder r [] h = refl
  reflected_loop-eq-remainder r (d ∷ bytes) (p, h) =
      ap (λ t. reflected_loop table t bytes) (reflected_step-eq-right_byte r d p)
      ∙ reflected_loop-eq-remainder (right_byte poly r d) bytes h

-- A shift to the left is linear as long as what is put in has no highest bit.
shift_left-xor :
    (poly a b : ℕ)
    → b < 2 ^ 15
    → shift_left poly (bit_xor a b) ≡ bit_xor (shift_left poly a) (b * 2)
unfolding shift_left
shift_left-xor poly a b h =
    let top : bit_xor a b / 2 ^ 15 ≡ a / 2 ^ 15 =
      xor_div 15 a b
      ∙ ap (λ t. bit_xor (a / 2 ^ 15) t) (let e : b / 2 ^ 15 ≡ 0 = omega arith in e)
      ∙ bit_xor-zero (a / 2 ^ 15) in
    let low : bit_xor a b * 2 % 2 ^ 16 ≡ bit_xor (a * 2 % 2 ^ 16) (b * 2) =
      ap (λ t. t % 2 ^ 16) (sym (xor_double a b))
      ∙ xor_mod 16 (a * 2) (b * 2)
      ∙ ap (λ t. bit_xor (a * 2 % 2 ^ 16) t) (omega arith) in
    ground (
      arith,
      top,
      low,
      xor_assoc (a * 2 % 2 ^ 16) (b * 2) poly,
      xor_comm (b * 2) poly,
      xor_assoc (a * 2 % 2 ^ 16) poly (b * 2),
    )

times_left-xor :
    (n poly a b : ℕ)
    → b * 2 ^ n < 2 ^ 16
    → times n (shift_left poly) (bit_xor a b) ≡ bit_xor (times n (shift_left poly) a) (b * 2 ^ n)
unfolding times
times_left-xor zero poly a b h = ap (λ t. bit_xor a t) (omega arith)
times_left-xor (suc n) poly a b h =
    ap (times n (shift_left poly))
      (shift_left-xor poly a b (grind (arith, double b n, one-le-pow n 2)))
    ∙ times_left-xor n poly (shift_left poly a) (b * 2) (omega (arith, double b n))
    ∙ ap (λ t. bit_xor (times n (shift_left poly) (shift_left poly a)) t)
        (omega (arith, double b n))

-- A byte put into the top of a register that moves to the left.
high_byte : (r d : ℕ) → bit_xor r (d * 2 ^ 8) ≡ bit_xor (bit_xor (r / 2 ^ 8) d * 2 ^ 8) (r % 2 ^ 8)
high_byte r d =
    let e : r ≡ r / 2 ^ 8 * 2 ^ 8 + r % 2 ^ 8 = omega arith in
    ap (λ t. bit_xor t (d * 2 ^ 8)) (e ∙ sym (xor_join 8 (r / 2 ^ 8) (r % 2 ^ 8) (omega arith)))
    ∙ xor_assoc (r / 2 ^ 8 * 2 ^ 8) (r % 2 ^ 8) (d * 2 ^ 8)
    ∙ ap (λ t. bit_xor (r / 2 ^ 8 * 2 ^ 8) t) (xor_comm (r % 2 ^ 8) (d * 2 ^ 8))
    ∙ sym (xor_assoc (r / 2 ^ 8 * 2 ^ 8) (d * 2 ^ 8) (r % 2 ^ 8))
    ∙ ap (λ t. bit_xor t (r % 2 ^ 8)) (xor_shift 8 (r / 2 ^ 8) d)

pub left_byte_lem :
    (poly r d : ℕ)
    → left_byte poly r d
      ≡ bit_xor (times 8 (shift_left poly) (bit_xor (r / 2 ^ 8) d * 2 ^ 8)) (r % 2 ^ 8 * 2 ^ 8)
unfolding left_byte
left_byte_lem poly r d =
    ap (times 8 (shift_left poly)) (high_byte r d)
    ∙ times_left-xor 8 poly (bit_xor (r / 2 ^ 8) d * 2 ^ 8) (r % 2 ^ 8) (omega arith)
