-- ===== src/Crc/Refine.antt =====
-- Each CRC of lib/crc.cc is the remainder of a polynomial division.
use native.Mathlib.Nat.{pow-suc, div-add-mod, add-mul-mod_self_right}
use satnogs_gr_oot.Base.{ℕ, zero, suc, ◌*◌, ◌/◌, ◌%◌, ◌^◌, ◌<◌, bit_and, bit_xor, List, [], ◌∷◌}
use satnogs_gr_oot.Base.{◌≡◌, refl, ap, ap₂, sym, ◌∙◌, arith, ◌==◌, if◌then◌else◌, true, get_or}
use satnogs_gr_oot.Base.{IsBytes, all_below, all_below_lem, ==_iff, bit_and_mask, bit_and_bit}
use satnogs_gr_oot.Base.{xor_mod, xor_div, xor_shift, xor_double, xor_assoc, xor_comm, bit_xor-zero}
use satnogs_gr_oot.Base.{bit_xor-lt}
use satnogs_gr_oot.Crc.{crc16_ccitt_reversed, crc16_ax25, crc32_c, ccitt_step, ccitt_loop}
use satnogs_gr_oot.Crc.{crc16_ccitt, crc16_aug_ccitt, ibm_bits, update_crc16_ibm, ibm_loop}
use satnogs_gr_oot.Crc.{crc16_ibm}
use satnogs_gr_oot.Crc.Tables.{ccitt_table_reverse, ccitt_table, c_table}
use satnogs_gr_oot.Crc.Reference.{shift_left, shift_right, times, left_byte, right_byte, remainder}
use satnogs_gr_oot.Crc.Laws.{reflected_loop-eq-remainder, left_byte_lem}

reverse_held :
    all_below 256 (λ i. get_or ccitt_table_reverse i 0 == times 8 (shift_right 0x8408) i) ≡ true
unfolding all_below ccitt_table_reverse times shift_right
reverse_held = refl

c_held : all_below 256 (λ i. get_or c_table i 0 == times 8 (shift_right 0x82f63b78) i) ≡ true
unfolding all_below c_table times shift_right
c_held = refl

ccitt_held :
    all_below 256 (λ i. get_or ccitt_table i 0 == times 8 (shift_left 0x1021) (i * 2 ^ 8)) ≡ true
unfolding all_below ccitt_table times shift_left
ccitt_held = refl

ccitt_in_range :
    all_below 256 (λ i. get_or ccitt_table i 0 % 2 ^ 16 == get_or ccitt_table i 0) ≡ true
unfolding all_below ccitt_table
ccitt_in_range = refl

-- `crc16_ax25` and `crc16_ccitt_reversed` are CRC-16/X-25: the generator 0x1021 reflected, all ones
-- at the start, the result inverted, on every list of bytes.
pub crc16_ax25-remainder :
    (bytes : List ℕ)
    → IsBytes bytes
    → (crc16_ax25 bytes ≡ bit_xor (remainder (right_byte 0x8408) 0xffff bytes) 0xffff)
      × (crc16_ccitt_reversed bytes ≡ crc16_ax25 bytes)
unfolding crc16_ax25 crc16_ccitt_reversed
crc16_ax25-remainder bytes h = (
  ap (λ t. bit_xor t 0xffff)
      (reflected_loop-eq-remainder ccitt_table_reverse 0x8408 reverse_held 0xffff bytes h),
  refl,
)

-- `crc32_c` is CRC-32C (Castagnoli): the generator 0x1EDC6F41 reflected, all ones at the start, the
-- result inverted, on every list of bytes.
pub crc32_c-remainder :
    (bytes : List ℕ)
    → IsBytes bytes
    → crc32_c bytes ≡ bit_xor (remainder (right_byte 0x82f63b78) 0xffffffff bytes) 0xffffffff
unfolding crc32_c
crc32_c-remainder bytes h =
    ap (λ t. bit_xor t 0xffffffff)
      (reflected_loop-eq-remainder c_table 0x82f63b78 c_held 0xffffffff bytes h)

shift_left-lt : (poly r : ℕ) → poly < 2 ^ 16 → shift_left poly r < 2 ^ 16
unfolding shift_left
shift_left-lt poly r h = ground (arith, bit_xor-lt 16 (r * 2 % 2 ^ 16) poly (omega arith) h)

pub ccitt_step-lt : (r d : ℕ) → ccitt_step r d < 2 ^ 16
unfolding ccitt_step
ccitt_step-lt r d = omega arith

ccitt_step-eq-left_byte : (r d : ℕ) → r < 2 ^ 16 → d < 2 ^ 8 → ccitt_step r d ≡ left_byte 0x1021 r d
unfolding ccitt_step
ccitt_step-eq-left_byte r d hr hd =
    let i : ℕ = bit_xor (r / 2 ^ 8) d in
    let in_range : i < 256 = bit_xor-lt 8 (r / 2 ^ 8) d (omega arith) hd in
    let index : bit_and i 0xff ≡ i = omega (arith, bit_and_mask 8 i) in
    let entry : get_or ccitt_table i 0 % 2 ^ 16 ≡ times 8 (shift_left 0x1021) (i * 2 ^ 8) =
      (==_iff _ _).0 (all_below_lem 256 _ i ccitt_in_range in_range)
      ∙ (==_iff _ _).0 (all_below_lem 256 _ i ccitt_held in_range) in
    ap (λ t. bit_xor (get_or ccitt_table t 0) (r * 2 ^ 8) % 2 ^ 16) index
    ∙ xor_mod 16 (get_or ccitt_table i 0) (r * 2 ^ 8)
    ∙ ap₂ bit_xor entry (let e : r * 2 ^ 8 % 2 ^ 16 ≡ r % 2 ^ 8 * 2 ^ 8 = omega arith in e)
    ∙ sym (left_byte_lem 0x1021 r d)

ccitt_loop-eq-remainder :
    (r : ℕ) (bytes : List ℕ)
    → r < 2 ^ 16
    → IsBytes bytes
    → ccitt_loop r bytes ≡ remainder (left_byte 0x1021) r bytes
unfolding ccitt_loop remainder
ccitt_loop-eq-remainder r [] hr h = refl
ccitt_loop-eq-remainder r (d ∷ bytes) hr (p, h) =
    ccitt_loop-eq-remainder (ccitt_step r d) bytes (ccitt_step-lt r d) h
    ∙ ap (λ t. remainder (left_byte 0x1021) t bytes) (ccitt_step-eq-left_byte r d hr p)

-- `crc16_ccitt` is CRC-16/XMODEM (generator 0x1021, zero at the start) and `crc16_aug_ccitt` differs
-- from it by the start 0x1D0F and the inverted result, on every list of bytes.
pub crc16_ccitt-remainder :
    (bytes : List ℕ)
    → IsBytes bytes
    → (crc16_ccitt bytes ≡ remainder (left_byte 0x1021) 0 bytes)
      × (crc16_aug_ccitt bytes ≡ bit_xor (remainder (left_byte 0x1021) 0x1d0f bytes) 0xffff)
unfolding crc16_ccitt crc16_aug_ccitt
crc16_ccitt-remainder bytes h = (
  ccitt_loop-eq-remainder 0 bytes (omega arith) h,
  ap (λ t. bit_xor t 0xffff) (ccitt_loop-eq-remainder 0x1d0f bytes (omega arith) h),
)

-- One round of `update_crc16_ibm` is one shift of the register with the byte's bits put into its top.
ibm_test :
    (r c : ℕ)
    → c < 2 ^ 8
    → bit_xor (bit_and r 0x8000 / 2 ^ 8) (bit_and c 0x80)
      ≡ bit_xor r (c * 2 ^ 8) / 2 ^ 15 % 2 * 2 ^ 7
ibm_test r c h =
    let e : bit_and r 0x8000 / 2 ^ 8 ≡ r / 2 ^ 15 % 2 * 2 ^ 7 = omega (arith, bit_and_bit 15 r) in
    ap₂ bit_xor e (bit_and_bit 7 c)
    ∙ xor_shift 7 (r / 2 ^ 15 % 2) (c / 2 ^ 7 % 2)
    ∙ ap (λ t. t * 2 ^ 7)
        (ap (λ t. bit_xor (r / 2 ^ 15 % 2) t)
            (let f : c / 2 ^ 7 % 2 ≡ c * 2 ^ 8 / 2 ^ 15 % 2 = omega arith in f)
          ∙ sym (xor_mod 1 (r / 2 ^ 15) (c * 2 ^ 8 / 2 ^ 15))
          ∙ ap (λ t. t % 2) (sym (xor_div 15 r (c * 2 ^ 8))))

ibm_shifted :
    (r c : ℕ)
    → bit_xor r (c * 2 ^ 8) * 2 % 2 ^ 16 ≡ bit_xor (r * 2 % 2 ^ 16) (c * 2 % 2 ^ 8 * 2 ^ 8)
ibm_shifted r c =
    ap (λ t. t % 2 ^ 16) (sym (xor_double r (c * 2 ^ 8)))
    ∙ xor_mod 16 (r * 2) (c * 2 ^ 8 * 2)
    ∙ ap (λ t. bit_xor (r * 2 % 2 ^ 16) t) (omega arith)

ibm_round :
    (r c : ℕ)
    → c < 2 ^ 8
    → (if bit_xor (bit_and r 0x8000 / 2 ^ 8) (bit_and c 0x80) == 0
        then r * 2 % 2 ^ 16
        else bit_xor (r * 2) 0x8005 % 2 ^ 16)
      ≡ (if bit_xor r (c * 2 ^ 8) / 2 ^ 15 % 2 == 0
          then r * 2 % 2 ^ 16
          else bit_xor (r * 2 % 2 ^ 16) 0x8005)
ibm_round r c h = ground (arith, ibm_test r c h, xor_mod 16 (r * 2) 0x8005)

shift_left_ibm :
    (r c : ℕ)
    → shift_left 0x8005 (bit_xor r (c * 2 ^ 8))
      ≡ bit_xor
          (if bit_xor r (c * 2 ^ 8) / 2 ^ 15 % 2 == 0
            then r * 2 % 2 ^ 16
            else bit_xor (r * 2 % 2 ^ 16) 0x8005)
          (c * 2 % 2 ^ 8 * 2 ^ 8)
unfolding shift_left
shift_left_ibm r c = ground (
  arith,
  ibm_shifted r c,
  xor_assoc (r * 2 % 2 ^ 16) (c * 2 % 2 ^ 8 * 2 ^ 8) 0x8005,
  xor_assoc (r * 2 % 2 ^ 16) 0x8005 (c * 2 % 2 ^ 8 * 2 ^ 8),
  xor_comm 0x8005 (c * 2 % 2 ^ 8 * 2 ^ 8),
)

mod-mul_left : (x y m : ℕ) → x % m * y % m ≡ x * y % m
mod-mul_left x y m = sym (
    ap (λ t. t % m) (grind (arith, div-add-mod x m))
    ∙ add-mul-mod_self_right (x % m * y) (x / m * y) m)

ibm_bits-eq-times :
    (n c r : ℕ)
    → c < 2 ^ 8
    → c * 2 ^ n % 2 ^ 8 ≡ 0
    → ibm_bits n c r ≡ times n (shift_left 0x8005) (bit_xor r (c * 2 ^ 8))
unfolding ibm_bits times
ibm_bits-eq-times zero c r h z =
    sym (ap (λ t. bit_xor r t) (let e : c * 2 ^ 8 ≡ 0 = omega arith in e) ∙ bit_xor-zero r)
ibm_bits-eq-times (suc n) c r h z =
    ibm_bits-eq-times n (c * 2 % 2 ^ 8) _ (omega arith) (
      mod-mul_left (c * 2) (2 ^ n) (2 ^ 8)
      ∙ ap (λ t. t % 2 ^ 8) (omega (arith, ap (λ (t : ℕ). c * t) (pow-suc 2 n)))
      ∙ z)
    ∙ ap (times n (shift_left 0x8005))
        (ap (λ t. bit_xor t (c * 2 % 2 ^ 8 * 2 ^ 8)) (ibm_round r c h) ∙ sym (shift_left_ibm r c))

ibm_loop-eq-remainder :
    (r : ℕ) (bytes : List ℕ)
    → IsBytes bytes
    → ibm_loop r bytes ≡ remainder (left_byte 0x8005) r bytes
unfolding ibm_loop remainder update_crc16_ibm left_byte
ibm_loop-eq-remainder r [] h = refl
ibm_loop-eq-remainder r (d ∷ bytes) (p, h) =
    ibm_loop-eq-remainder (update_crc16_ibm d r) bytes h
    ∙ ap (λ t. remainder (left_byte 0x8005) t bytes) (ibm_bits-eq-times 8 d r p (omega arith))

-- `crc16_ibm` is CRC-16/CMS: the generator 0x8005, all ones at the start, on every list of bytes.
pub crc16_ibm-remainder :
    (bytes : List ℕ) → IsBytes bytes → crc16_ibm bytes ≡ remainder (left_byte 0x8005) 0xffff bytes
unfolding crc16_ibm
crc16_ibm-remainder bytes h = ibm_loop-eq-remainder 0xffff bytes h
