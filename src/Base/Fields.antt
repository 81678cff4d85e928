-- ===== src/Base/Fields.antt =====
-- `^` on the fields of a number: its quotient and remainder by a power of two, and bytes.
use Prim.Native.Nat.{bit_or, ℕ, zero, suc, ◌+◌, ◌*◌, ◌/◌, ◌%◌, ◌^◌, ◌<◌, bit_and, bit_xor}
use mathlib.Core.Path.{◌≡◌, ap, ap₂, sym, ◌∙◌}
use native.Mathlib.Nat.{pow-suc, one-le-pow, add_comm, add-mul-div_right, add-mul-mod_self_right}
use native.Mathlib.Nat.{div-eq_of_lt, mod-eq_of_lt, div-div-eq-div-mul}
use native.Mathlib.Omega.{arith}
use satnogs_gr_oot.Base.Bits.{or_by_digits, bit_and_mask, and_by_digits, xor_by_digits}
use satnogs_gr_oot.Base.Bits.{bit_xor-zero, xor_comm, bit_xor-lt}

pub xor_double : (a b : ℕ) → bit_xor (a * 2) (b * 2) ≡ bit_xor a b * 2
xor_double a b = omega (
  arith,
  xor_by_digits (a * 2) (b * 2),
  ap₂ bit_xor (let e : a * 2 / 2 ≡ a = omega arith in e) (let e : b * 2 / 2 ≡ b = omega arith in e),
)

-- `(hi << 1 | lo) ^ (hi' << 1 | lo')` field by field.
pub xor_low :
    (a b r s : ℕ) → r < 2 → s < 2 → bit_xor (a * 2 + r) (b * 2 + s) ≡ bit_xor a b * 2 + (r + s) % 2
xor_low a b r s p q = omega (
  arith,
  xor_by_digits (a * 2 + r) (b * 2 + s),
  ap₂ bit_xor (let e : (a * 2 + r) / 2 ≡ a = omega arith in e)
      (let e : (b * 2 + s) / 2 ≡ b = omega arith in e),
)

pub scale : (a k : ℕ) → a * 2 ^ suc k ≡ a * 2 ^ k * 2
scale a k = omega (arith, ap (λ (t : ℕ). a * t) (pow-suc 2 k))

-- `^` works field by field on numbers split at bit `k`.
pub xor_fields :
    (k a b r s : ℕ)
    → r < 2 ^ k
    → s < 2 ^ k
    → bit_xor (a * 2 ^ k + r) (b * 2 ^ k + s) ≡ bit_xor a b * 2 ^ k + bit_xor r s
xor_fields zero a b r s p q =
    let e : r ≡ 0 = omega arith in
    let e' : s ≡ 0 = omega arith in
    omega (
      arith,
      ap₂ bit_xor (let f : a * 1 + r ≡ a = omega arith in f)
          (let f : b * 1 + s ≡ b = omega arith in f),
      ap₂ bit_xor e e',
    )
xor_fields (suc k) a b r s p q = omega (
  arith,
  scale a k,
  scale b k,
  scale (bit_xor a b) k,
  ap₂ bit_xor
      (let f : a * 2 ^ suc k + r ≡ (a * 2 ^ k + r / 2) * 2 + r % 2 = omega (arith, scale a k) in f)
      (let f : b * 2 ^ suc k + s ≡ (b * 2 ^ k + s / 2) * 2 + s % 2 = omega (arith, scale b k) in f),
  xor_low (a * 2 ^ k + r / 2) (b * 2 ^ k + s / 2) (r % 2) (s % 2) (omega arith) (omega arith),
  xor_fields k a b (r / 2) (s / 2) (omega (arith, pow-suc 2 k)) (omega (arith, pow-suc 2 k)),
  xor_by_digits r s,
)

pub split_div : (p q r : ℕ) → r < p → (q * p + r) / p ≡ q
split_div p q r h = omega (
  arith,
  add-mul-div_right r q {z = p} (omega arith),
  div-eq_of_lt h,
  add_comm (q * p) r,
  ap (λ t. t / p) (add_comm (q * p) r),
)

pub split_mod : (p q r : ℕ) → r < p → (q * p + r) % p ≡ r
split_mod p q r h =
    omega
      (arith, add-mul-mod_self_right r q p, mod-eq_of_lt h, ap (λ t. t % p) (add_comm (q * p) r))

pub split_at : (k x : ℕ) → (x ≡ x / 2 ^ k * 2 ^ k + x % 2 ^ k) × (x % 2 ^ k < 2 ^ k)
split_at k x = ground (arith, one-le-pow k 2)

xor_split :
    (k x y : ℕ)
    → bit_xor x y ≡ bit_xor (x / 2 ^ k) (y / 2 ^ k) * 2 ^ k + bit_xor (x % 2 ^ k) (y % 2 ^ k)
xor_split k x y =
    let (ex, lx) = split_at k x in
    let (ey, ly) = split_at k y in
    ap₂ bit_xor ex ey ∙ xor_fields k (x / 2 ^ k) (y / 2 ^ k) (x % 2 ^ k) (y % 2 ^ k) lx ly

pub xor_div : (k x y : ℕ) → bit_xor x y / 2 ^ k ≡ bit_xor (x / 2 ^ k) (y / 2 ^ k)
xor_div k x y =
    ap (λ t. t / 2 ^ k) (xor_split k x y)
    ∙ split_div (2 ^ k) (bit_xor (x / 2 ^ k) (y / 2 ^ k)) (bit_xor (x % 2 ^ k) (y % 2 ^ k))
        (bit_xor-lt k _ _ (split_at k x).1 (split_at k y).1)

pub xor_mod : (k x y : ℕ) → bit_xor x y % 2 ^ k ≡ bit_xor (x % 2 ^ k) (y % 2 ^ k)
xor_mod k x y =
    ap (λ t. t % 2 ^ k) (xor_split k x y)
    ∙ split_mod (2 ^ k) (bit_xor (x / 2 ^ k) (y / 2 ^ k)) (bit_xor (x % 2 ^ k) (y % 2 ^ k))
        (bit_xor-lt k _ _ (split_at k x).1 (split_at k y).1)

-- `(x << k) ^ (y << k)`
pub xor_shift : (k x y : ℕ) → bit_xor (x * 2 ^ k) (y * 2 ^ k) ≡ bit_xor x y * 2 ^ k
xor_shift k x y =
    let e : (z : ℕ) → z * 2 ^ k + 0 ≡ z * 2 ^ k = λ z. omega arith in
    ap₂ bit_xor (sym (e x)) (sym (e y))
    ∙ xor_fields k x y 0 0 (one-le-pow k 2 (omega arith)) (one-le-pow k 2 (omega arith))
    ∙ e (bit_xor x y)

-- `(x << k) ^ y` puts `y` under `x`.
pub xor_join : (k x y : ℕ) → y < 2 ^ k → bit_xor (x * 2 ^ k) y ≡ x * 2 ^ k + y
xor_join k x y h =
    let e : x * 2 ^ k ≡ x * 2 ^ k + 0 = omega arith in
    let e' : y ≡ 0 * 2 ^ k + y = omega arith in
    ap₂ bit_xor e e'
    ∙ xor_fields k x 0 0 y (one-le-pow k 2 (omega arith)) h
    ∙ ap₂ (λ s t. s * 2 ^ k + t) (bit_xor-zero x) (xor_comm 0 y ∙ bit_xor-zero y)

-- `x & (1 << k)`
pub bit_and_bit : (k a : ℕ) → bit_and a (2 ^ k) ≡ a / 2 ^ k % 2 * 2 ^ k
bit_and_bit zero a = omega (arith, bit_and_mask 1 a)
bit_and_bit (suc k) a = omega (
  arith,
  and_by_digits a (2 ^ suc k),
  pow-suc 2 k,
  ap (λ t. bit_and (a / 2) t) (let e : 2 ^ suc k / 2 ≡ 2 ^ k = omega (arith, pow-suc 2 k) in e),
  bit_and_bit k (a / 2),
  scale (a / 2 / 2 ^ k % 2) k,
  div-div-eq-div-mul a 2 (2 ^ k),
  ap (λ t. a / t) (let e : 2 * 2 ^ k ≡ 2 ^ suc k = omega (arith, pow-suc 2 k) in e),
  ap (λ t. t % 2 * 2 ^ suc k)
      (div-div-eq-div-mul a 2 (2 ^ k)
        ∙ ap (λ t. a / t) (let e : 2 * 2 ^ k ≡ 2 ^ suc k = omega (arith, pow-suc 2 k) in e)),
)

-- `^` of two single bits.
pub xor_bit : (a b : ℕ) → a < 2 → b < 2 → bit_xor a b ≡ (a + b) % 2
xor_bit a b p q =
    let e : a / 2 ≡ 0 = omega arith in
    let e' : b / 2 ≡ 0 = omega arith in omega (arith, xor_by_digits a b, ap₂ bit_xor e e')

pub bit_or-lt : (k a b : ℕ) → a < 2 ^ k → b < 2 ^ k → bit_or a b < 2 ^ k
bit_or-lt zero a b ha hb =
    let ea : a ≡ 0 = omega arith in let eb : b ≡ 0 = omega arith in omega (arith, ap₂ bit_or ea eb)
bit_or-lt (suc k) a b ha hb = omega (
  arith,
  or_by_digits a b,
  pow-suc 2 k,
  bit_or-lt k (a / 2) (b / 2) (omega (arith, pow-suc 2 k)) (omega (arith, pow-suc 2 k)),
)
