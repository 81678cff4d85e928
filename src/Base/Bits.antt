-- ===== src/Base/Bits.antt =====
-- `^`, `|` and `&` of numbers at variables: one equation for the lowest digit, and the laws that
-- follow from it by recursion on half the number.
use Prim.Native.Nat.{ℕ, zero, suc, ◌+◌, ◌-◌, ◌*◌, ◌/◌, ◌%◌, ◌^◌, ◌≤◌, ◌<◌, min, max, differ, digits}
use Prim.Native.Nat.{bitwise, bit_and, bit_or, bit_xor, bit_and-bitwise, bit_or-bitwise}
use Prim.Native.Nat.{bit_xor-bitwise}
use mathlib.Core.Path.{◌≡◌, refl, ap, ap₂, sym, ◌∙◌}
use native.Mathlib.Nat.{le_refl, pow-suc, one-le-pow}
use native.Mathlib.Omega.{arith}

-- An operation that the library computes digit by digit.
module _ (z : ℕ → ℕ) (f op : ℕ → ℕ → ℕ) (op_is : (a b : ℕ) → op a b ≡ bitwise z f a b) where
  -- The digits do not depend on the fuel, if it is enough.
  spare_fuel : (b a : ℕ) (k l : ℕ) → a ≤ l → a ≤ k → digits z f l a b ≡ digits z f k a b
  spare_fuel b zero zero zero = λ hl hk. refl
  spare_fuel b zero zero (suc l) = λ hl hk. refl
  spare_fuel b zero (suc k) zero = λ hl hk. refl
  spare_fuel b zero (suc k) (suc l) = λ hl hk. refl
  spare_fuel b (suc a) zero l = λ hl hk. absurd (omega arith)
  spare_fuel b (suc a) (suc k) zero = λ hl hk. absurd (omega arith)
  spare_fuel b (suc a) (suc k) (suc l) = λ hl hk.
      ap (λ high. high * 2 + f (suc a % 2) (b % 2))
        (spare_fuel (b / 2) (suc a / 2) k l (omega arith) (omega arith))

  lowest_digit : (b a : ℕ) → op (suc a) b ≡ op (suc a / 2) (b / 2) * 2 + f (suc a % 2) (b % 2)
  lowest_digit b a =
      let half : ℕ = suc a / 2 in
      op_is (suc a) b
      ∙ ap (λ high. high * 2 + f (suc a % 2) (b % 2))
          (spare_fuel (b / 2) half half a (omega arith) (le_refl half) ∙ sym (op_is half (b / 2)))

pub zero_or : (b : ℕ) → bit_or 0 b ≡ b
zero_or b = bit_or-bitwise 0 b

pub or_by_digits : (a b : ℕ) → bit_or a b ≡ bit_or (a / 2) (b / 2) * 2 + max (a % 2) (b % 2)
or_by_digits (suc a) = λ b. lowest_digit (λ y. y) max bit_or bit_or-bitwise b a
or_by_digits zero = λ b. omega (arith, zero_or b, zero_or (b / 2))

pub zero_and : (b : ℕ) → bit_and 0 b ≡ 0
zero_and b = bit_and-bitwise 0 b

pub and_by_digits : (a b : ℕ) → bit_and a b ≡ bit_and (a / 2) (b / 2) * 2 + min (a % 2) (b % 2)
and_by_digits (suc a) = λ b. lowest_digit (λ y. 0) min bit_and bit_and-bitwise b a
and_by_digits zero = λ b. omega (arith, zero_and b, zero_and (b / 2))

differ_lem : (a b : ℕ) → a < 2 → b < 2 → differ a b ≡ (a + b) % 2
differ_lem zero zero p q = refl
differ_lem zero (suc zero) p q = refl
differ_lem zero (suc (suc b)) p q = absurd (omega arith)
differ_lem (suc zero) zero p q = refl
differ_lem (suc zero) (suc zero) p q = refl
differ_lem (suc zero) (suc (suc b)) p q = absurd (omega arith)
differ_lem (suc (suc a)) b p q = absurd (omega arith)

zero-bit_xor : (b : ℕ) → bit_xor 0 b ≡ b
zero-bit_xor b = bit_xor-bitwise 0 b

pub xor_by_digits : (a b : ℕ) → bit_xor a b ≡ bit_xor (a / 2) (b / 2) * 2 + (a + b) % 2
xor_by_digits zero b = omega (arith, zero-bit_xor b, zero-bit_xor (b / 2))
xor_by_digits (suc a) b = omega (
  arith,
  lowest_digit (λ y. y) differ bit_xor bit_xor-bitwise b a,
  differ_lem (suc a % 2) (b % 2) (omega arith) (omega arith),
)

pub bit_xor-zero : (a : ℕ) → bit_xor a 0 ≡ a
bit_xor-zero a = go a a (le_refl a)
  where
    go : (n a : ℕ) → a ≤ n → bit_xor a 0 ≡ a
    go zero a h = let e : a ≡ 0 = omega arith in ap (λ t. bit_xor t 0) e ∙ sym e
    go (suc n) a h = omega (arith, xor_by_digits a 0, go n (a / 2) (omega arith))

xor_comm_below : (n a b : ℕ) → a ≤ n → bit_xor a b ≡ bit_xor b a
xor_comm_below n zero b h = omega (arith, zero-bit_xor b, bit_xor-zero b)
xor_comm_below zero (suc a) b h = absurd (omega arith)
xor_comm_below (suc n) (suc a) b h = omega (
  arith,
  xor_by_digits (suc a) b,
  xor_by_digits b (suc a),
  xor_comm_below n (suc a / 2) (b / 2) (omega arith),
)

pub xor_comm : (a b : ℕ) → bit_xor a b ≡ bit_xor b a
xor_comm a b = xor_comm_below a a b (le_refl a)

pub xor_half : (a b : ℕ) → bit_xor a b / 2 ≡ bit_xor (a / 2) (b / 2)
xor_half a b = omega (arith, xor_by_digits a b)

pub xor_parity : (a b : ℕ) → bit_xor a b % 2 ≡ (a + b) % 2
xor_parity a b = omega (arith, xor_by_digits a b)

xor_assoc_below : (n a b c : ℕ) → a + b + c ≤ n → bit_xor (bit_xor a b) c ≡ bit_xor a (bit_xor b c)
xor_assoc_below n zero b c h =
    ap (λ t. bit_xor t c) (zero-bit_xor b) ∙ sym (zero-bit_xor (bit_xor b c))
xor_assoc_below zero (suc a) b c h = absurd (omega arith)
xor_assoc_below (suc n) (suc a) b c h = omega (
  arith,
  xor_by_digits (bit_xor (suc a) b) c,
  xor_by_digits (suc a) (bit_xor b c),
  ap (λ t. bit_xor t (c / 2)) (xor_half (suc a) b),
  ap (λ t. bit_xor (suc a / 2) t) (xor_half b c),
  xor_parity (suc a) b,
  xor_parity b c,
  xor_assoc_below n (suc a / 2) (b / 2) (c / 2) (omega arith),
)

pub xor_assoc : (a b c : ℕ) → bit_xor (bit_xor a b) c ≡ bit_xor a (bit_xor b c)
xor_assoc a b c = xor_assoc_below (a + b + c) a b c (le_refl _)

pub xor_self : (a : ℕ) → bit_xor a a ≡ 0
xor_self a = go a a (le_refl a)
  where
    go : (n a : ℕ) → a ≤ n → bit_xor a a ≡ 0
    go zero a h = let e : a ≡ 0 = omega arith in ap (λ t. bit_xor t t) e
    go (suc n) a h = omega (arith, xor_by_digits a a, go n (a / 2) (omega arith))

-- A number put in twice cancels.
pub xor_cancel : (a b : ℕ) → bit_xor (bit_xor a b) b ≡ a
xor_cancel a b = xor_assoc a b b ∙ ap (λ t. bit_xor a t) (xor_self b) ∙ bit_xor-zero a

pub xor_injective : (a b c : ℕ) → bit_xor a b ≡ bit_xor a c → b ≡ c
xor_injective a b c e =
    sym (xor_cancel b a) ∙ ap (λ t. bit_xor t a) (xor_comm b a ∙ e ∙ xor_comm a c) ∙ xor_cancel c a

-- Below a power of two, `^` stays there.
pub bit_xor-lt : (k a b : ℕ) → a < 2 ^ k → b < 2 ^ k → bit_xor a b < 2 ^ k
bit_xor-lt zero a b p q =
    let e : a ≡ 0 = omega arith in
    let e' : b ≡ 0 = omega arith in omega (arith, ap (λ t. bit_xor t b) e, ap (λ t. bit_xor 0 t) e')
bit_xor-lt (suc k) a b p q = omega (
  arith,
  pow-suc 2 k,
  xor_by_digits a b,
  bit_xor-lt k (a / 2) (b / 2) (omega (arith, pow-suc 2 k)) (omega (arith, pow-suc 2 k)),
)

pub zero-bit_and : (b : ℕ) → bit_and 0 b ≡ 0
zero-bit_and b = bit_and-bitwise 0 b

pub and_half : (a b : ℕ) → bit_and a b / 2 ≡ bit_and (a / 2) (b / 2)
and_half a b = omega (arith, and_by_digits a b)

pub and_parity : (a b : ℕ) → bit_and a b % 2 ≡ min (a % 2) (b % 2)
and_parity a b = omega (arith, and_by_digits a b)

pub bit_and-le : (a b : ℕ) → bit_and a b ≤ b
bit_and-le a b = go a a b (le_refl a)
  where
    go : (n a b : ℕ) → a ≤ n → bit_and a b ≤ b
    go zero a b h =
        let e : a ≡ 0 = omega arith in omega (arith, ap (λ t. bit_and t b) e, zero-bit_and b)
    go (suc n) a b h = omega (arith, and_by_digits a b, go n (a / 2) (b / 2) (omega arith))

pub bit_and-zero : (a : ℕ) → bit_and a 0 ≡ 0
bit_and-zero a = omega (arith, bit_and-le a 0)

double_fields : (q k : ℕ) → q * 2 ^ suc k ≡ 2 * (q * 2 ^ k)
double_fields q k = omega (arith, ap (λ (t : ℕ). q * t) (pow-suc 2 k))

bit_and_fields : (k q r : ℕ) → r < 2 ^ k → bit_and (q * 2 ^ k + r) (2 ^ k - 1) ≡ r
bit_and_fields zero q r h = omega (arith, bit_and-zero (q * 1 + r))
bit_and_fields (suc k) q r h = ground (
  arith,
  and_by_digits (q * 2 ^ suc k + r) (2 ^ suc k - 1),
  double_fields q k,
  pow-suc 2 k,
  bit_and_fields k q (r / 2) (omega (arith, pow-suc 2 k)),
)

-- A mask of `k` ones is the remainder by `2 ^ k`.
pub bit_and_mask : (k a : ℕ) → bit_and a (2 ^ k - 1) ≡ a % 2 ^ k
bit_and_mask k a = ground (arith, one-le-pow k 2, bit_and_fields k (a / 2 ^ k) (a % 2 ^ k))

pub bit_or-zero : (a : ℕ) → bit_or a 0 ≡ a
bit_or-zero a = go a a (le_refl a)
  where
    go : (n a : ℕ) → a ≤ n → bit_or a 0 ≡ a
    go zero a h = let e : a ≡ 0 = omega arith in ap (λ t. bit_or t 0) e ∙ sym e
    go (suc n) a h = omega (arith, or_by_digits a 0, go n (a / 2) (omega arith))

-- `|` of a multiple of `2 ^ k` and a number below `2 ^ k` is their sum, on either side.
pub bit_or_fields : (k q r : ℕ) → r < 2 ^ k → bit_or (q * 2 ^ k) r ≡ q * 2 ^ k + r
bit_or_fields zero q r h =
    let e : r ≡ 0 = omega arith in omega (arith, ap (λ t. bit_or (q * 1) t) e, bit_or-zero (q * 1))
bit_or_fields (suc k) q r h = ground (
  arith,
  or_by_digits (q * 2 ^ suc k) r,
  double_fields q k,
  bit_or_fields k q (r / 2) (omega (arith, pow-suc 2 k)),
)

or_comm_below : (n a b : ℕ) → a ≤ n → bit_or a b ≡ bit_or b a
or_comm_below n zero b h = omega (arith, bit_or-bitwise 0 b, bit_or-zero b)
or_comm_below zero (suc a) b h = absurd (omega arith)
or_comm_below (suc n) (suc a) b h = omega (
  arith,
  or_by_digits (suc a) b,
  or_by_digits b (suc a),
  or_comm_below n (suc a / 2) (b / 2) (omega arith),
)

pub or_comm : (a b : ℕ) → bit_or a b ≡ bit_or b a
or_comm a b = or_comm_below a a b (le_refl a)

-- `&` distributes over `^`.
pub xor-bit_and : (a b c : ℕ) → bit_and (bit_xor a b) c ≡ bit_xor (bit_and a c) (bit_and b c)
xor-bit_and a b c = go (a + b) a b c (le_refl _)
  where
    go : (n a b c : ℕ) → a + b ≤ n → bit_and (bit_xor a b) c ≡ bit_xor (bit_and a c) (bit_and b c)
    go zero a b c h =
        let e : a ≡ 0 = omega arith in
        let e' : b ≡ 0 = omega arith in
        omega (
          arith,
          ap₂ (λ s t. bit_and (bit_xor s t) c) e e',
          ap₂ (λ s t. bit_xor (bit_and s c) (bit_and t c)) e e',
          zero-bit_and c,
          ap (λ t. bit_xor t t) (zero-bit_and c),
        )
    go (suc n) a b c h = ground (
      arith,
      and_by_digits (bit_xor a b) c,
      xor_by_digits (bit_and a c) (bit_and b c),
      xor_half a b,
      xor_parity a b,
      and_half a c,
      and_half b c,
      and_parity a c,
      and_parity b c,
      go n (a / 2) (b / 2) (c / 2) (omega arith),
    )
