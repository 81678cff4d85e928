-- ===== src/Utils/Words.antt =====
-- `reverse_uint64_bytes` (lib/utils.cc) on a number made of eight bytes.
use native.Mathlib.Nat.{pow-suc}
use satnogs_gr_oot.Base.{ℕ, zero, suc, ◌+◌, ◌*◌, ◌/◌, ◌^◌, ◌<◌, bit_and, bit_or, and_by_digits}
use satnogs_gr_oot.Base.{or_by_digits, ◌≡◌, refl, ap, ap₂, ◌∙◌, List, [], ◌∷◌, arith, length}
use satnogs_gr_oot.Base.{IsBytes, scale}

-- `&` and `|` work field by field on numbers split at bit `k`.
and_fields :
    (k a b r s : ℕ)
    → r < 2 ^ k
    → s < 2 ^ k
    → bit_and (a * 2 ^ k + r) (b * 2 ^ k + s) ≡ bit_and a b * 2 ^ k + bit_and r s
and_fields zero a b r s p q =
    let e : a * 1 + r ≡ a = omega arith in
    let f : b * 1 + s ≡ b = omega arith in
    let z : bit_and r s ≡ 0 =
      omega (
        arith,
        ap₂ bit_and (let z : r ≡ 0 = omega arith in z) (let z : s ≡ 0 = omega arith in z),
      ) in
    omega (arith, ap₂ bit_and e f)
and_fields (suc k) a b r s p q = omega (
  arith,
  and_by_digits (a * 2 ^ suc k + r) (b * 2 ^ suc k + s),
  ap₂ bit_and (let e : (a * 2 ^ suc k + r) / 2 ≡ a * 2 ^ k + r / 2 = omega (arith, scale a k) in e)
      (let e : (b * 2 ^ suc k + s) / 2 ≡ b * 2 ^ k + s / 2 = omega (arith, scale b k) in e),
  and_fields k a b (r / 2) (s / 2) (omega (arith, pow-suc 2 k)) (omega (arith, pow-suc 2 k)),
  and_by_digits r s,
  scale a k,
  scale b k,
  scale (bit_and a b) k,
)

or_fields :
    (k a b r s : ℕ)
    → r < 2 ^ k
    → s < 2 ^ k
    → bit_or (a * 2 ^ k + r) (b * 2 ^ k + s) ≡ bit_or a b * 2 ^ k + bit_or r s
or_fields zero a b r s p q =
    let e : a * 1 + r ≡ a = omega arith in
    let f : b * 1 + s ≡ b = omega arith in
    let z : bit_or r s ≡ 0 =
      omega
        (arith, ap₂ bit_or (let z : r ≡ 0 = omega arith in z) (let z : s ≡ 0 = omega arith in z)) in
    omega (arith, ap₂ bit_or e f)
or_fields (suc k) a b r s p q = omega (
  arith,
  or_by_digits (a * 2 ^ suc k + r) (b * 2 ^ suc k + s),
  ap₂ bit_or (let e : (a * 2 ^ suc k + r) / 2 ≡ a * 2 ^ k + r / 2 = omega (arith, scale a k) in e)
      (let e : (b * 2 ^ suc k + s) / 2 ≡ b * 2 ^ k + s / 2 = omega (arith, scale b k) in e),
  or_fields k a b (r / 2) (s / 2) (omega (arith, pow-suc 2 k)) (omega (arith, pow-suc 2 k)),
  or_by_digits r s,
  scale a k,
  scale b k,
  scale (bit_or a b) k,
)

-- The number whose bytes are these, the least significant first.
abbrev pub word : List ℕ → ℕ
word [] = 0
word (x ∷ xs) = word xs * 2 ^ 8 + x

abbrev pub pairwise : (ℕ → ℕ → ℕ) → List ℕ → List ℕ → List ℕ
pairwise f [] ys = []
pairwise f (x ∷ xs) [] = []
pairwise f (x ∷ xs) (y ∷ ys) = f x y ∷ pairwise f xs ys

pub and_word :
    (xs ys : List ℕ)
    → length xs ≡ length ys
    → IsBytes xs
    → IsBytes ys
    → bit_and (word xs) (word ys) ≡ word (pairwise bit_and xs ys)
and_word [] [] e h k = refl
and_word [] (y ∷ ys) e h k = absurd (omega arith)
and_word (x ∷ xs) [] e h k = absurd (omega arith)
and_word (x ∷ xs) (y ∷ ys) e (p, h) (q, k) =
    and_fields 8 (word xs) (word ys) x y p q
    ∙ ap (λ w. w * 2 ^ 8 + bit_and x y) (and_word xs ys (omega arith) h k)

pub or_word :
    (xs ys : List ℕ)
    → length xs ≡ length ys
    → IsBytes xs
    → IsBytes ys
    → bit_or (word xs) (word ys) ≡ word (pairwise bit_or xs ys)
or_word [] [] e h k = refl
or_word [] (y ∷ ys) e h k = absurd (omega arith)
or_word (x ∷ xs) [] e h k = absurd (omega arith)
or_word (x ∷ xs) (y ∷ ys) e (p, h) (q, k) =
    or_fields 8 (word xs) (word ys) x y p q
    ∙ ap (λ w. w * 2 ^ 8 + bit_or x y) (or_word xs ys (omega arith) h k)
