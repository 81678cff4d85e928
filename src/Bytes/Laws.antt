-- ===== src/Bytes/Laws.antt =====
-- A byte and its bits determine each other, and `^` works bit by bit.
use native.Mathlib.Numerals.{add-one}
use native.Mathlib.Nat.{pow-suc, one-le-pow, pow-le-pow_right}
use satnogs_gr_oot.Base.{◌/◌, ◌-◌, map, bit_xor, sym, ℕ, zero, suc, ◌+◌, ◌*◌, ◌%◌, ◌^◌, ◌≤◌, ◌<◌}
use satnogs_gr_oot.Base.{bit_and, bit_or, ◌≡◌, refl, ap, ap₂, ◌∙◌, List, [], ◌∷◌, arith, All}
use satnogs_gr_oot.Base.{length, bit_and_mask, bit_or_fields, or_comm, xor_low, xor_bit, scale}
use satnogs_gr_oot.Bytes.{msb_bits, lsb_bits, or_falling, or_rising, join_msb, join_lsb}

abbrev pub IsBits : List ℕ → Type 0
IsBits = All (λ b. b < 2)

-- The number with these bits, the first the most significant.
abbrev pub value_msb : ℕ → List ℕ → ℕ
value_msb acc [] = acc
value_msb acc (x ∷ bits) = value_msb (acc * 2 + x) bits

-- The number with these bits, the first the least significant.
abbrev pub value_lsb : List ℕ → ℕ
value_lsb [] = 0
value_lsb (x ∷ bits) = x + value_lsb bits * 2

abbrev Fits : ℕ → List ℕ → Type 0
Fits k bits = (length bits ≡ k) × (k ≤ 8)

pow_room : (k : ℕ) → k ≤ 8 → 2 ^ k ≤ 256
pow_room k h = pow-le-pow_right (omega arith) h

or_falling-eq-value :
    (k q : ℕ) (bits : List ℕ)
    → length bits ≡ k
    → k ≤ 8
    → IsBits bits
    → or_falling k (q * 2 ^ k) bits ≡ value_msb q bits
unfolding or_falling
or_falling-eq-value zero q [] e h b = omega arith
or_falling-eq-value zero q (x ∷ bits) e h b = absurd (omega arith)
or_falling-eq-value (suc k) q [] e h b = absurd (omega arith)
or_falling-eq-value (suc k) q (x ∷ bits) e h (px, b) =
    let small : x * 2 ^ k < 2 ^ suc k = grind (arith, pow-suc 2 k, one-le-pow k 2) in
    let cut : x * 2 ^ k % 2 ^ 8 ≡ x * 2 ^ k = omega (arith, small, pow_room (suc k) h) in
    ap (λ t. or_falling k t bits)
      (ap (λ t. bit_or (q * 2 ^ suc k) t) cut
        ∙ bit_or_fields (suc k) q (x * 2 ^ k) small
        ∙ omega (arith, scale q k))
    ∙ or_falling-eq-value k (q * 2 + x) bits (omega arith) (omega arith) b

pub join_msb_value :
    (bits : List ℕ) → length bits ≡ 8 → IsBits bits → join_msb bits ≡ value_msb 0 bits
unfolding join_msb
join_msb_value bits e b = or_falling-eq-value 8 0 bits e (omega arith) b

or_rising-eq-value :
    (k acc : ℕ) (bits : List ℕ)
    → k + length bits ≤ 8
    → acc < 2 ^ k
    → IsBits bits
    → or_rising k acc bits ≡ acc + value_lsb bits * 2 ^ k
unfolding or_rising
or_rising-eq-value k acc [] e h b = omega arith
or_rising-eq-value k acc (x ∷ bits) e h (px, b) =
    let next : 2 ^ (k + 1) ≡ 2 ^ k * 2 = rw add-one (pow-suc 2 k) in
    let small : x * 2 ^ k + acc < 2 ^ (k + 1) = grind (arith, next) in
    let cut : x * 2 ^ k % 2 ^ 8 ≡ x * 2 ^ k =
      omega (arith, small, pow_room (k + 1) (omega arith)) in
    ap (λ t. or_rising (k + 1) t bits)
      (ap (bit_or acc) cut ∙ or_comm acc (x * 2 ^ k) ∙ bit_or_fields k x acc h)
    ∙ or_rising-eq-value (k + 1) (x * 2 ^ k + acc) bits (omega arith) small b
    ∙ omega (arith, ap (λ (t : ℕ). value_lsb bits * t) next)

pub join_lsb_value :
    (bits : List ℕ) → length bits ≡ 8 → IsBits bits → join_lsb bits ≡ value_lsb bits
unfolding join_lsb
join_lsb_value bits e b = or_rising-eq-value 0 0 bits (omega arith) (omega arith) b ∙ omega arith

bit_of : (x : ℕ) → bit_and x 1 ≡ x % 2
bit_of x = bit_and_mask 1 x

pub msb_bits-IsBits : (x : ℕ) → x < 2 ^ 8 → IsBits (msb_bits x)
msb_bits-IsBits x h = omega (arith, bit_of)

pub lsb_bits-IsBits : (x : ℕ) → IsBits (lsb_bits x)
lsb_bits-IsBits x = omega (arith, bit_of)

-- Taking a byte apart and putting it together gives the byte.
pub join-msb_bits : (x : ℕ) → x < 2 ^ 8 → join_msb (msb_bits x) ≡ x
join-msb_bits x h = join_msb_value (msb_bits x) refl (msb_bits-IsBits x h) ∙ omega (arith, bit_of)

pub join-lsb_bits : (x : ℕ) → x < 2 ^ 8 → join_lsb (lsb_bits x) ≡ x
join-lsb_bits x h = join_lsb_value (lsb_bits x) refl (lsb_bits-IsBits x) ∙ omega (arith, bit_of)

-- `^` of two lists of bits.
abbrev pub xor_bits : List ℕ → List ℕ → List ℕ
xor_bits [] ys = []
xor_bits (x ∷ xs) [] = []
xor_bits (x ∷ xs) (y ∷ ys) = bit_xor x y ∷ xor_bits xs ys

value-xor_bits :
    (p q : ℕ) (xs ys : List ℕ)
    → length xs ≡ length ys
    → IsBits xs
    → IsBits ys
    → value_msb (bit_xor p q) (xor_bits xs ys) ≡ bit_xor (value_msb p xs) (value_msb q ys)
value-xor_bits p q [] [] e bx by = refl
value-xor_bits p q [] (y ∷ ys) e bx by = absurd (omega arith)
value-xor_bits p q (x ∷ xs) [] e bx by = absurd (omega arith)
value-xor_bits p q (x ∷ xs) (y ∷ ys) e (px, bx) (py, by) =
    ap (λ t. value_msb t (xor_bits xs ys)) (omega (arith, xor_low p q x y px py, xor_bit x y px py))
    ∙ value-xor_bits (p * 2 + x) (q * 2 + y) xs ys (omega arith) bx by

value_lsb-xor_bits :
    (xs ys : List ℕ)
    → length xs ≡ length ys
    → IsBits xs
    → IsBits ys
    → value_lsb (xor_bits xs ys) ≡ bit_xor (value_lsb xs) (value_lsb ys)
value_lsb-xor_bits [] [] e bx by = refl
value_lsb-xor_bits [] (y ∷ ys) e bx by = absurd (omega arith)
value_lsb-xor_bits (x ∷ xs) [] e bx by = absurd (omega arith)
value_lsb-xor_bits (x ∷ xs) (y ∷ ys) e (px, bx) (py, by) = omega (
  arith,
  value_lsb-xor_bits xs ys (omega arith) bx by,
  xor_bit x y px py,
  xor_low (value_lsb xs) (value_lsb ys) x y px py,
  ap₂ bit_xor (let e : value_lsb xs * 2 + x ≡ x + value_lsb xs * 2 = omega arith in e)
      (let e : value_lsb ys * 2 + y ≡ y + value_lsb ys * 2 = omega arith in e),
)

xor_bits-IsBits : (xs ys : List ℕ) → IsBits xs → IsBits ys → IsBits (xor_bits xs ys)
xor_bits-IsBits [] ys bx by = tt
xor_bits-IsBits (x ∷ xs) [] bx by = tt
xor_bits-IsBits (x ∷ xs) (y ∷ ys) (px, bx) (py, by) =
    (omega (arith, xor_bit x y px py), xor_bits-IsBits xs ys bx by)

length-xor_bits : (xs ys : List ℕ) → length xs ≡ length ys → length (xor_bits xs ys) ≡ length xs
length-xor_bits [] ys e = refl
length-xor_bits (x ∷ xs) [] e = absurd (omega arith)
length-xor_bits (x ∷ xs) (y ∷ ys) e = ap suc (length-xor_bits xs ys (omega arith))

-- Joining the `^` of two lists of bits is the `^` of the bytes.
pub join_msb-xor_bits :
    (xs ys : List ℕ)
    → length xs ≡ 8
    → length ys ≡ 8
    → IsBits xs
    → IsBits ys
    → join_msb (xor_bits xs ys) ≡ bit_xor (join_msb xs) (join_msb ys)
join_msb-xor_bits xs ys ex ey bx by =
    join_msb_value (xor_bits xs ys) (length-xor_bits xs ys (ex ∙ sym ey) ∙ ex)
      (xor_bits-IsBits xs ys bx by)
    ∙ value-xor_bits 0 0 xs ys (ex ∙ sym ey) bx by
    ∙ sym (ap₂ bit_xor (join_msb_value xs ex bx) (join_msb_value ys ey by))

pub join_lsb-xor_bits :
    (xs ys : List ℕ)
    → length xs ≡ 8
    → length ys ≡ 8
    → IsBits xs
    → IsBits ys
    → join_lsb (xor_bits xs ys) ≡ bit_xor (join_lsb xs) (join_lsb ys)
join_lsb-xor_bits xs ys ex ey bx by =
    join_lsb_value (xor_bits xs ys) (length-xor_bits xs ys (ex ∙ sym ey) ∙ ex)
      (xor_bits-IsBits xs ys bx by)
    ∙ value_lsb-xor_bits xs ys (ex ∙ sym ey) bx by
    ∙ sym (ap₂ bit_xor (join_lsb_value xs ex bx) (join_lsb_value ys ey by))

-- Eight bits put together and taken apart.
pub msb_bits-join :
    (a b c d e f g h : ℕ)
    → IsBits (a ∷ b ∷ c ∷ d ∷ e ∷ f ∷ g ∷ h ∷ [])
    → msb_bits (join_msb (a ∷ b ∷ c ∷ d ∷ e ∷ f ∷ g ∷ h ∷ [])) ≡ a ∷ b ∷ c ∷ d ∷ e ∷ f ∷ g ∷ h ∷ []
msb_bits-join a b c d e f g h bits =
    let x : ℕ = value_msb 0 (a ∷ b ∷ c ∷ d ∷ e ∷ f ∷ g ∷ h ∷ []) in
    ap msb_bits (join_msb_value (a ∷ b ∷ c ∷ d ∷ e ∷ f ∷ g ∷ h ∷ []) refl bits)
    ∙ ground (
      arith,
      bit_of (x / 2 ^ 6),
      bit_of (x / 2 ^ 5),
      bit_of (x / 2 ^ 4),
      bit_of (x / 2 ^ 3),
      bit_of (x / 2 ^ 2),
      bit_of (x / 2 ^ 1),
      bit_of x,
    )

-- The bits of the complement of a byte.
pub msb_bits-complement : (x : ℕ) → x < 2 ^ 8 → msb_bits (0xff - x) ≡ map (λ b. 1 - b) (msb_bits x)
msb_bits-complement x h = ground (
  arith,
  bit_of (x / 2 ^ 6),
  bit_of (x / 2 ^ 5),
  bit_of (x / 2 ^ 4),
  bit_of (x / 2 ^ 3),
  bit_of (x / 2 ^ 2),
  bit_of (x / 2 ^ 1),
  bit_of x,
  bit_of ((0xff - x) / 2 ^ 6),
  bit_of ((0xff - x) / 2 ^ 5),
  bit_of ((0xff - x) / 2 ^ 4),
  bit_of ((0xff - x) / 2 ^ 3),
  bit_of ((0xff - x) / 2 ^ 2),
  bit_of ((0xff - x) / 2 ^ 1),
  bit_of (0xff - x),
)
