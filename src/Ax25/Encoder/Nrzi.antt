-- ===== src/Ax25/Encoder/Nrzi.antt =====
-- The NRZI stage of `encode` against the rule that the line is changed by a zero and kept by a one.
use satnogs_gr_oot.Base.{ℕ, zero, suc, ◌-◌, ◌<◌, bit_and, bit_xor, ◌≡◌, refl, sym, ap, ap₂, ◌∙◌}
use satnogs_gr_oot.Base.{true, List, [], ◌∷◌, ◌++◌, map, arith, IsBytes, length, xor_bit}
use satnogs_gr_oot.Base.{bit_and_mask}
use satnogs_gr_oot.Bytes.{msb_bits, join_msb}
use satnogs_gr_oot.Bytes.Laws.{IsBits, msb_bits-IsBits, msb_bits-join, msb_bits-complement}
use satnogs_gr_oot.Whitening.Laws.{frame_bits}
use satnogs_gr_oot.Ax25.Encoder.{nrzi_run, mask_bits, nrzi_loop}

-- The levels of the line for a stream of bits, from the level `prev`.
unfoldable pub line : ℕ → List ℕ → List ℕ
line prev [] = []
line prev (zero ∷ bits) = (1 - prev) ∷ line (1 - prev) bits
line prev (suc b ∷ bits) = prev ∷ line prev bits

-- The level of the line after a stream of bits.
abbrev pub level : ℕ → List ℕ → ℕ
level prev [] = prev
level prev (zero ∷ bits) = level (1 - prev) bits
level prev (suc b ∷ bits) = level prev bits

line-append :
    (prev : ℕ) (xs ys : List ℕ) → line prev (xs ++ ys) ≡ line prev xs ++ line (level prev xs) ys
unfolding line
line-append prev [] ys = refl
line-append prev (zero ∷ xs) ys = ap (λ t. (1 - prev) ∷ t) (line-append (1 - prev) xs ys)
line-append prev (suc b ∷ xs) ys = ap (λ t. prev ∷ t) (line-append prev xs ys)

level-lt : (prev : ℕ) (bits : List ℕ) → prev < 2 → level prev bits < 2
level-lt prev [] h = h
level-lt prev (zero ∷ bits) h = level-lt (1 - prev) bits (omega arith)
level-lt prev (suc b ∷ bits) h = level-lt prev bits h

line-IsBits : (prev : ℕ) (bits : List ℕ) → prev < 2 → IsBits (line prev bits)
unfolding line
line-IsBits prev [] h = tt
line-IsBits prev (zero ∷ bits) h = (omega arith, line-IsBits (1 - prev) bits (omega arith))
line-IsBits prev (suc b ∷ bits) h = (h, line-IsBits prev bits h)

-- A run over the complements of bits is the line.
nrzi_run-eq-line :
    (prev : ℕ) (bits : List ℕ)
    → prev < 2
    → IsBits bits
    → nrzi_run prev (map (λ b. 1 - b) bits) ≡ (line prev bits, level prev bits)
unfolding nrzi_run line
nrzi_run-eq-line prev [] h b = refl
nrzi_run-eq-line prev (zero ∷ bits) h (p, b) =
    let e : bit_xor (1 - 0) prev ≡ 1 - prev = omega (arith, xor_bit 1 prev (omega arith) h) in
    ap₂ (λ (q : ℕ) (r : List ℕ × ℕ). (q ∷ r.0, r.1)) e
      (ap (λ q. nrzi_run q (map (λ b. 1 - b) bits)) e
        ∙ nrzi_run-eq-line (1 - prev) bits (omega arith) b)
nrzi_run-eq-line prev (suc zero ∷ bits) h (p, b) =
    let e : bit_xor (1 - 1) prev ≡ prev = omega (arith, xor_bit 0 prev (omega arith) h) in
    ap₂ (λ (q : ℕ) (r : List ℕ × ℕ). (q ∷ r.0, r.1)) e
      (ap (λ q. nrzi_run q (map (λ b. 1 - b) bits)) e ∙ nrzi_run-eq-line prev bits h b)
nrzi_run-eq-line prev (suc (suc x) ∷ bits) h (p, b) = absurd (omega arith)

map_mask : (bits : List ℕ) → IsBits bits → map (λ q. bit_and q 1) bits ≡ bits
map_mask [] b = refl
map_mask (x ∷ bits) (p, b) = ap₂ ◌∷◌ (omega (arith, bit_and_mask 1 x)) (map_mask bits b)

mask_bits-eq_self : (bits : List ℕ) → IsBits bits → mask_bits bits ≡ bits
unfolding mask_bits
mask_bits-eq_self [] b = refl
mask_bits-eq_self (x ∷ bits) (p, b) = ap (λ t. x ∷ t) (map_mask bits b)

-- A list of eight bits, as the byte that they make.
eight : (bits : List ℕ) → length bits ≡ 8 → IsBits bits → msb_bits (join_msb bits) ≡ bits
eight (a ∷ b ∷ c ∷ d ∷ e ∷ f ∷ g ∷ h ∷ []) l bits = msb_bits-join a b c d e f g h bits
eight _ l bits = absurd (omega arith)

length-line : (prev : ℕ) (bits : List ℕ) → length (line prev bits) ≡ length bits
unfolding line
length-line prev [] = refl
length-line prev (zero ∷ bits) = ap suc (length-line (1 - prev) bits)
length-line prev (suc b ∷ bits) = ap suc (length-line prev bits)

nrzi_loop-from :
    (prev : ℕ) (xs : List ℕ)
    → prev < 2
    → IsBytes xs
    → frame_bits true (nrzi_loop prev xs) ≡ line prev (frame_bits true xs)
unfolding nrzi_loop
nrzi_loop-from prev [] h b = unfold line in refl
nrzi_loop-from prev (x ∷ xs) h (p, b) =
    let bits : List ℕ = msb_bits x in
    let run : nrzi_run prev (msb_bits (0xff - x)) ≡ (line prev bits, level prev bits) =
      ap (nrzi_run prev) (msb_bits-complement x p)
      ∙ nrzi_run-eq-line prev bits h (msb_bits-IsBits x p) in
    let byte : msb_bits (join_msb (mask_bits (nrzi_run prev (msb_bits (0xff - x))).0))
        ≡ line prev bits =
      ap (λ (r : List ℕ × ℕ). msb_bits (join_msb (mask_bits r.0))) run
      ∙ ap (λ t. msb_bits (join_msb t))
          (mask_bits-eq_self (line prev bits) (line-IsBits prev bits h))
      ∙ eight (line prev bits) (length-line prev bits) (line-IsBits prev bits h) in
    ap₂ ◌++◌ byte (
      ap (λ (r : List ℕ × ℕ). frame_bits true (nrzi_loop r.1 xs)) run
      ∙ nrzi_loop-from (level prev bits) xs (level-lt prev bits h) b)
    ∙ sym (line-append prev bits (frame_bits true xs))

-- The NRZI stage sends, bit by bit, the levels of the line for the bits of the bytes, from level 0.
pub nrzi_loop-line :
    (xs : List ℕ) → IsBytes xs → frame_bits true (nrzi_loop 0 xs) ≡ line 0 (frame_bits true xs)
nrzi_loop-line xs b = nrzi_loop-from 0 xs (omega arith) b
