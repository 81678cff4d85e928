-- ===== src/Crc/Check.antt =====
-- What a receiver relies on: a frame followed by its own checksum leaves a fixed remainder.
use satnogs_gr_oot.Base.{ℕ, ◌*◌, ◌/◌, ◌%◌, ◌^◌, ◌<◌, bit_and, bit_xor, List, [], ◌∷◌, ◌++◌, ◌≡◌}
use satnogs_gr_oot.Base.{refl, ap, ap₂, sym, ◌∙◌, arith, get_or, IsBytes, xor_assoc, xor_comm}
use satnogs_gr_oot.Base.{xor_self, xor_div, xor_mod, bit_xor-zero, bit_xor-lt}
use satnogs_gr_oot.Crc.Register.{reflected_loop-append, step_x25, step_x25_lem, loop_x25-lt}
use satnogs_gr_oot.Crc.{big, little, bytes16, reflected_loop, crc16_ax25, ccitt_step, ccitt_loop}
use satnogs_gr_oot.Crc.{crc16_ccitt}
use satnogs_gr_oot.Crc.Tables.{ccitt_table_reverse, ccitt_table}
use satnogs_gr_oot.Crc.Refine.{ccitt_step-lt}

ccitt_loop-append :
    (r : ℕ) (xs ys : List ℕ) → ccitt_loop r (xs ++ ys) ≡ ccitt_loop (ccitt_loop r xs) ys
unfolding ccitt_loop
ccitt_loop-append r [] ys = refl
ccitt_loop-append r (x ∷ xs) ys = ccitt_loop-append (ccitt_step r x) xs ys

pub ccitt_loop-lt : (r : ℕ) (xs : List ℕ) → r < 2 ^ 16 → ccitt_loop r xs < 2 ^ 16
unfolding ccitt_loop
ccitt_loop-lt r [] h = h
ccitt_loop-lt r (x ∷ xs) h = ccitt_loop-lt (ccitt_step r x) xs (ccitt_step-lt r x)

-- The top byte of the register, put in, leaves the rest of the register.
ccitt_step_top : (r : ℕ) → r < 2 ^ 16 → ccitt_step r (r / 2 ^ 8) ≡ r % 2 ^ 8 * 2 ^ 8
unfolding ccitt_step ccitt_table
ccitt_step_top r h =
    ap (λ t. bit_xor (get_or ccitt_table (bit_and t 0xff) 0) (r * 2 ^ 8) % 2 ^ 16)
      (xor_self (r / 2 ^ 8))
    ∙ omega (arith, xor_comm 0 (r * 2 ^ 8), bit_xor-zero (r * 2 ^ 8))

-- With its `crc16_ccitt` behind it, high byte first, every frame has `crc16_ccitt` 0.
pub crc16_ccitt_residue :
    (bytes : List ℕ) → crc16_ccitt (bytes ++ bytes16 big (crc16_ccitt bytes)) ≡ 0
unfolding crc16_ccitt bytes16
crc16_ccitt_residue bytes =
    let r : ℕ = ccitt_loop 0 bytes in
    let h : r < 2 ^ 16 = ccitt_loop-lt 0 bytes (omega arith) in
    let hi : r / 2 ^ 8 % 2 ^ 8 ≡ r / 2 ^ 8 = omega arith in
    let s : ℕ = r % 2 ^ 8 * 2 ^ 8 in
    ccitt_loop-append 0 bytes (r / 2 ^ 8 % 2 ^ 8 ∷ r % 2 ^ 8 ∷ [])
    ∙ ap (λ t. ccitt_loop r (t ∷ r % 2 ^ 8 ∷ [])) hi
    ∙ unfold ccitt_loop in
      (ap (λ t. ccitt_step t (r % 2 ^ 8)) (ccitt_step_top r h)
        ∙ ap (ccitt_step s) (let e : r % 2 ^ 8 ≡ s / 2 ^ 8 = omega arith in e)
        ∙ ccitt_step_top s (omega arith)
        ∙ omega arith)

-- What the inverted low byte, put in, makes of the register; then the inverted high byte.
inverted_byte : (x : ℕ) → x < 2 ^ 8 → bit_xor x (bit_xor x 0xff) ≡ 0xff
inverted_byte x h = sym (xor_assoc x x 0xff) ∙ ap (λ t. bit_xor t 0xff) (xor_self x) ∙ refl

residue_x25 :
    (r : ℕ)
    → r < 2 ^ 16
    → step_x25 (step_x25 r (bit_xor r 0xffff % 2 ^ 8)) (bit_xor r 0xffff / 2 ^ 8 % 2 ^ 8) ≡ 0xf0b8
unfolding ccitt_table_reverse
residue_x25 r h =
    let lo : bit_xor r 0xffff % 2 ^ 8 ≡ bit_xor (r % 2 ^ 8) 0xff = xor_mod 8 r 0xffff in
    let hi : bit_xor r 0xffff / 2 ^ 8 % 2 ^ 8 ≡ bit_xor (r / 2 ^ 8) 0xff =
      omega
        (arith, xor_div 8 r 0xffff, bit_xor-lt 8 (r / 2 ^ 8) 0xff (omega arith) (omega arith)) in
    let first : step_x25 r (bit_xor r 0xffff % 2 ^ 8) ≡ bit_xor (r / 2 ^ 8) 0x0f78 =
      step_x25_lem r (bit_xor r 0xffff % 2 ^ 8) (omega arith)
      ∙ ap (λ t. bit_xor (r / 2 ^ 8) (get_or ccitt_table_reverse t 0))
          (ap (λ t. bit_xor (r % 2 ^ 8) t) lo ∙ inverted_byte (r % 2 ^ 8) (omega arith)) in
    let a : ℕ = r / 2 ^ 8 in
    let s : ℕ = bit_xor a 0x0f78 in
    let s_hi : s / 2 ^ 8 ≡ 0x0f =
      xor_div 8 a 0x0f78 ∙ ap (λ t. bit_xor t 0x0f) (let e : a / 2 ^ 8 ≡ 0 = omega arith in e) in
    let s_lo : s % 2 ^ 8 ≡ bit_xor a 0x78 =
      xor_mod 8 a 0x0f78 ∙ ap (λ t. bit_xor t 0x78) (let e : a % 2 ^ 8 ≡ a = omega arith in e) in
    let index : bit_xor (s % 2 ^ 8) (bit_xor a 0xff) ≡ 0x87 =
      ap (λ t. bit_xor t (bit_xor a 0xff)) (s_lo ∙ xor_comm a 0x78)
      ∙ xor_assoc 0x78 a (bit_xor a 0xff)
      ∙ ap (λ t. bit_xor 0x78 t) (inverted_byte a (omega arith)) in
    ap (λ t. step_x25 t (bit_xor r 0xffff / 2 ^ 8 % 2 ^ 8)) first
    ∙ ap (λ t. step_x25 s t) hi
    ∙ step_x25_lem s (bit_xor a 0xff) (omega (arith, hi))
    ∙ ap₂ (λ t u. bit_xor t (get_or ccitt_table_reverse u 0)) s_hi index

loop_two :
    (r a b : ℕ) → reflected_loop ccitt_table_reverse r (a ∷ b ∷ []) ≡ step_x25 (step_x25 r a) b
unfolding reflected_loop
loop_two r a b = refl

-- With its `crc16_ax25` behind it, low byte first, every frame has the same `crc16_ax25`.
pub crc16_ax25_residue :
    (bytes : List ℕ)
    → IsBytes bytes
    → crc16_ax25 (bytes ++ bytes16 little (crc16_ax25 bytes)) ≡ 0x0f47
unfolding crc16_ax25 bytes16
crc16_ax25_residue bytes h =
    let r : ℕ = reflected_loop ccitt_table_reverse 0xffff bytes in
    let c : ℕ = bit_xor r 0xffff in
    ap (λ t. bit_xor t 0xffff)
      (reflected_loop-append ccitt_table_reverse 0xffff bytes (c % 2 ^ 8 ∷ c / 2 ^ 8 % 2 ^ 8 ∷ [])
        ∙ loop_two r (c % 2 ^ 8) (c / 2 ^ 8 % 2 ^ 8)
        ∙ residue_x25 r (loop_x25-lt 0xffff bytes (omega arith) h))
