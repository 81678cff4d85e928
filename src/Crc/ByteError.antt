-- ===== src/Crc/ByteError.antt =====
-- No error within one byte of a frame goes unnoticed by `crc16_ax25`: every step of the loop can
-- be undone.
use satnogs_gr_oot.Base.{◌≢◌, xor_injective, ℕ, suc, ◌/◌, ◌%◌, ◌^◌, ◌<◌, bit_xor, List, [], ◌∷◌}
use satnogs_gr_oot.Base.{◌++◌, ◌≡◌, refl, ap, sym, ◌∙◌, arith, ◌==◌, true, map, if◌then◌else◌}
use satnogs_gr_oot.Base.{get_or, IsBytes, all_below, all_below_lem, ==_iff, xor_comm, xor_cancel}
use satnogs_gr_oot.Base.{xor_div, bit_xor-zero, bit_xor-lt}
use satnogs_gr_oot.Crc.Register.{reflected_loop-append, step_x25, step_x25_lem, step_x25-lt}
use satnogs_gr_oot.Crc.Register.{loop_x25-lt}
use satnogs_gr_oot.Crc.{reflected_loop, crc16_ax25}
use satnogs_gr_oot.Crc.Tables.{ccitt_table_reverse}

-- The high bytes of the table's entries are all different: they tell the index.
abbrev high_bytes : List ℕ
high_bytes = map (λ t. t / 2 ^ 8) ccitt_table_reverse

position : ℕ → List ℕ → ℕ
position v [] = 0
position v (x ∷ xs) = let rest = position v xs in if x == v then 0 else suc rest

positions :
    all_below 256 (λ i. position (get_or ccitt_table_reverse i 0 / 2 ^ 8) high_bytes == i) ≡ true
unfolding all_below position ccitt_table_reverse
positions = refl

-- A step can be undone when the byte that went in is known, and tells that byte when the register
-- before it is known.
index_of_step :
    (r d : ℕ)
    → r < 2 ^ 16
    → d < 2 ^ 8
    → position (step_x25 r d / 2 ^ 8) high_bytes ≡ bit_xor (r % 2 ^ 8) d
index_of_step r d hr hd =
    let i : ℕ = bit_xor (r % 2 ^ 8) d in
    let e : step_x25 r d / 2 ^ 8 ≡ get_or ccitt_table_reverse i 0 / 2 ^ 8 =
      ap (λ t. t / 2 ^ 8) (step_x25_lem r d hd)
      ∙ xor_div 8 (r / 2 ^ 8) (get_or ccitt_table_reverse i 0)
      ∙ ap (λ t. bit_xor t (get_or ccitt_table_reverse i 0 / 2 ^ 8))
          (let f : r / 2 ^ 8 / 2 ^ 8 ≡ 0 = omega arith in f)
      ∙ xor_comm 0 (get_or ccitt_table_reverse i 0 / 2 ^ 8)
      ∙ bit_xor-zero (get_or ccitt_table_reverse i 0 / 2 ^ 8) in
    ap (λ t. position t high_bytes) e
    ∙ (==_iff _ _).0 (all_below_lem 256 _ i positions (bit_xor-lt 8 (r % 2 ^ 8) d (omega arith) hd))

step_x25-injective_byte :
    (r d e : ℕ) → r < 2 ^ 16 → d < 2 ^ 8 → e < 2 ^ 8 → step_x25 r d ≡ step_x25 r e → d ≡ e
step_x25-injective_byte r d e hr hd he same = xor_injective (r % 2 ^ 8) d e (
    sym (index_of_step r d hr hd)
    ∙ ap (λ t. position (t / 2 ^ 8) high_bytes) same
    ∙ index_of_step r e hr he)

step_x25-injective :
    (r s d : ℕ) → r < 2 ^ 16 → s < 2 ^ 16 → d < 2 ^ 8 → step_x25 r d ≡ step_x25 s d → r ≡ s
step_x25-injective r s d hr hs hd same =
    let index : bit_xor (r % 2 ^ 8) d ≡ bit_xor (s % 2 ^ 8) d =
      sym (index_of_step r d hr hd)
      ∙ ap (λ t. position (t / 2 ^ 8) high_bytes) same
      ∙ index_of_step s d hs hd in
    let lo : r % 2 ^ 8 ≡ s % 2 ^ 8 =
      sym (xor_cancel (r % 2 ^ 8) d) ∙ ap (λ t. bit_xor t d) index ∙ xor_cancel (s % 2 ^ 8) d in
    let entry : ℕ = get_or ccitt_table_reverse (bit_xor (s % 2 ^ 8) d) 0 in
    let both : bit_xor (r / 2 ^ 8) entry ≡ bit_xor (s / 2 ^ 8) entry =
      ap (λ t. bit_xor (r / 2 ^ 8) (get_or ccitt_table_reverse t 0)) (sym index)
      ∙ sym (step_x25_lem r d hd)
      ∙ same
      ∙ step_x25_lem s d hd in
    let hi : r / 2 ^ 8 ≡ s / 2 ^ 8 =
      sym (xor_cancel (r / 2 ^ 8) entry)
      ∙ ap (λ t. bit_xor t entry) both
      ∙ xor_cancel (s / 2 ^ 8) entry in
    omega arith

loop_x25-injective :
    (r s : ℕ) (xs : List ℕ)
    → r < 2 ^ 16
    → s < 2 ^ 16
    → IsBytes xs
    → reflected_loop ccitt_table_reverse r xs ≡ reflected_loop ccitt_table_reverse s xs
    → r ≡ s
unfolding reflected_loop
loop_x25-injective r s [] hr hs h same = same
loop_x25-injective r s (x ∷ xs) hr hs (p, h) same = step_x25-injective r s x hr hs p (
    loop_x25-injective (step_x25 r x) (step_x25 s x) xs (step_x25-lt r x hr p)
      (step_x25-lt s x hs p) h same)

-- Two frames that differ in one byte only, by any number of its bits, have different `crc16_ax25`.
pub crc16_ax25_byte_error :
    (before rest : List ℕ) (a b : ℕ)
    → IsBytes before
    → IsBytes rest
    → a < 2 ^ 8
    → b < 2 ^ 8
    → a ≢ b
    → crc16_ax25 (before ++ (a ∷ rest)) ≢ crc16_ax25 (before ++ (b ∷ rest))
unfolding crc16_ax25
crc16_ax25_byte_error before rest a b hb hr ha hb' ne same =
    let r : ℕ = reflected_loop ccitt_table_reverse 0xffff before in
    let hr16 : r < 2 ^ 16 = loop_x25-lt 0xffff before (omega arith) hb in
    let loops : reflected_loop ccitt_table_reverse 0xffff (before ++ (a ∷ rest))
        ≡ reflected_loop ccitt_table_reverse 0xffff (before ++ (b ∷ rest)) =
      sym (xor_cancel _ 0xffff) ∙ ap (λ t. bit_xor t 0xffff) same ∙ xor_cancel _ 0xffff in
    ne (
      step_x25-injective_byte r a b hr16 ha hb' (
        loop_x25-injective (step_x25 r a) (step_x25 r b) rest (step_x25-lt r a hr16 ha)
          (step_x25-lt r b hr16 hb') hr
          (unfold reflected_loop in
            (sym (reflected_loop-append ccitt_table_reverse 0xffff before (a ∷ rest))
              ∙ loops
              ∙ reflected_loop-append ccitt_table_reverse 0xffff before (b ∷ rest)))))
