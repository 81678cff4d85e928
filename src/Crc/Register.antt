-- ===== src/Crc/Register.antt =====
-- The register of the X.25 loop: its range, and the loop over two parts of a frame.
use satnogs_gr_oot.Base.{ℕ, ◌/◌, ◌%◌, ◌^◌, ◌<◌, bit_xor, List, [], ◌∷◌, ◌++◌, ◌≡◌, refl, ap, arith}
use satnogs_gr_oot.Base.{◌==◌, true, get_or, IsBytes, all_below, all_below_lem, ==_iff, bit_xor-lt}
use satnogs_gr_oot.Crc.{reflected_step, reflected_loop}
use satnogs_gr_oot.Crc.Tables.{ccitt_table_reverse}
use satnogs_gr_oot.Crc.Laws.{index-right}

pub reflected_loop-append :
    (table : List ℕ) (r : ℕ) (xs ys : List ℕ)
    → reflected_loop table r (xs ++ ys) ≡ reflected_loop table (reflected_loop table r xs) ys
unfolding reflected_loop
reflected_loop-append table r [] ys = refl
reflected_loop-append table r (x ∷ xs) ys =
    reflected_loop-append table (reflected_step table r x) xs ys

reverse_entry-lt : all_below 256 (λ i. get_or ccitt_table_reverse i 0 / 2 ^ 16 == 0) ≡ true
unfolding all_below ccitt_table_reverse
reverse_entry-lt = refl

abbrev pub step_x25 : ℕ → ℕ → ℕ
step_x25 = reflected_step ccitt_table_reverse

pub step_x25_lem :
    (r d : ℕ)
    → d < 2 ^ 8
    → step_x25 r d ≡ bit_xor (r / 2 ^ 8) (get_or ccitt_table_reverse (bit_xor (r % 2 ^ 8) d) 0)
unfolding reflected_step
step_x25_lem r d h =
    ap (λ t. bit_xor (r / 2 ^ 8) (get_or ccitt_table_reverse t 0)) (index-right r d h)

pub step_x25-lt : (r d : ℕ) → r < 2 ^ 16 → d < 2 ^ 8 → step_x25 r d < 2 ^ 16
step_x25-lt r d hr hd =
    let i : ℕ = bit_xor (r % 2 ^ 8) d in
    let hi : i < 256 = bit_xor-lt 8 (r % 2 ^ 8) d (omega arith) hd in
    let e : get_or ccitt_table_reverse i 0 / 2 ^ 16 ≡ 0 =
      (==_iff _ _).0 (all_below_lem 256 _ i reverse_entry-lt hi) in
    omega (
      arith,
      step_x25_lem r d hd,
      bit_xor-lt 16 (r / 2 ^ 8) (get_or ccitt_table_reverse i 0) (omega arith) (omega arith),
    )

pub loop_x25-lt :
    (r : ℕ) (xs : List ℕ)
    → r < 2 ^ 16
    → IsBytes xs
    → reflected_loop ccitt_table_reverse r xs < 2 ^ 16
unfolding reflected_loop
loop_x25-lt r [] hr h = hr
loop_x25-lt r (x ∷ xs) hr (p, h) = loop_x25-lt (step_x25 r x) xs (step_x25-lt r x hr p) h
