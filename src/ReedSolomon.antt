-- ===== src/ReedSolomon.antt =====
-- `decode_rs_8` of libfec, which the decoders of AX.100 and AMSAT DUV call: a parameter. It takes the
-- symbols of a shortened block, the positions of erasures, if any (`NULL` is `none`), and the number
-- of symbols that the block lacks, an `int`; it corrects the symbols where they stand and returns
-- how many it corrected, or -1, here `none`.
use satnogs_gr_oot.Base.{ℕ, ◌+◌, ◌-◌, ◌%◌, ◌^◌, ◌≡◌, Option, List, length}

pub record ReedSolomon : Type 0 where
  pub decode_rs_8 : List ℕ → Option (List ℕ) → ℕ → List ℕ × Option ℕ
  pub in_place :
      (symbols : List ℕ) (erasures : Option (List ℕ)) (pad : ℕ)
      → length (decode_rs_8 symbols erasures pad).0 ≡ length symbols

-- `255 - n` of a `size_t`, as the bits of the `int` that it is passed as.
unfoldable pub padding : ℕ → ℕ
padding n = (2 ^ 64 + 255 - n) % 2 ^ 32
