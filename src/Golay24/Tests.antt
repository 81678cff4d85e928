-- ===== src/Golay24/Tests.antt =====
-- A word, and the same word with three wrong bits.
use satnogs_gr_oot.Base.{◌≡◌, refl, bit_xor, true, false, some, arith}
use satnogs_gr_oot.Utils.{bit_count}
use satnogs_gr_oot.Golay24.{encode12, encode_loop, xor_bits, decode24, syndrome, parity_loop}
use satnogs_gr_oot.Golay24.{message_loop, parity_part_loop, g_p, g_i, weight}
use satnogs_gr_oot.Golay24.Laws.{decode24-encode12}

three_errors : decode24 (bit_xor (encode12 0xabc true) 0x800041) ≡ some (encode12 0xabc true)
unfolding encode12 encode_loop xor_bits decode24 syndrome parity_loop message_loop parity_part_loop
    g_p g_i weight bit_count
three_errors = refl

decode24-encode12_example :
    (decode24 (encode12 0xabc true) ≡ some (encode12 0xabc true))
    × (decode24 (encode12 0xabc false) ≡ some (encode12 0xabc false))
decode24-encode12_example = decode24-encode12 0xabc (omega arith)
