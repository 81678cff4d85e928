-- ===== src/Utils/Tests.antt =====
-- Counted and mirrored numbers.
use satnogs_gr_oot.Base.{refl, ◌≡◌}
use satnogs_gr_oot.Utils.{bit_count, reverse_uint32_bytes}
use satnogs_gr_oot.Utils.{s_bytes_reversed}

all_bits : bit_count 0xffffffff ≡ 32
unfolding bit_count
all_bits = refl

mirrored_word : reverse_uint32_bytes 0x01020304 ≡ 0x20c04080
unfolding reverse_uint32_bytes s_bytes_reversed
mirrored_word = refl
