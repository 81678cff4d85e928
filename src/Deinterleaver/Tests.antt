-- ===== src/Deinterleaver/Tests.antt =====
-- A deinterleaver of three branches.
use satnogs_gr_oot.Base.{◌≡◌, refl}
use satnogs_gr_oot.Bytes.{join_msb, or_falling}
use satnogs_gr_oot.Deinterleaver.{make_branches, new, decode_bit, decode_bits, decode_byte}

-- The bits of the last branch come out at once, the others after their delay.
first_byte : (decode_byte (new 3 1) 0xff).0 ≡ 0x2f
unfolding decode_byte decode_bits decode_bit new make_branches join_msb or_falling
first_byte = refl
