-- ===== src/Whitening/Tests.antt =====
-- A small register that meets the assumptions of `Lfsr`, runs on it, and the theorems at it.
use satnogs_gr_oot.Base.{ℕ, ◌≡◌, refl, true, false, List, [], ◌∷◌, arith}
use satnogs_gr_oot.Whitening.Sample.{counter_lfsr}
use satnogs_gr_oot.Whitening.{Whitening, new, reset_whitening, feed, scramble_byte, scramble_loop}
use satnogs_gr_oot.Whitening.{scramble, descramble, one_bit_loop, scramble_one_bit_per_byte}
use satnogs_gr_oot.Whitening.{descramble_one_bit_per_byte}
use satnogs_gr_oot.Bytes.{join_msb, or_falling}
use satnogs_gr_oot.Whitening.Laws.{frame_bits, frame_bytes, scramble_by_bits, descramble-scramble}

abbrev frame : List ℕ
frame = 0x31 ∷ 0x00 ∷ 0xff ∷ []

abbrev self_synchronising : Whitening counter_lfsr
self_synchronising = record { msb = true; self_sync = true; register = (0, 0) }

sent : (scramble counter_lfsr self_synchronising frame).0 ≡ 0x21 ∷ 0xff ∷ 0x55 ∷ []
unfolding scramble scramble_loop scramble_byte join_msb or_falling
sent = refl

-- Bit by bit, a self-synchronising descrambler gives the frame back.
sent_bits_descrambled :
    let (bits, w) =
      scramble_one_bit_per_byte counter_lfsr self_synchronising (frame_bits true frame) in
    (descramble_one_bit_per_byte counter_lfsr (reset_whitening counter_lfsr w) bits).0
    ≡ frame_bits true frame
unfolding scramble_one_bit_per_byte descramble_one_bit_per_byte one_bit_loop feed reset_whitening
sent_bits_descrambled = refl

-- Byte by byte, `descramble` scrambles the frame a second time.
sent_bytes_not_descrambled :
    let (os, w) = scramble counter_lfsr self_synchronising frame in
    (descramble counter_lfsr (reset_whitening counter_lfsr w) os).0 ≡ 0x3e ∷ 0xaa ∷ 0x66 ∷ []
unfolding scramble descramble scramble_loop scramble_byte join_msb or_falling reset_whitening
sent_bytes_not_descrambled = refl

scramble_by_bits_example :
    let (os, v) =
      scramble_one_bit_per_byte counter_lfsr self_synchronising (frame_bits true frame) in
    scramble counter_lfsr self_synchronising frame ≡ (frame_bytes true os, v)
scramble_by_bits_example = scramble_by_bits counter_lfsr self_synchronising frame (omega arith)

descramble-scramble_example :
    let (os, w) = scramble counter_lfsr (new counter_lfsr 0xa9 0xff 7 true false) frame in
    descramble counter_lfsr (reset_whitening counter_lfsr w) os ≡ (frame, w)
descramble-scramble_example = descramble-scramble counter_lfsr 0xa9 0xff 7 true frame
