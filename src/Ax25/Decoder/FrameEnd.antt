-- ===== src/Ax25/Decoder/FrameEnd.antt =====
-- What `enter_frame_end` leaves of an `ax25_decoder`.
use satnogs_gr_oot.Base.{refl, some, zero, ◌^◌, ◌-◌, bit_xor, get_or, length-set, ℕ, suc, ◌≡◌, List}
use satnogs_gr_oot.Base.{arith, length}
use satnogs_gr_oot.Ax25.Decoder.{reset_state, enter_frame_end, correct_byte, correct_from, toggled}
use satnogs_gr_oot.Ax25.Decoder.{no_sync, error_correction, Config, Decoder}

-- The search for a bit to correct keeps the size of the buffer.
length-correct_byte :
    (left i received : ℕ) (buffer t : List ℕ)
    → correct_byte left i received buffer ≡ some t
    → length t ≡ length buffer
unfolding correct_byte toggled
length-correct_byte zero i received buffer t h = cc
length-correct_byte (suc left) i received buffer t h = ground (
  arith,
  length-correct_byte left i received buffer t,
  length-set buffer i (bit_xor (get_or buffer i 0) (2 ^ (7 - left))),
)

length-correct_from :
    (left received : ℕ) (buffer t : List ℕ)
    → correct_from left received buffer ≡ some t
    → length t ≡ length buffer
unfolding correct_from
length-correct_from zero received buffer t h = cc
length-correct_from (suc left) received buffer t h = ground (
  arith,
  length-correct_from left received buffer t,
  length-correct_byte 8 (received - suc left) received buffer t,
)

-- The end of a frame resets the decoder, keeps the bits held and the size of the buffer.
pub record Ended (d u : Decoder) : Type 0 where
  pub state : u.state ≡ no_sync
  pub received : u.received_bytes ≡ 0
  pub waiting : u.decoded_bits ≡ 0
  pub bits : u.bitstream ≡ d.bitstream
  pub size : length u.frame_buffer ≡ length d.frame_buffer

Ended-reset : (d : Decoder) → Ended d (reset_state d)
unfolding reset_state
Ended-reset d = record { state = refl; received = refl; waiting = refl; bits = refl; size = refl }

pub enter_frame_end-Ended : (c : Config) (d : Decoder) → Ended d (enter_frame_end c d).0
unfolding enter_frame_end reset_state error_correction
enter_frame_end-Ended c d = grind (arith, length-correct_from)
