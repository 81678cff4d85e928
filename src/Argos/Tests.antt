-- ===== src/Argos/Tests.antt =====
-- The decoder of ARGOS at concrete inputs.
use satnogs_gr_oot.Base.{ℕ, ◌≡◌, refl, true, Option}
use satnogs_gr_oot.Base.{none, some, List, [], ◌∷◌, ◌++◌, arith, replicate}
use satnogs_gr_oot.Bytes.{msb_bits}
use satnogs_gr_oot.Crc.{crc16_ccitt, ccitt_loop, ccitt_step}
use satnogs_gr_oot.Crc.Tables.{ccitt_table}
use satnogs_gr_oot.Argos.{
  decoding, Config, Decoder, Frame, new, decode_1b, enter_sync_state, enter_decoding_state,
  enter_frame_end,
}
use satnogs_gr_oot.Argos.Run.{
  decoding_bit, decode, decode_loop, turn_in, no_sync_loop, in_sync_loop, in_sync_bit,
  decoding_loop, erase_read,
}
use satnogs_gr_oot.Argos.Invariant.{IsValid}
use satnogs_gr_oot.Argos.Total.{Completes, decode-Completes, new-IsValid}

abbrev checked : Config
checked = record { crc_check = true; max_frame_len = 16 }

abbrev fresh : Decoder
fresh = new checked (replicate 18 0)

abbrev on_line : List ℕ → List ℕ
on_line [] = []
on_line (b ∷ bytes) = msb_bits b ++ on_line bytes

-- Four flags, a frame of two bytes with its checksum, and a flag.
abbrev a_frame : List ℕ
a_frame = on_line (0x7e ∷ 0x7e ∷ 0x7e ∷ 0x7e ∷ 1 ∷ 2 ∷ 0x13 ∷ 0x73 ∷ 0x7e ∷ [])

reported : Option (Decoder × Option Frame) → Option Frame
reported none = none
reported (some (d, f)) = f

a_frame_delivered :
    reported (decode checked fresh a_frame)
    ≡ some (record { pdu = 1 ∷ 2 ∷ []; crc_valid = true; samples = some (24, 47) })
unfolding reported decode decode_loop new turn_in no_sync_loop decode_1b enter_sync_state
    in_sync_loop erase_read in_sync_bit enter_decoding_state decoding_loop decoding_bit
    enter_frame_end crc16_ccitt ccitt_loop ccitt_step ccitt_table
a_frame_delivered = refl

fresh-IsValid : IsValid checked fresh
fresh-IsValid = new-IsValid checked (replicate 18 0) (omega arith) (omega arith)

decode-Completes_example : Completes checked (decode checked fresh a_frame)
decode-Completes_example = decode-Completes checked fresh a_frame fresh-IsValid

-- In a byte, behind a zero and five ones.
abbrev after_ones : Decoder
after_ones = record {
  state = decoding;
  shift_reg = 0x1f;
  dec_b = 0x1f;
  received_bytes = 1;
  decoded_bits = 5;
  frame_buffer = replicate 18 0;
  bitstream = [];
  start_idx = 0;
  frame_start = 0;
  sample_cnt = 0;
  nitems_read = 0;
}
