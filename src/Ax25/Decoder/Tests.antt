-- ===== src/Ax25/Decoder/Tests.antt =====
-- A frame from the encoder, given to the decoder bit by bit.
use satnogs_gr_oot.Ax25.Encoder.{Encoded, message, malformed, overrun}
use satnogs_gr_oot.Base.{◌+◌, ℕ, ◌%◌, ◌≡◌, refl, Bool, true, false, Option, none, some, List, []}
use satnogs_gr_oot.Base.{◌∷◌, arith, replicate, ◌≤◌, length}
use satnogs_gr_oot.Ax25.Decoder.Session.{SessionSound, decode_all, decode_all-SessionSound}
use satnogs_gr_oot.Ax25.{min_addr_len}
use satnogs_gr_oot.Ax25.Decoder.{frame_of, is_frame_valid, Config, Decoder, Frame, new}
use satnogs_gr_oot.Ax25.Decoder.{enter_frame_end, enter_sync_state, enter_decoding_state, decode_1b}
use satnogs_gr_oot.Ax25.Decoder.{erase_read}
use satnogs_gr_oot.Ax25.Decoder.Run.{decode, decode_loop, turn_in, no_sync_loop}
use satnogs_gr_oot.Ax25.Decoder.Run.{in_sync_loop, in_sync_bit, decoding_loop, decoding_bit}
use satnogs_gr_oot.Ax25.Decoder.Run.{nrzi_bit}
use satnogs_gr_oot.Ax25.Decoder.Total.{Decodes, decode-Decodes, new-IsValid}
use satnogs_gr_oot.Ax25.Decoder.Reports.{Reported, enter_frame_end-Reported}
use satnogs_gr_oot.Ax25.Encoder.{with_crc, Ax25Encoder, encode_pdu, frame_body}
use satnogs_gr_oot.Whitening.{Lfsr}
use satnogs_gr_oot.Whitening.Laws.{frame_bits}
use satnogs_gr_oot.Bytes.{join_msb, or_falling}
use satnogs_gr_oot.Crc.{crc16_ax25, reflected_loop, reflected_step}
use satnogs_gr_oot.Crc.Tables.{ccitt_table_reverse}

-- A register that passes the bits on, for a decoder that does not descramble.
abbrev plain_lfsr : Lfsr
plain_lfsr = record {
  State = Unit {0};
  make = λ mask seed order. tt;
  next_bit = λ s. (0, s);
  next_bit_scramble = λ s b. (b % 2, s);
  next_bit_descramble = λ s b. (b % 2, s);
  reset = λ s. s;
  next_bit_range = λ s. omega arith;
  scramble_range = λ s b. omega arith;
  descramble_range = λ s b. omega arith;
  reset_make = λ mask seed order. refl;
  reset_next = λ s. refl;
  reset_scramble = λ s b. refl;
}

abbrev station : Ax25Encoder
station = record {
  dest_addr = 0x43 ∷ 0x51 ∷ [];
  dest_ssid = 0;
  src_addr = 0x4e ∷ 0x30 ∷ 0x43 ∷ 0x41 ∷ 0x4c ∷ 0x4c ∷ [];
  src_ssid = 1;
  preamble_len = 2;
  postamble_len = 1;
  does_scramble = false;
  does_nrzi = true;
}

abbrev hello : List ℕ
hello = 0x68 ∷ 0xff ∷ 0xff ∷ []

abbrev config : Config
config = record {
  promisc = true;
  does_descramble = false;
  crc_check = true;
  max_frame_len = 64;
  does_error_correction = false;
}

abbrev octets_of : Encoded → List ℕ
octets_of (message line) = line
octets_of malformed = []
octets_of overrun = []

abbrev pdu_of : Option (Decoder × Option Frame × Unit {0}) → Option (List ℕ × Bool)
pdu_of (some (d, some f, u)) = some (f.pdu, f.crc_valid)
pdu_of (some (d, none, u)) = none
pdu_of none = none

decoded :
    pdu_of (
      decode plain_lfsr config
        (new config (replicate 200 0))
        tt
        (frame_bits true (octets_of (encode_pdu plain_lfsr station hello))))
    ≡ some (frame_body station hello, true)
unfolding decode decode_loop turn_in no_sync_loop in_sync_loop in_sync_bit decoding_loop
    decoding_bit nrzi_bit new enter_frame_end enter_sync_state enter_decoding_state decode_1b
    erase_read encode_pdu frame_body join_msb or_falling crc16_ax25 reflected_loop reflected_step
    ccitt_table_reverse
decoded = refl

abbrev memory : List ℕ
memory = replicate 200 0

decode-Decodes_example : Decodes plain_lfsr config (
    decode plain_lfsr config
      (new config memory)
      tt
      (frame_bits true (octets_of (encode_pdu plain_lfsr station hello))))
decode-Decodes_example =
    decode-Decodes plain_lfsr config (new config memory) tt
      (frame_bits true (octets_of (encode_pdu plain_lfsr station hello)))
      (new-IsValid config memory (omega arith))

-- A decoder that holds a whole frame of the station.
abbrev frame_bytes : List ℕ
frame_bytes = with_crc (frame_body station hello)

abbrev full : Decoder
full = record (new config memory) {
  received_bytes = length frame_bytes;
  frame_buffer = frame_bytes;
}

abbrev hello_frame : Frame
hello_frame = frame_of full frame_bytes true

full_reports : (enter_frame_end config full).1 ≡ some hello_frame
unfolding enter_frame_end new with_crc frame_body is_frame_valid crc16_ax25 reflected_loop
    reflected_step ccitt_table_reverse
full_reports = refl

enter_frame_end-Reported_example :
    (min_addr_len + 2 ≤ full.received_bytes) × Reported config full hello_frame
enter_frame_end-Reported_example = enter_frame_end-Reported config full hello_frame full_reports

abbrev two_buffers : List (List ℕ)
two_buffers =
    frame_bits true (octets_of (encode_pdu plain_lfsr station hello)) ∷ (1 ∷ 0 ∷ 0 ∷ []) ∷ []

decode_all-SessionSound_example :
    SessionSound config (decode_all plain_lfsr config (new config memory) tt two_buffers)
decode_all-SessionSound_example =
    decode_all-SessionSound plain_lfsr config memory two_buffers (omega arith)
