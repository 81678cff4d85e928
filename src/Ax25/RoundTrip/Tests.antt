-- ===== src/Ax25/RoundTrip/Tests.antt =====
-- The frame of the station in `Ax25.Encoder.Tests`, and one whose destination begins with "?".
use satnogs_gr_oot.Ax25.Encoder.{Encoded, message, malformed, overrun}
use satnogs_gr_oot.Ax25.Encoder.Bounds.{stuffed_frame-le-allocated}
use satnogs_gr_oot.Base.{ℕ, ◌≡◌, refl, true, false, Option, some, none, List, [], ◌∷◌, arith}
use satnogs_gr_oot.Base.{replicate}
use satnogs_gr_oot.Whitening.Sample.{through}
use satnogs_gr_oot.Ax25.Decoder.{decode_1b, enter_decoding_state, enter_frame_end, enter_sync_state}
use satnogs_gr_oot.Ax25.Decoder.{erase_read, Config, Decoder, Frame, new}
use satnogs_gr_oot.Bytes.{join_msb, or_falling}
use satnogs_gr_oot.Crc.{crc16_ax25, reflected_loop, reflected_step}
use satnogs_gr_oot.Crc.Tables.{ccitt_table_reverse}
use satnogs_gr_oot.Ax25.Decoder.Run.{nrzi_bit, decoding_bit, decoding_loop, in_sync_bit}
use satnogs_gr_oot.Ax25.Decoder.Run.{in_sync_loop, no_sync_loop, turn_in, decode_loop, decode}
use satnogs_gr_oot.Whitening.Laws.{frame_bits}
use satnogs_gr_oot.Ax25.Encoder.{Ax25Encoder, encode_pdu, frame_body}
use satnogs_gr_oot.Ax25.RoundTrip.Link.{Suits, decode-encode_pdu}

abbrev sender : Ax25Encoder
sender = record {
  dest_addr = 0x43 ∷ 0x51 ∷ [];
  dest_ssid = 0;
  src_addr = 0x4e ∷ 0x30 ∷ 0x43 ∷ 0x41 ∷ 0x4c ∷ 0x4c ∷ [];
  src_ssid = 1;
  preamble_len = 2;
  postamble_len = 1;
  does_scramble = false;
  does_nrzi = true;
}

abbrev receiver : Config
receiver = record {
  promisc = true;
  does_descramble = false;
  crc_check = true;
  max_frame_len = 64;
  does_error_correction = false;
}

abbrev octets : List ℕ
octets = 0x68 ∷ 0xff ∷ 0xff ∷ []

abbrev buffer : List ℕ
buffer = replicate 200 0

sender-Suits : Suits receiver sender octets buffer
sender-Suits = record {
  descramble = refl;
  scramble = refl;
  nrzi = refl;
  preamble = omega arith;
  postamble = omega arith;
  callsigns = record { dest = omega arith; src = omega arith };
  first_char = omega arith;
  octets = omega arith;
  fits = omega arith;
  inside =
      (stuffed_frame-le-allocated sender octets (record { dest = omega arith; src = omega arith })
        (omega arith)).0;
  room = omega arith;
}

decode-encode_pdu_example :
    (line : List ℕ) × (u : Decoder) × (f : Frame) × (encode_pdu through sender octets
      ≡ message line)
    × (decode through receiver (new receiver buffer) tt (frame_bits true line)
        ≡ some (u, some f, tt))
    × (f.pdu ≡ frame_body sender octets)
    × (f.crc_valid ≡ true)
decode-encode_pdu_example = decode-encode_pdu through receiver sender octets buffer tt sender-Suits

-- With "?Q" for its destination, the frame is lost.
abbrev question : Ax25Encoder
question = record sender { dest_addr = 0x3f ∷ 0x51 ∷ [] }

abbrev octets_of : Encoded → List ℕ
octets_of (message line) = line
octets_of malformed = []
octets_of overrun = []

abbrev found_in : Option (Decoder × Option Frame × Unit {0}) → Option (List ℕ)
found_in (some (d, some f, u)) = some f.pdu
found_in (some (d, none, u)) = none
found_in none = none

question_lost :
    found_in (
      decode through receiver
        (new receiver buffer)
        tt
        (frame_bits true (octets_of (encode_pdu through question octets))))
    ≡ none
unfolding decode decode_loop turn_in no_sync_loop in_sync_loop in_sync_bit decoding_loop
    decoding_bit nrzi_bit new enter_frame_end enter_sync_state enter_decoding_state decode_1b
    erase_read encode_pdu frame_body join_msb or_falling crc16_ax25 reflected_loop reflected_step
    ccitt_table_reverse
question_lost = refl
