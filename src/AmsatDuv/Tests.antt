-- ===== src/AmsatDuv/Tests.antt =====
-- The decoder of AMSAT DUV at concrete inputs.
use satnogs_gr_oot.Base.{replicate, zero, suc}
use satnogs_gr_oot.AmsatDuv.{after_rs, fault}
use satnogs_gr_oot.AmsatDuv.Stream.{Sent}
use satnogs_gr_oot.Base.{ℕ, ◌≡◌, refl, inl}
use satnogs_gr_oot.Base.{some, List, [], ◌∷◌, arith, bit_and, length, true, ap, drop}
use satnogs_gr_oot.Utils.Laws.{ones}
use satnogs_gr_oot.ReedSolomon.{ReedSolomon}
use satnogs_gr_oot.AmsatDuv.{search_sync, decoding, Config, Decoder, set_access_code}
use satnogs_gr_oot.AmsatDuv.{finished, faulty, process_10b, nearest, decode, is_spacecraft_valid}
use satnogs_gr_oot.AmsatDuv.Tables.{lookup_negative, lookup_positive}
use satnogs_gr_oot.AmsatDuv.Nearest.{Counts}
use satnogs_gr_oot.AmsatDuv.Words.{Written, Encodes, process_10b-Nearest, process_10b-encoded}
use satnogs_gr_oot.AmsatDuv.Safe.{IsValid, Ends}
use satnogs_gr_oot.AmsatDuv.Total.{decode-Ends}
use satnogs_gr_oot.AmsatDuv.Stream.{stream}
use satnogs_gr_oot.AmsatDuv.Delivery.{frame_of, Awaits, decode-delivered, decode_erases_too_much}

abbrev counter : ℕ → ℕ
counter x = ones 16 x

counter-Counts : Counts counter
counter-Counts x lt = refl

-- A correction that finds nothing to correct.
abbrev nothing_wrong : ReedSolomon
nothing_wrong = record {
  decode_rs_8 = λ symbols erasures pad. (symbols, some 0);
  in_place = λ symbols erasures pad. refl;
}

-- Frames of 64 symbols, and a buffer for them.
abbrev long_frames : Config
long_frames = record { max_frame_len = 64; control_symbol_pos = 0x0FA; control_symbol_neg = 0x305 }

abbrev zeros : List ℕ
zeros = replicate 64 0

abbrev in_frame : Decoder
in_frame = record {
  erasure_cnt = 0;
  data_reg = 0;
  word_cnt = 0;
  words = zeros;
  erasures_indexes = zeros;
  state = decoding;
  bitstream_idx = 1;
  bitstream = 1 ∷ [];
}

abbrev at_start : Decoder
at_start = record in_frame { bitstream_idx = 0; bitstream = [] }

-- The byte 1 and 63 zeros, from the first table.
abbrev sent_bytes : List ℕ
sent_bytes = 1 ∷ replicate 63 0

abbrev sent_words : List ℕ
sent_words = 0x1d4 ∷ replicate 63 0x274

access_code : set_access_code ((0 ∷ 0 ∷ 1 ∷ 1 ∷ 1 ∷ 1 ∷ 1 ∷ 0 ∷ 1 ∷ 0 ∷ [])) ≡ some (0x0FA, 0x305)
unfolding set_access_code
access_code = refl

-- A word of neither table.
far_word : nearest counter 0 ≡ (4, 3)
unfolding nearest ones lookup_negative lookup_positive
far_word = refl

process_10b-Nearest_example : Written counter 0 0 in_frame (process_10b counter 0 0 in_frame)
process_10b-Nearest_example = process_10b-Nearest counter counter-Counts 0 0 in_frame

own_word : Encodes 1 0x1d4
unfolding lookup_negative
own_word = inl refl

process_10b-encoded_example :
    process_10b counter 0x1d4 0 in_frame ≡ record in_frame { words = sent_bytes }
process_10b-encoded_example =
    process_10b-encoded counter counter-Counts 1 0x1d4 0 in_frame (omega arith) own_word

in_frame-IsValid : IsValid long_frames in_frame
in_frame-IsValid = record {
  long = omega arith;
  size = refl;
  size_erasures = refl;
  counted = λ e. omega arith;
  erased = λ e. omega arith;
  index = λ e. omega arith;
}

decode-Ends_example :
    Ends long_frames (decode counter nothing_wrong long_frames in_frame (stream sent_words))
decode-Ends_example =
    decode-Ends counter nothing_wrong long_frames in_frame (stream sent_words) in_frame-IsValid
      (λ e. omega arith)

other_word : Encodes 0 0x274
unfolding lookup_negative
other_word = inl refl

zeros-Sent : (n : ℕ) → Sent (replicate n 0) (replicate n 0x274)
zeros-Sent zero = tt
zeros-Sent (suc n) = ((omega arith, omega arith, other_word), zeros-Sent n)

awaits :
    (d : Decoder)
    → d.word_cnt ≡ 0
    → d.erasure_cnt ≡ 0
    → d.words ≡ zeros
    → drop d.bitstream_idx d.bitstream ≡ stream sent_words
    → Awaits counter nothing_wrong long_frames d sent_bytes sent_words []
awaits d z z' e bits = record {
  empty = z;
  no_erasures = z';
  size = ap length e;
  whole = refl;
  sent = ((omega arith, omega arith, own_word), zeros-Sent 63);
  bits = bits;
}

known : is_spacecraft_valid (bit_and 1 0x7) ≡ true
unfolding is_spacecraft_valid
known = refl

decode-delivered_example :
    (e : Decoder) × (e.state ≡ search_sync)
    × (decode counter nothing_wrong long_frames in_frame (stream sent_words)
        ≡ finished e (some (frame_of sent_bytes 0)))
decode-delivered_example =
    decode-delivered counter nothing_wrong long_frames in_frame (stream sent_words) sent_bytes
      sent_words [] sent_bytes 0 counter-Counts refl (omega arith) (awaits _ refl refl refl refl)
      refl known (omega arith)

decode_erases_too_much_example :
    decode counter nothing_wrong long_frames at_start (stream sent_words) ≡ faulty
decode_erases_too_much_example =
    decode_erases_too_much counter nothing_wrong long_frames at_start (stream sent_words) sent_bytes
      sent_words sent_bytes 0 counter-Counts refl (omega arith) (awaits _ refl refl refl refl) refl
      known refl

-- A frame of two symbols is read behind its end.
short_frame : after_rs 1 in_frame (1 ∷ 0 ∷ [], some 0) ≡ fault
unfolding after_rs is_spacecraft_valid
short_frame = refl
