-- ===== src/Ax25/Encoder/Tests.antt =====
-- A short frame from "N0CALL" to "CQ", run through the stages of `encode`, and the theorems at it.
use satnogs_gr_oot.Base.{some}
use satnogs_gr_oot.Whitening.{Lfsr}
use satnogs_gr_oot.Ax25.Encoder.{pdu_writes, encode_pdu, overrun}
use satnogs_gr_oot.Base.{ℕ, ◌≤◌, ◌<◌, ◌≡◌, refl, true, false, none, List, [], ◌∷◌, ◌++◌, arith}
use satnogs_gr_oot.Base.{length, replicate}
use satnogs_gr_oot.Bytes.{join_msb, or_falling}
use satnogs_gr_oot.Ax25.Encoder.Framing.{stuffed_frame-unstuff, stuffed_frame-bits}
use satnogs_gr_oot.Ax25.Stuffing.{unstuff, RunsAtMost, stuff}
use satnogs_gr_oot.Whitening.Laws.{frame_bits}
use satnogs_gr_oot.Ax25.{sync_flag}
use satnogs_gr_oot.Ax25.Encoder.{Ax25Encoder, new, all_lsb_bits, with_crc, frame_body}
use satnogs_gr_oot.Ax25.Encoder.{insert_address, stuffed_frame, allocated, nrzi_loop}
use satnogs_gr_oot.Ax25.Encoder.Bounds.{HasCallsigns, stuffed_frame-le-allocated}
use satnogs_gr_oot.Ax25.Encoder.Overflow.{stuffed_frame_overflow}
use satnogs_gr_oot.Ax25.Encoder.Nrzi.{line, nrzi_loop-line}

abbrev station : Ax25Encoder
station = record {
  dest_addr = 0x43 ∷ 0x51 ∷ [];
  dest_ssid = 0;
  src_addr = 0x4e ∷ 0x30 ∷ 0x43 ∷ 0x41 ∷ 0x4c ∷ 0x4c ∷ [];
  src_ssid = 1;
  preamble_len = 2;
  postamble_len = 1;
  does_scramble = false;
  does_nrzi = true;
}

abbrev hello : List ℕ
hello = 0x68 ∷ 0xff ∷ 0xff ∷ []

new_rejects :
    (new [] 0 hello 0 1 1 true true ≡ none)
    × (new hello 0 (replicate 7 0x41) 0 1 1 true true ≡ none)
unfolding new
new_rejects = (refl, refl)

address :
    insert_address station
    ≡ 0x86 ∷ 0xa2 ∷ 0x40 ∷ 0x40 ∷ 0x40 ∷ 0x40 ∷ 0x60 ∷ 0x9c ∷ 0x60 ∷ 0x86 ∷ 0x82 ∷ 0x98 ∷ 0x98
      ∷ 0x63 ∷ []
unfolding insert_address
address = refl

stuffing : stuff 0 (1 ∷ 1 ∷ 1 ∷ 1 ∷ 1 ∷ 1 ∷ 0 ∷ []) ≡ 1 ∷ 1 ∷ 1 ∷ 1 ∷ 1 ∷ 0 ∷ 1 ∷ 0 ∷ []
unfolding stuff
stuffing = refl

nrzi : nrzi_loop 0 (0x7e ∷ 0x00 ∷ []) ≡ 0xfe ∷ 0xaa ∷ []
unfolding nrzi_loop join_msb or_falling
nrzi = refl

station-HasCallsigns : HasCallsigns station
station-HasCallsigns = record { dest = omega arith; src = omega arith }

hello_inside : length (pdu_writes station hello) ≤ allocated station hello
hello_inside = (stuffed_frame-le-allocated station hello station-HasCallsigns (omega arith)).0

stuffed_frame-unstuff_example :
    (plain : List ℕ) × (fill : ℕ) × (sent : List ℕ) × (stuffed_frame station hello ≡ some plain)
    × (fill < 8)
    × RunsAtMost 5 0 sent
    × (unstuff 0 sent ≡ all_lsb_bits (with_crc (frame_body station hello)))
    × (frame_bits true plain
        ≡ (frame_bits true (replicate 2 sync_flag)
            ++ (sent ++ all_lsb_bits (replicate 1 sync_flag)))
          ++ replicate fill 0)
stuffed_frame-unstuff_example = stuffed_frame-unstuff station hello hello_inside

stuffed_frame-bits_example :
    (plain : List ℕ) × (fill : ℕ) × (stuffed_frame station hello ≡ some plain)
    × (fill < 8)
    × (frame_bits true plain
        ≡ (frame_bits true (replicate 2 sync_flag)
            ++ (stuff 0 (all_lsb_bits (with_crc (frame_body station hello)))
                ++ all_lsb_bits (replicate 1 sync_flag)))
          ++ replicate fill 0)
stuffed_frame-bits_example = stuffed_frame-bits station hello hello_inside

stuffed_frame-le-allocated_example :
    (length (pdu_writes station hello) ≤ allocated station hello)
    × (stuffed_frame station hello ≡ some (pdu_writes station hello))
stuffed_frame-le-allocated_example =
    stuffed_frame-le-allocated station hello station-HasCallsigns (omega arith)

stuffed_frame_overflow_example :
    (allocated station (replicate 800 0xff) < length (pdu_writes station (replicate 800 0xff)))
    × (stuffed_frame station (replicate 800 0xff) ≡ none)
stuffed_frame_overflow_example =
    stuffed_frame_overflow station 800 station-HasCallsigns (omega arith)

-- The overrun is an outcome of `encode`.
overrun_found : (lfsr : Lfsr) → encode_pdu lfsr station (replicate 800 0xff) ≡ overrun
unfolding encode_pdu
overrun_found lfsr =
    rw ((stuffed_frame_overflow station 800 station-HasCallsigns (omega arith)).1, encode_pdu)

nrzi_loop-line_example : frame_bits true (nrzi_loop 0 hello) ≡ line 0 (frame_bits true hello)
nrzi_loop-line_example = nrzi_loop-line hello (omega arith)
