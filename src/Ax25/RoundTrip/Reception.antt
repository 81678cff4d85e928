-- ===== src/Ax25/RoundTrip/Reception.antt =====
-- The three turns of the loop of `_decode` that a frame takes: the first flag, the rest of the
-- preamble with the first byte, and the rest of the frame up to its closing flag.
use satnogs_gr_oot.Base.{ℕ, suc, ◌+◌, ◌-◌, ◌%◌, ◌≤◌, ◌<◌, ◌≡◌, ◌≢◌, refl, sym, ap, ◌∙◌, subst, true}
use satnogs_gr_oot.Base.{false, Option, some, List, ◌∷◌, ◌++◌, arith, ◌==◌, length, drop, IsBytes}
use satnogs_gr_oot.Ax25.{min_addr_len}
use satnogs_gr_oot.Ax25.Stuffing.{stuff}
use satnogs_gr_oot.Ax25.Encoder.{all_lsb_bits, with_crc}
use satnogs_gr_oot.Ax25.Decoder.{Config, Decoder, Frame, DecodingState, no_sync, in_sync, decoding}
use satnogs_gr_oot.Ax25.Decoder.{enter_sync_state, erase_read}
use satnogs_gr_oot.Ax25.Decoder.Run.{returned, again, Verdict, turn_in, after_no_sync}
use satnogs_gr_oot.Ax25.Decoder.Run.{after_decoding, decoding_loop, decode_loop}
use satnogs_gr_oot.Ax25.RoundTrip.Closing.{FlagSeen, flag_bits}
use satnogs_gr_oot.Ax25.RoundTrip.Sync.{flags, quiet, first_flag}
use satnogs_gr_oot.Ax25.RoundTrip.Frame.{InSync}
use satnogs_gr_oot.Ax25.RoundTrip.Bytes.{frame_read}
use satnogs_gr_oot.Ax25.RoundTrip.Ending.{enter_frame_end-with_crc}

loop_again :
    (fuel : ℕ) (s : DecodingState) (c : Config) (d e : Decoder)
    → d.state ≡ s
    → 1 ≤ length d.bitstream
    → turn_in s c d ≡ again e
    → decode_loop (suc fuel) c d ≡ decode_loop fuel c e
unfolding decode_loop
loop_again fuel s c d e state some_bits turn =
    let more : (length d.bitstream == 0) ≡ false = ground arith in
    let here = ap (λ t. turn_in t c d) state ∙ turn in rw (more, here, decode_loop) refl

loop_returned :
    (fuel : ℕ) (s : DecodingState) (c : Config) (d e : Decoder) (frame : Option Frame)
    → d.state ≡ s
    → 1 ≤ length d.bitstream
    → turn_in s c d ≡ returned e frame
    → decode_loop (suc fuel) c d ≡ some (e, frame)
unfolding decode_loop
loop_returned fuel s c d e frame state some_bits turn =
    let more : (length d.bitstream == 0) ≡ false = ground arith in
    let here = ap (λ t. turn_in t c d) state ∙ turn in rw (more, here, decode_loop) refl

-- A decoder without sync that holds the bits of `line`.
abbrev pub hears : Decoder → List ℕ → Decoder
hears d line = record (quiet 0 d) { state = no_sync; bitstream = line }

-- A result that is the frame of `body`, with a valid checksum.
abbrev pub Received : List ℕ → Option (Decoder × Option Frame) → Type 0
Received body r =
    (u : Decoder) × (f : Frame) × (r ≡ some (u, some f)) × (f.pdu ≡ body) × (f.crc_valid ≡ true)

first_turn :
    (c : Config) (d : Decoder) (m : ℕ) (line : List ℕ)
    → (e : Decoder) × (turn_in no_sync c (hears d (flag_bits ++ (flags m ++ line))) ≡ again e)
      × InSync e m line
      × (e.state ≡ in_sync)
      × (e.frame_buffer ≡ d.frame_buffer)
      × (1 ≤ length e.bitstream)
unfolding turn_in after_no_sync enter_sync_state erase_read
first_turn c d m line =
    let e = enter_sync_state (
      erase_read 7
        (record (hears d (flag_bits ++ (flags m ++ line))) { shift_reg = 0x7e; dec_b = 0x7e })) in
    (
      record e { frame_start = e.nitems_read; start_idx = 1 },
      ap after_no_sync (first_flag c (hears d (flag_bits ++ (flags m ++ line))) (flags m ++ line)),
      record { bits = refl; start = refl; shift = refl; dec = refl; count = refl },
      refl,
      refl,
      omega arith,
    )

last_turn :
    (c : Config) (r : Decoder × ℕ × Verdict) (body : List ℕ) (size : ℕ)
    → FlagSeen (with_crc body) size r
    → IsBytes body
    → min_addr_len ≤ length body
    → (u : Decoder) × (f : Frame) × (after_decoding c r ≡ returned u (some f))
      × (f.pdu ≡ body)
      × (f.crc_valid ≡ true)
unfolding after_decoding erase_read
last_turn c (t, i, v) body size seen h long =
    let ended : Decoder =
      erase_read (i + 1 - 8) (record t { sample_cnt = t.nitems_read + i - t.frame_start }) in
    let (u, f, e, pdu, valid) =
      enter_frame_end-with_crc c ended body h long seen.received seen.stored in
    let whole : (t.decoded_bits == 7) ≡ true = ground (arith, seen.boundary) in
    (
      u,
      f,
      ap (λ w. after_decoding c (t, i, w)) seen.verdict
          ∙ rw (whole, after_decoding) (ap (λ (p : Decoder × Option Frame). returned p.0 p.1) e),
      pdu,
      valid,
    )

-- A decoder without sync receives the frame that follows the flags.
pub decode_loop-Received :
    (fuel : ℕ) (c : Config) (d : Decoder) (m x : ℕ) (xs body more : List ℕ)
    → with_crc body ≡ x ∷ xs
    → IsBytes (x ∷ xs)
    → IsBytes body
    → min_addr_len ≤ length body
    → x % 2 ≡ 0
    → x % 64 ≢ 62
    → 1 + length xs < c.max_frame_len
    → c.max_frame_len ≤ length d.frame_buffer
    → Received body (
        decode_loop (suc (suc (suc fuel))) c (
          hears d (
            flag_bits
            ++ (flags m ++ (stuff 0 (all_lsb_bits (with_crc body)) ++ (flag_bits ++ more))))))
unfolding turn_in
decode_loop-Received fuel c d m x xs body more same hx h long even ne fits size =
    let line : List ℕ = stuff 0 (all_lsb_bits (with_crc body)) ++ (flag_bits ++ more) in
    let (e1, t1, sync, s1, buffer, n1) = first_turn c d m line in
    let sync' : InSync e1 m (stuff 0 (all_lsb_bits (x ∷ xs)) ++ (flag_bits ++ more)) =
      subst (λ w. InSync e1 m (stuff 0 (all_lsb_bits w) ++ (flag_bits ++ more))) same sync in
    let (e2, t2, s2, n2, seen) =
      frame_read c e1 m x xs more sync' hx even ne fits (omega (arith, ap length buffer)) in
    let seen' =
      subst
        (λ w.
          FlagSeen w (length e1.frame_buffer)
            (decoding_loop c (drop e2.start_idx e2.bitstream) e2.start_idx e2))
        (sym same) seen in
    let (u, f, t3, pdu, valid) = last_turn c _ body (length e1.frame_buffer) seen' h long in
    (
      u,
      f,
      loop_again (suc (suc fuel)) no_sync c (hears d (flag_bits ++ (flags m ++ line))) e1 refl
            (omega arith) t1
          ∙ loop_again (suc fuel) in_sync c e1 e2 s1 n1 t2
          ∙ loop_returned fuel decoding c e2 u (some f) s2 n2 t3,
      pdu,
      valid,
    )
