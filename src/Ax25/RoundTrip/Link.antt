-- ===== src/Ax25/RoundTrip/Link.antt =====
-- `ax25_encoder::encode` and `ax25_decoder::decode` in a row, without scrambling.
use satnogs_gr_oot.Base.{none, some, Option, ℕ, zero, suc, ◌+◌, ◌-◌, ◌*◌, ◌%◌, ◌≤◌, ◌<◌, ◌≡◌, ◌≢◌}
use satnogs_gr_oot.Base.{refl, sym, ap, ap₂, ◌∙◌, subst, true, false, List, ◌++◌, append_assoc}
use satnogs_gr_oot.Base.{arith, length, get_or, replicate, IsBytes, length-take}
use satnogs_gr_oot.Whitening.{Lfsr}
use satnogs_gr_oot.Whitening.Laws.{frame_bits}
use satnogs_gr_oot.Ax25.{max_header_len}
use satnogs_gr_oot.Ax25.Stuffing.{stuff}
use satnogs_gr_oot.Ax25.Encoder.{nrzi_loop, Ax25Encoder, encode_pdu, frame_body, with_crc}
use satnogs_gr_oot.Ax25.Encoder.{all_lsb_bits, pdu_writes, allocated, message, line_coded}
use satnogs_gr_oot.Ax25.Encoder.Bounds.{HasCallsigns, length-body, length-with_crc}
use satnogs_gr_oot.Ax25.Encoder.Framing.{stuffed_frame-fits, pdu_writes-bits}
use satnogs_gr_oot.Ax25.Encoder.Nrzi.{level}
use satnogs_gr_oot.Ax25.Decoder.{Config, Decoder, Frame, new}
use satnogs_gr_oot.Ax25.Decoder.Run.{take_input, decode, decode_loop, fuel_of}
use satnogs_gr_oot.Ax25.Decoder.Nrzi.{take_input-line}
use satnogs_gr_oot.Ax25.RoundTrip.Closing.{flag_bits}
use satnogs_gr_oot.Ax25.RoundTrip.Sync.{flags}
use satnogs_gr_oot.Ax25.RoundTrip.Reception.{hears, Received, decode_loop-Received}
use satnogs_gr_oot.Ax25.RoundTrip.Sent.{frame_bits-flags, all_lsb_bits-flags, IsBytes-frame_body}
use satnogs_gr_oot.Ax25.RoundTrip.Sent.{IsBytes-with_crc, first_byte, IsBytes-pdu_writes}

flags-suc : (n : ℕ) → 1 ≤ n → flags n ≡ flag_bits ++ flags (n - 1)
flags-suc zero h = absurd (omega arith)
flags-suc (suc n) h = ap (λ k. flag_bits ++ flags k) (let e : n ≡ suc n - 1 = omega arith in e)

-- The line between the encoder's NRZI stage and the decoder's.
sent_line :
    (e : Ax25Encoder) (pdu : List ℕ)
    → 1 ≤ e.preamble_len
    → 1 ≤ e.postamble_len
    → (more : List ℕ) × (frame_bits true (pdu_writes e pdu)
        ≡ flag_bits
          ++ (flags (e.preamble_len - 1)
              ++ (stuff 0 (all_lsb_bits (with_crc (frame_body e pdu))) ++ (flag_bits ++ more))))
sent_line e pdu pre post =
    let (fill, small, same) = pdu_writes-bits e pdu in
    let sent : List ℕ = stuff 0 (all_lsb_bits (with_crc (frame_body e pdu))) in
    let zeros : List ℕ = replicate fill 0 in
    let before = frame_bits-flags e.preamble_len ∙ flags-suc e.preamble_len pre in
    let behind = all_lsb_bits-flags e.postamble_len ∙ flags-suc e.postamble_len post in
    let last : List ℕ = flags (e.postamble_len - 1) in
    let first : List ℕ = flags (e.preamble_len - 1) in
    (
      last ++ zeros,
      same
          ∙ ap₂ (λ (x y : List ℕ). (x ++ (sent ++ y)) ++ zeros) before behind
          ∙ append_assoc (flag_bits ++ first) (sent ++ (flag_bits ++ last)) zeros
          ∙ append_assoc flag_bits first ((sent ++ (flag_bits ++ last)) ++ zeros)
          ∙ ap (λ t. flag_bits ++ (first ++ t)) (append_assoc sent (flag_bits ++ last) zeros),
    )

-- The conditions under which a frame of the encoder reaches the decoder.
pub record Suits (c : Config) (e : Ax25Encoder) (pdu memory : List ℕ) : Type 0 where
  pub descramble : c.does_descramble ≡ false
  pub scramble : e.does_scramble ≡ false
  pub nrzi : e.does_nrzi ≡ true
  pub preamble : 1 ≤ e.preamble_len
  pub postamble : 1 ≤ e.postamble_len
  pub callsigns : HasCallsigns e
  pub first_char : get_or e.dest_addr 0 0x20 % 32 ≢ 31
  pub octets : IsBytes pdu
  pub fits : length pdu + 18 < c.max_frame_len
  pub inside : length (pdu_writes e pdu) ≤ allocated e pdu
  pub room : c.max_frame_len + max_header_len + 2 ≤ length memory

frame-Received :
    (c : Config) (e : Ax25Encoder) (pdu memory bits : List ℕ) (prev fuel : ℕ)
    → Suits c e pdu memory
    → bits ≡ frame_bits true (pdu_writes e pdu)
    → Received (frame_body e pdu) (
        decode_loop
          (suc (suc (suc fuel)))
          c
          (record (new c memory) { bitstream = bits; prev_bit_nrzi = prev }))
unfolding new
frame-Received c e pdu memory bits prev fuel suits same =
    let d : Decoder = record (new c memory) { bitstream = bits; prev_bit_nrzi = prev } in
    let body : List ℕ = frame_body e pdu in
    let (more, line) = sent_line e pdu suits.preamble suits.postamble in
    let (x, xs, first, even, low) = first_byte e pdu suits.first_char in
    let bytes = IsBytes-frame_body e pdu suits.octets in
    let long = length-body e pdu suits.callsigns in
    subst (λ (t : List ℕ). Received body (decode_loop (suc (suc (suc fuel))) c (hears d t)))
      (sym (same ∙ line))
      (decode_loop-Received fuel c d (e.preamble_len - 1) x xs body more first
        (subst IsBytes first (IsBytes-with_crc body bytes)) bytes (omega arith) even low
        (omega (arith, ap length first, length-with_crc body, suits.fits))
        (omega (
          arith,
          suits.room,
          length-take (c.max_frame_len + max_header_len + 2) memory suits.room,
        )))

module _ (lfsr : Lfsr) where
  open lfsr use {State}

  encode_pdu-plain :
      (e : Ax25Encoder) (pdu : List ℕ)
      → e.does_scramble ≡ false
      → e.does_nrzi ≡ true
      → length (pdu_writes e pdu) ≤ allocated e pdu
      → encode_pdu lfsr e pdu ≡ message (nrzi_loop 0 (pdu_writes e pdu))
  unfolding encode_pdu line_coded
  encode_pdu-plain e pdu scramble nrzi inside =
      rw (stuffed_frame-fits e pdu inside, encode_pdu) (rw (scramble, nrzi) refl)

  decode-plain :
      (c : Config) (d u : Decoder) (s : State) (input bits : List ℕ) (last : ℕ)
      (frame : Option Frame)
      → c.does_descramble ≡ false
      → take_input lfsr false d.prev_bit_nrzi s input ≡ (bits, last, s)
      → (let t = record d { bitstream = d.bitstream ++ bits; prev_bit_nrzi = last } in
          decode_loop (fuel_of t) c t ≡ some (u, frame))
      → decode lfsr c d s input ≡ some (u, frame, s)
  unfolding decode
  decode-plain c d u s input bits last frame plain heard done =
      let taken : take_input lfsr c.does_descramble d.prev_bit_nrzi s input ≡ (bits, last, s) =
        ap (λ t. take_input lfsr t d.prev_bit_nrzi s input) plain ∙ heard in
      ap
        (λ (r : List ℕ × ℕ × State).
          let t = record d { bitstream = d.bitstream ++ r.0; prev_bit_nrzi = r.1 } in
          elim (decode_loop (fuel_of t) c t) [ none ↦ none | some (v, f) ↦ some (v, f, r.2) ])
        taken
      ∙ ap
          (λ (r : Option (Decoder × Option Frame)). elim r [
            | none ↦ none
            | some (v, f) ↦ some (v, f, s)
          ])
          done

  -- A message for which the encoder stays inside `ax25_pdu`, sent with at least one flag before and
  -- one behind it, without scrambling and with NRZI, comes through: `encode` returns octets, and from
  -- their bits a new decoder without descrambling returns a frame with a valid checksum, whose
  -- payload is the address, the control, the PID and the octets of the message. The other conditions
  -- are that the callsigns are such as the constructor takes, that the octets are bytes and fewer
  -- than `max_frame_len` with the 18 added, that the decoder's buffer was allocated in full, and that
  -- the first character of the destination does not have its five low bits all set.
  pub decode-encode_pdu :
      (c : Config) (e : Ax25Encoder) (pdu memory : List ℕ) (s : State)
      → Suits c e pdu memory
      → (line : List ℕ) × (u : Decoder) × (f : Frame) × (encode_pdu lfsr e pdu ≡ message line)
        × (decode lfsr c (new c memory) s (frame_bits true line) ≡ some (u, some f, s))
        × (f.pdu ≡ frame_body e pdu)
        × (f.crc_valid ≡ true)
  unfolding new
  decode-encode_pdu c e pdu memory s suits =
      let bits : List ℕ = frame_bits true (pdu_writes e pdu) in
      let last : ℕ = level 0 bits in
      let d : Decoder = record (new c memory) { bitstream = bits; prev_bit_nrzi = last } in
      let fuel : fuel_of d ≡ suc (suc (suc (3 * length bits))) = omega arith in
      let (u, f, done, pdu_is, valid) =
        frame-Received c e pdu memory bits last (3 * length bits) suits refl in
      let heard = take_input-line lfsr s (pdu_writes e pdu) (IsBytes-pdu_writes e pdu) in
      let found : decode_loop (fuel_of d) c d ≡ some (u, some f) =
        ap (λ n. decode_loop n c d) fuel ∙ done in
      let line : List ℕ = nrzi_loop 0 (pdu_writes e pdu) in
      (
        line,
        u,
        f,
        encode_pdu-plain e pdu suits.scramble suits.nrzi suits.inside,
        decode-plain c (new c memory) u s (frame_bits true line) bits last (some f) suits.descramble
            heard found,
        pdu_is,
        valid,
      )
