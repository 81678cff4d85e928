-- ===== src/Ax25/Encoder/Framing.antt =====
-- The whole frame that `encode` builds, as a stream of bits.
use satnogs_gr_oot.Base.{
  ◌≤◌, ℕ, zero, suc, ◌+◌, ◌-◌, ◌*◌, ◌%◌, ◌^◌, ◌<◌, ◌≡◌, refl, sym, ap, ap₂, ◌∙◌,
}
use satnogs_gr_oot.Base.{inl, inr, true, List, [], ◌∷◌, ◌++◌, append-nil, append_assoc, arith, ◌==◌}
use satnogs_gr_oot.Base.{if◌then◌else◌, Bool-cases, All-append, replicate, scale}
use satnogs_gr_oot.Ax25.Stuffing.{RunsAtMost, unstuff, stuff-runs, unstuff-stuff, stuff}
use satnogs_gr_oot.Bytes.{msb_bits, lsb_bits}
use satnogs_gr_oot.Bytes.Laws.{IsBits, lsb_bits-IsBits}
use satnogs_gr_oot.Whitening.Laws.{frame_bits}
use satnogs_gr_oot.Ax25.{sync_flag}
use satnogs_gr_oot.Ax25.Encoder.{
  leb, some, length, Shifter, leftover, all_lsb_bits, stuff_loop, plain_loop,
}
use satnogs_gr_oot.Ax25.Encoder.{
  stuffed_frame, pdu_writes, allocated, Ax25Encoder, with_crc, frame_body,
}
use satnogs_gr_oot.Ax25.Encoder.Stream.{low_bits, stream, frame_bits-append, msb_bits-low_bits}
use satnogs_gr_oot.Ax25.Encoder.Stream.{low_bits-shift, low_bits-cut}
use satnogs_gr_oot.Ax25.Encoder.Rounds.{IsReady, stream-stuff_loop, stream-plain_loop}

replicate-snoc : (n x : ℕ) → replicate n x ++ (x ∷ []) ≡ x ∷ replicate n x
replicate-snoc zero x = refl
replicate-snoc (suc n) x = ap (λ t. x ∷ t) (replicate-snoc n x)

low_bits-zeros : (j k sr : ℕ) → low_bits (j + k) (sr * 2 ^ j) ≡ low_bits k sr ++ replicate j 0
low_bits-zeros zero k sr =
    ap₂ low_bits (let e : 0 + k ≡ k = omega arith in e) (let e : sr * 1 ≡ sr = omega arith in e)
    ∙ sym (append-nil (low_bits k sr))
low_bits-zeros (suc j) k sr =
    ap₂ low_bits (let e : suc j + k ≡ suc (j + k) = omega arith in e)
      (let e : sr * 2 ^ suc j ≡ sr * 2 ^ j * 2 + 0 = omega (arith, scale sr j) in e)
    ∙ low_bits-shift (j + k) (sr * 2 ^ j) 0 (omega arith)
    ∙ ap (λ t. t ++ (0 ∷ [])) (low_bits-zeros j k sr)
    ∙ append_assoc (low_bits k sr) (replicate j 0) (0 ∷ [])
    ∙ ap (λ t. low_bits k sr ++ t) (replicate-snoc j 0)

-- How many zeros fill the last byte.
abbrev pub filling : Shifter → ℕ
filling s = if s.enc_bits == 0 then 0 else 8 - s.enc_bits

frame_bits-leftover :
    (s : Shifter)
    → s.enc_bits < 8
    → frame_bits true (leftover s) ≡ stream s ++ replicate (filling s) 0
unfolding leftover
frame_bits-leftover s h = elim (Bool-cases (s.enc_bits == 0)) [
  | inl e ↦
      let none_waits : s.enc_bits ≡ 0 = ground arith in
      rw e (
        sym (
          append-nil (stream s)
          ∙ ap (λ k. frame_bits true s.out ++ low_bits k s.sr) none_waits
          ∙ append-nil (frame_bits true s.out)))
  | inr e ↦
      let k : ℕ = s.enc_bits in
      let j : ℕ = 8 - s.enc_bits in
      rw e (
        frame_bits-append s.out (s.sr * 2 ^ j % 2 ^ 8 ∷ [])
        ∙ ap (λ t. frame_bits true s.out ++ t)
            (append-nil (msb_bits (s.sr * 2 ^ j % 2 ^ 8))
              ∙ sym (msb_bits-low_bits (s.sr * 2 ^ j % 2 ^ 8) (omega arith))
              ∙ low_bits-cut 8 8 (s.sr * 2 ^ j) (omega arith)
              ∙ ap (λ n. low_bits n (s.sr * 2 ^ j)) (let f : 8 ≡ j + k = omega arith in f)
              ∙ low_bits-zeros j k s.sr)
        ∙ sym (append_assoc (frame_bits true s.out) (low_bits k s.sr) (replicate j 0)))
]

pub all_lsb_bits-IsBits : (xs : List ℕ) → IsBits (all_lsb_bits xs)
unfolding all_lsb_bits
all_lsb_bits-IsBits [] = tt
all_lsb_bits-IsBits (x ∷ xs) =
    All-append (λ b. b < 2) (lsb_bits x) (all_lsb_bits xs) (lsb_bits-IsBits x)
      (all_lsb_bits-IsBits xs)

-- The variables of `encode` after the stuffing loop, and after the postamble.
abbrev preamble : Ax25Encoder → Shifter
preamble e = record { sr = 0; enc_bits = 0; out = replicate e.preamble_len sync_flag }

abbrev framed : Ax25Encoder → List ℕ → Shifter
framed e pdu = stuff_loop (all_lsb_bits (with_crc (frame_body e pdu))) (preamble e)

abbrev pub finished : Ax25Encoder → List ℕ → Shifter
finished e pdu = plain_loop (all_lsb_bits (replicate e.postamble_len sync_flag)) (framed e pdu)

finished_lem :
    (e : Ax25Encoder) (pdu : List ℕ)
    → (stream (finished e pdu)
        ≡ frame_bits true (replicate e.preamble_len sync_flag)
          ++ (stuff 0 (all_lsb_bits (with_crc (frame_body e pdu)))
              ++ all_lsb_bits (replicate e.postamble_len sync_flag)))
      × ((finished e pdu).enc_bits < 8)
finished_lem e pdu =
    let body : List ℕ = all_lsb_bits (with_crc (frame_body e pdu)) in
    let post : List ℕ = all_lsb_bits (replicate e.postamble_len sync_flag) in
    let start : IsReady 0 (preamble e) = record {
      waiting = omega arith;
      byte = omega arith;
      few = omega arith;
      trailing = refl;
    } in
    let (es, we, ws) = stream-stuff_loop 0 body (preamble e) start (all_lsb_bits-IsBits _) in
    let (ep, wp, _) = stream-plain_loop post (framed e pdu) we ws (all_lsb_bits-IsBits _) in
    (
      ep
          ∙ ap (λ t. t ++ post)
              (es ∙ ap (λ t. t ++ stuff 0 body) (append-nil (frame_bits true (preamble e).out)))
          ∙ append_assoc (frame_bits true (preamble e).out) (stuff 0 body) post,
      wp,
    )

-- What is written to `ax25_pdu`, bit by bit.
pub pdu_writes-bits :
    (e : Ax25Encoder) (pdu : List ℕ)
    → (fill : ℕ) × (fill < 8)
      × (frame_bits true (pdu_writes e pdu)
          ≡ (frame_bits true (replicate e.preamble_len sync_flag)
              ++ (stuff 0 (all_lsb_bits (with_crc (frame_body e pdu)))
                  ++ all_lsb_bits (replicate e.postamble_len sync_flag)))
            ++ replicate fill 0)
unfolding pdu_writes
pdu_writes-bits e pdu =
    let (es, h) = finished_lem e pdu in
    (
      filling (finished e pdu),
      ground arith,
      frame_bits-leftover (finished e pdu) h
          ∙ ap (λ t. t ++ replicate (filling (finished e pdu)) 0) es,
    )

pub stuffed_frame-fits :
    (e : Ax25Encoder) (pdu : List ℕ)
    → length (pdu_writes e pdu) ≤ allocated e pdu
    → stuffed_frame e pdu ≡ some (pdu_writes e pdu)
unfolding stuffed_frame
stuffed_frame-fits e pdu h =
    let test : leb (length (pdu_writes e pdu)) (allocated e pdu) ≡ true = ground arith in
    rw (test, stuffed_frame)

-- If `ax25_pdu` has room for the bytes that `encode` writes to it, it is filled before scrambling
-- with, bit by bit: the flags of the preamble; the address, the control, the PID, the PDU and the
-- checksum, each byte least significant bit first, stuffed; the flags of the postamble; and fewer
-- than eight zeros up to a whole byte.
pub stuffed_frame-bits :
    (e : Ax25Encoder) (pdu : List ℕ)
    → length (pdu_writes e pdu) ≤ allocated e pdu
    → (plain : List ℕ) × (fill : ℕ) × (stuffed_frame e pdu ≡ some plain)
      × (fill < 8)
      × (frame_bits true plain
          ≡ (frame_bits true (replicate e.preamble_len sync_flag)
              ++ (stuff 0 (all_lsb_bits (with_crc (frame_body e pdu)))
                  ++ all_lsb_bits (replicate e.postamble_len sync_flag)))
            ++ replicate fill 0)
stuffed_frame-bits e pdu h =
    let (fill, small, same) = pdu_writes-bits e pdu in
    (pdu_writes e pdu, fill, stuffed_frame-fits e pdu h, small, same)

-- If `ax25_pdu` has room for the bytes that `encode` writes to it, the receiver finds the frame
-- again, whatever the PDU is: between the preamble and the postamble stand bits without six ones
-- in a row, so without a flag, and taking the zero out after each five ones leaves the bits of the
-- frame with its checksum; fewer than eight zeros follow the postamble.
pub stuffed_frame-unstuff :
    (e : Ax25Encoder) (pdu : List ℕ)
    → length (pdu_writes e pdu) ≤ allocated e pdu
    → (plain : List ℕ) × (fill : ℕ) × (sent : List ℕ) × (stuffed_frame e pdu ≡ some plain)
      × (fill < 8)
      × RunsAtMost 5 0 sent
      × (unstuff 0 sent ≡ all_lsb_bits (with_crc (frame_body e pdu)))
      × (frame_bits true plain
          ≡ (frame_bits true (replicate e.preamble_len sync_flag)
              ++ (sent ++ all_lsb_bits (replicate e.postamble_len sync_flag)))
            ++ replicate fill 0)
stuffed_frame-unstuff e pdu h =
    let (plain, fill, filled, small, same) = stuffed_frame-bits e pdu h in
    let body : List ℕ = all_lsb_bits (with_crc (frame_body e pdu)) in
    (
      plain,
      fill,
      stuff 0 body,
      filled,
      small,
      stuff-runs body,
      unstuff-stuff body (all_lsb_bits-IsBits _),
      same,
    )
