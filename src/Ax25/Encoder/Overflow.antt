-- ===== src/Ax25/Encoder/Overflow.antt =====
-- The octets that need the most stuffing, and the size of `ax25_pdu`.
use satnogs_gr_oot.Base.{
  false, ℕ, zero, suc, ◌+◌, ◌*◌, ◌/◌, ◌%◌, ◌^◌, ◌≤◌, ◌<◌, ◌≡◌, refl, sym, ap, ◌∙◌,
}
use satnogs_gr_oot.Base.{inl, inr, List, [], ◌∷◌, ◌++◌, append-nil, append_assoc, arith, ◌==◌}
use satnogs_gr_oot.Base.{Bool-cases, length, replicate, length-append, length-replicate}
use satnogs_gr_oot.Bytes.{lsb_bits}
use satnogs_gr_oot.Ax25.Stuffing.{stuff}
use satnogs_gr_oot.Ax25.{crc}
use satnogs_gr_oot.Ax25.Encoder.{
  leb, none, all_lsb_bits, stuffed_frame, pdu_writes, Ax25Encoder, with_crc, frame_body,
}
use satnogs_gr_oot.Ax25.Encoder.{insert_address, insert_ctrl, insert_pid, allocated}
use satnogs_gr_oot.Ax25.Encoder.Bounds.{HasCallsigns, length-insert_address, length-all_lsb_bits}
use satnogs_gr_oot.Ax25.Encoder.Bounds.{length-pdu_writes}

-- What stands before a part of a stream gives the part some number of ones to start from.
stuff-part :
    (ones : ℕ) (xs ys : List ℕ)
    → ones < 5
    → (start : ℕ) × (start < 5)
      × (length xs + length (stuff start ys) ≤ length (stuff ones (xs ++ ys)))
unfolding stuff
stuff-part ones [] ys h = (ones, h, omega arith)
stuff-part ones (zero ∷ xs) ys h =
    let (start, hs, le) = stuff-part 0 xs ys (omega arith) in (start, hs, omega arith)
stuff-part ones (suc b ∷ xs) ys h = elim (Bool-cases (ones == 4)) [
  | inl e ↦ let (start, hs, le) = stuff-part 0 xs ys (omega arith) in rw e (start, hs, omega arith)
  | inr e ↦
      let (start, hs, le) = stuff-part (ones + 1) xs ys (ground arith) in
      rw e (start, hs, omega arith)
]

-- Ones are stuffed one in five.
stuff-ones :
    (ones m : ℕ) (rest : List ℕ)
    → ones < 5
    → 6 * m + 5 * length rest + ones ≤ 5 * length (stuff ones (replicate m 1 ++ rest)) + 4
unfolding stuff
stuff-ones ones zero rest h =
    let (start, hs, le) = stuff-part ones rest [] h in
    omega (arith, le, ap (λ t. length (stuff ones t)) (append-nil rest))
stuff-ones ones (suc m) rest h = elim (Bool-cases (ones == 4)) [
  | inl e ↦ rw e (ground (arith, stuff-ones 0 m rest (omega arith)))
  | inr e ↦ rw e (ground (arith, stuff-ones (ones + 1) m rest (ground arith)))
]

all_lsb_bits-append :
    (xs ys : List ℕ) → all_lsb_bits (xs ++ ys) ≡ all_lsb_bits xs ++ all_lsb_bits ys
unfolding all_lsb_bits
all_lsb_bits-append [] ys = refl
all_lsb_bits-append (x ∷ xs) ys =
    ap (λ t. lsb_bits x ++ t) (all_lsb_bits-append xs ys)
    ∙ sym (append_assoc (lsb_bits x) (all_lsb_bits xs) (all_lsb_bits ys))

all_ones : (n : ℕ) → all_lsb_bits (replicate n 0xff) ≡ replicate (8 * n) 1
unfolding all_lsb_bits
all_ones zero = refl
all_ones (suc n) =
    ap (λ t. lsb_bits 0xff ++ t) (all_ones n)
    ∙ ap (λ k. replicate k 1)
        (let e : suc (suc (suc (suc (suc (suc (suc (suc (8 * n)))))))) ≡ 8 * suc n = omega arith in
          e)

-- The bits of a frame whose PDU is all ones: what stands before it, the ones, the checksum.
abbrev ones_pdu : ℕ → List ℕ
ones_pdu n = replicate n 0xff

frame_of_ones :
    (e : Ax25Encoder) (n : ℕ)
    → HasCallsigns e
    → (before rest : List ℕ) × (length before ≡ 128)
      × (length rest ≡ 16)
      × (all_lsb_bits (with_crc (frame_body e (ones_pdu n)))
          ≡ before ++ (replicate (8 * n) 1 ++ rest))
unfolding with_crc frame_body insert_ctrl insert_pid
frame_of_ones e n h =
    let head : List ℕ = insert_address e ++ (0 ∷ 0xf0 ∷ []) in
    let c : ℕ = crc (insert_address e ++ (0 ∷ 0xf0 ∷ ones_pdu n)) in
    let check : List ℕ = c % 2 ^ 8 ∷ c / 2 ^ 8 % 2 ^ 8 ∷ [] in
    (
      all_lsb_bits head,
      all_lsb_bits check,
      omega (
        arith,
        length-all_lsb_bits head,
        length-append (insert_address e) (0 ∷ 0xf0 ∷ []),
        length-insert_address e h,
      ),
      length-all_lsb_bits check,
      ap all_lsb_bits (
            append_assoc (insert_address e) (0 ∷ 0xf0 ∷ ones_pdu n) check
            ∙ sym (append_assoc (insert_address e) (0 ∷ 0xf0 ∷ []) (ones_pdu n ++ check)))
          ∙ all_lsb_bits-append head (ones_pdu n ++ check)
          ∙ ap (λ t. all_lsb_bits head ++ t)
              (all_lsb_bits-append (ones_pdu n) check
                ∙ ap (λ t. t ++ all_lsb_bits check) (all_ones n)),
    )

writes_overflow :
    (e : Ax25Encoder) (n : ℕ)
    → HasCallsigns e
    → 800 ≤ n
    → allocated e (replicate n 0xff) < length (pdu_writes e (replicate n 0xff))
unfolding allocated
writes_overflow e n h large =
    let (before, rest, lb, lr, eq) = frame_of_ones e n h in
    let (start, hs, le) = stuff-part 0 before (replicate (8 * n) 1 ++ rest) (omega arith) in
    let (fill, hf, total) = length-pdu_writes e (ones_pdu n) in
    omega (
      arith,
      ap (λ t. length (stuff 0 t)) eq,
      stuff-ones start (8 * n) rest hs,
      length-replicate {A = ℕ} n 0xff,
    )

-- A PDU of 800 or more octets 0xFF is stuffed so much that the encoder writes behind the end of
-- `ax25_pdu`, whatever its preamble and postamble are, with callsigns that fit.
pub stuffed_frame_overflow :
    (e : Ax25Encoder) (n : ℕ)
    → HasCallsigns e
    → 800 ≤ n
    → (allocated e (replicate n 0xff) < length (pdu_writes e (replicate n 0xff)))
      × (stuffed_frame e (replicate n 0xff) ≡ none)
unfolding stuffed_frame
stuffed_frame_overflow e n h large =
    let far = writes_overflow e n h large in
    let test : leb (length (pdu_writes e (replicate n 0xff))) (allocated e (replicate n 0xff))
        ≡ false =
      ground arith in
    (far, rw (test, stuffed_frame))
