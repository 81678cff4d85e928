-- ===== src/Ax25/Encoder/Bounds.antt =====
-- How much of `ax25_pdu` the encoder writes, against the size that it was given.
use satnogs_gr_oot.Base.{ℕ, ◌+◌, ◌-◌, ◌*◌, ◌%◌, ◌^◌, ◌≤◌, ◌<◌, bit_and, bit_or, ◌≡◌, refl, ap, Bool}
use satnogs_gr_oot.Base.{true, some, List, [], ◌∷◌, ◌++◌, map, arith, length, replicate}
use satnogs_gr_oot.Base.{length-append, length-replicate, length-map}
use satnogs_gr_oot.Whitening.Laws.{frame_bits}
use satnogs_gr_oot.Ax25.Stuffing.{stuff, length-stuff}
use satnogs_gr_oot.Ax25.{sync_flag, callsign_max_len}
use satnogs_gr_oot.Ax25.Encoder.{
  insert_pid, insert_ctrl, all_lsb_bits, stuffed_frame, pdu_writes, Ax25Encoder,
}
use satnogs_gr_oot.Ax25.Encoder.{with_crc, frame_body, callsign_field, insert_address, allocated}
use satnogs_gr_oot.Ax25.Encoder.{new}
use satnogs_gr_oot.Ax25.Encoder.Framing.{stuffed_frame-fits, pdu_writes-bits}

-- What the constructor guarantees of the callsigns.
pub record HasCallsigns (e : Ax25Encoder) : Type 0 where
  pub dest : length e.dest_addr ≤ callsign_max_len
  pub src : length e.src_addr ≤ callsign_max_len

-- Every encoder that the constructor lets through has callsigns that fit their fields.
pub new-HasCallsigns :
    (dest : List ℕ) (dest_ssid : ℕ) (src : List ℕ) (src_ssid pre post : ℕ) (scr nrz : Bool)
    {e : Ax25Encoder}
    → new dest dest_ssid src src_ssid pre post scr nrz ≡ some e
    → HasCallsigns e
unfolding new
new-HasCallsigns dest dest_ssid src src_ssid pre post scr nrz h = ground arith

length-frame_bits : (xs : List ℕ) → length (frame_bits true xs) ≡ 8 * length xs
length-frame_bits [] = refl
length-frame_bits (x ∷ xs) = omega (arith, length-frame_bits xs)

pub length-all_lsb_bits : (xs : List ℕ) → length (all_lsb_bits xs) ≡ 8 * length xs
unfolding all_lsb_bits
length-all_lsb_bits [] = refl
length-all_lsb_bits (x ∷ xs) = omega (arith, length-all_lsb_bits xs)

length-callsign_field :
    (addr : List ℕ) → length addr ≤ callsign_max_len → length (callsign_field addr) ≡ 6
unfolding callsign_field
length-callsign_field addr h = omega (
  arith,
  length-append (map (λ c. c * 2 % 2 ^ 8) addr) (replicate (6 - length addr) 64),
  length-map addr (λ c. c * 2 % 2 ^ 8),
  length-replicate {A = ℕ} (6 - length addr) 64,
)

-- `insert_address` writes the 14 octets that it returns as their number.
pub length-insert_address : (e : Ax25Encoder) → HasCallsigns e → length (insert_address e) ≡ 14
unfolding insert_address
length-insert_address e h = omega (
  arith,
  length-append (callsign_field e.dest_addr) (
      bit_or (bit_and 0b1111 e.dest_ssid * 2) 0b01100000
      ∷ (callsign_field e.src_addr ++ (bit_or (bit_and 0b1111 e.src_ssid * 2) 0b01100001 ∷ []))),
  length-append (callsign_field e.src_addr)
      (bit_or (bit_and 0b1111 e.src_ssid * 2) 0b01100001 ∷ []),
  length-callsign_field e.dest_addr h.dest,
  length-callsign_field e.src_addr h.src,
)

pub length-body :
    (e : Ax25Encoder) (pdu : List ℕ) → HasCallsigns e → length (frame_body e pdu) ≡ 16 + length pdu
unfolding frame_body insert_ctrl insert_pid
length-body e pdu h =
    omega (arith, length-append (insert_address e) (0 ∷ 0xf0 ∷ pdu), length-insert_address e h)

pub length-with_crc : (body : List ℕ) → length (with_crc body) ≡ length body + 2
unfolding with_crc
length-with_crc body = length-append body _

abbrev pub stuffed_bits : Ax25Encoder → List ℕ → List ℕ
stuffed_bits e pdu = stuff 0 (all_lsb_bits (with_crc (frame_body e pdu)))

-- Eight times the bytes written.
pub length-pdu_writes :
    (e : Ax25Encoder) (pdu : List ℕ)
    → (fill : ℕ) × (fill < 8)
      × (8 * length (pdu_writes e pdu)
          ≡ 8 * e.preamble_len + length (stuffed_bits e pdu) + 8 * e.postamble_len + fill)
length-pdu_writes e pdu =
    let (fill, h, eq) = pdu_writes-bits e pdu in
    let pre : List ℕ = frame_bits true (replicate e.preamble_len sync_flag) in
    let post : List ℕ = all_lsb_bits (replicate e.postamble_len sync_flag) in
    (
      fill,
      h,
      omega (
        arith,
        length-frame_bits (pdu_writes e pdu),
        ap length eq,
        length-append (pre ++ (stuffed_bits e pdu ++ post)) (replicate fill 0),
        length-append pre (stuffed_bits e pdu ++ post),
        length-append (stuffed_bits e pdu) post,
        length-frame_bits (replicate e.preamble_len sync_flag),
        length-all_lsb_bits (replicate e.postamble_len sync_flag),
        length-replicate e.preamble_len sync_flag,
        length-replicate e.postamble_len sync_flag,
        length-replicate {A = ℕ} fill 0,
      ),
    )

pdu_writes-le-allocated :
    (e : Ax25Encoder) (pdu : List ℕ)
    → HasCallsigns e
    → length pdu ≤ 720
    → length (pdu_writes e pdu) ≤ allocated e pdu
unfolding allocated
pdu_writes-le-allocated e pdu h small =
    let (fill, hf, eq) = length-pdu_writes e pdu in
    omega (
      arith,
      length-stuff (all_lsb_bits (with_crc (frame_body e pdu))),
      length-all_lsb_bits (with_crc (frame_body e pdu)),
      length-with_crc (frame_body e pdu),
      length-body e pdu h,
    )

-- Up to 720 octets of PDU, whatever they are, the encoder stays inside `ax25_pdu`, with callsigns
-- that fit.
pub stuffed_frame-le-allocated :
    (e : Ax25Encoder) (pdu : List ℕ)
    → HasCallsigns e
    → length pdu ≤ 720
    → (length (pdu_writes e pdu) ≤ allocated e pdu)
      × (stuffed_frame e pdu ≡ some (pdu_writes e pdu))
stuffed_frame-le-allocated e pdu h small =
    let inside = pdu_writes-le-allocated e pdu h small in (inside, stuffed_frame-fits e pdu inside)
