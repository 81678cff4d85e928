-- ===== src/Ax25/Encoder.antt =====
-- `class ax25_encoder` (lib/ax25_encoder.cc). A callsign is the list of its characters' bytes.
-- The buffer `tmp` is a list. `ax25_pdu` is filled from its start, byte after byte: `pdu_writes` is what
-- is written, and `stuffed_frame` the buffer, or `none` if a byte goes behind the end of the
-- `allocated` bytes, which is undefined in the code.
pub mod Stream
pub mod Rounds
pub mod Framing
pub mod Bounds
pub mod Overflow
pub mod Nrzi
mod Tests
use satnogs_gr_oot.Base.{ℕ, ◌+◌, ◌-◌, ◌*◌, ◌/◌, ◌%◌, ◌^◌, bit_and, bit_or, bit_xor, Bool, true}
use satnogs_gr_oot.Base.{◌||◌, Option, none, some, List, [], ◌∷◌, ◌++◌, map, ltb, leb, ◌==◌}
use satnogs_gr_oot.Base.{if◌then◌else◌, length, replicate}
use satnogs_gr_oot.Bytes.{msb_bits, lsb_bits, join_msb}
use satnogs_gr_oot.Whitening.{Lfsr, make_g3ruh, scramble}
use satnogs_gr_oot.Ax25.Pmt.{Pmt}
use satnogs_gr_oot.Ax25.{max_header_len, sync_flag, callsign_max_len, crc}

pub record Ax25Encoder : Type 0 where
  pub dest_addr : List ℕ
  pub dest_ssid : ℕ
  pub src_addr : List ℕ
  pub src_ssid : ℕ
  pub preamble_len : ℕ
  pub postamble_len : ℕ
  pub does_scramble : Bool
  pub does_nrzi : Bool

-- `none` is the exception `std::invalid_argument`.
unfoldable pub new : List ℕ → ℕ → List ℕ → ℕ → ℕ → ℕ → Bool → Bool → Option Ax25Encoder
new dest_addr dest_ssid src_addr src_ssid preamble_len postamble_len does_scramble does_nrzi =
    if length dest_addr == 0 || ltb callsign_max_len (length dest_addr)
    then none
    else if length src_addr == 0 || ltb callsign_max_len (length src_addr)
    then none
    else some (record {
      dest_addr = dest_addr;
      dest_ssid = dest_ssid;
      src_addr = src_addr;
      src_ssid = src_ssid;
      preamble_len = preamble_len;
      postamble_len = postamble_len;
      does_scramble = does_scramble;
      does_nrzi = does_nrzi;
    })

-- The two loops over one callsign: its characters, then spaces up to `callsign_max_len`.
unfoldable pub callsign_field : List ℕ → List ℕ
callsign_field addr =
    map (λ c. c * 2 % 2 ^ 8) addr ++ replicate (callsign_max_len - length addr) (0x20 * 2)

unfoldable pub insert_address : Ax25Encoder → List ℕ
unfolding callsign_field
insert_address e =
    callsign_field e.dest_addr
    ++ (bit_or (bit_and 0b1111 e.dest_ssid * 2) 0b01100000
        ∷ (callsign_field e.src_addr ++ (bit_or (bit_and 0b1111 e.src_ssid * 2) 0b01100001 ∷ [])))

unfoldable pub insert_ctrl : List ℕ
insert_ctrl = 0 ∷ []

unfoldable pub insert_pid : List ℕ
insert_pid = 0xf0 ∷ []

-- `tmp` up to the checksum, and with it.
unfoldable pub frame_body : Ax25Encoder → List ℕ → List ℕ
unfolding insert_address insert_ctrl insert_pid
frame_body e pdu = insert_address e ++ (insert_ctrl ++ (insert_pid ++ pdu))

unfoldable pub with_crc : List ℕ → List ℕ
with_crc body = body ++ (crc body % 2 ^ 8 ∷ crc body / 2 ^ 8 % 2 ^ 8 ∷ [])

-- The variables of the stuffing loops: `sr`, `enc_bits` and `ax25_pdu` up to `idx`.
pub record Shifter : Type 0 where
  pub sr : ℕ
  pub enc_bits : ℕ
  pub out : List ℕ

-- `sr = (sr << 1) | bit; enc_bits++;`
unfoldable pub shift_in : ℕ → Shifter → Shifter
shift_in bit s = record s {
  sr = bit_or (s.sr * 2) bit % 2 ^ 8;
  enc_bits = (s.enc_bits + 1) % 2 ^ 8;
}

-- `if (enc_bits == 8) { enc_bits = 0; ax25_pdu[idx++] = sr; }`
unfoldable pub emit : Shifter → Shifter
emit s = if s.enc_bits == 8 then record s { enc_bits = 0; out = s.out ++ (s.sr ∷ []) } else s

-- `if ((sr & 0x1F) == 0x1F) { sr = sr << 1; enc_bits++; }`
unfoldable pub stuff_zero : Shifter → Shifter
stuff_zero s =
    if bit_and s.sr 0x1f == 0x1f
    then record s { sr = s.sr * 2 % 2 ^ 8; enc_bits = (s.enc_bits + 1) % 2 ^ 8 }
    else s

-- The body of the loop over the frame's bits, and the loop.
unfoldable pub stuff_bit : ℕ → Shifter → Shifter
stuff_bit bit s = emit (stuff_zero (emit (shift_in bit s)))

unfoldable pub stuff_loop : List ℕ → Shifter → Shifter
stuff_loop [] s = s
stuff_loop (bit ∷ bits) s = stuff_loop bits (stuff_bit bit s)

-- The body of the loop over the bits of the postamble, and the loop.
unfoldable pub plain_loop : List ℕ → Shifter → Shifter
plain_loop [] s = s
plain_loop (bit ∷ bits) s = plain_loop bits (emit (shift_in bit s))

-- `if (enc_bits) ax25_pdu[idx++] = sr << (8 - enc_bits);`
unfoldable pub leftover : Shifter → List ℕ
leftover s = if s.enc_bits == 0 then s.out else s.out ++ (s.sr * 2 ^ (8 - s.enc_bits) % 2 ^ 8 ∷ [])

-- `(tmp[i / 8] >> (i % 8)) & 0x1` for each `i` in order.
unfoldable pub all_lsb_bits : List ℕ → List ℕ
all_lsb_bits [] = []
all_lsb_bits (x ∷ xs) = lsb_bits x ++ all_lsb_bits xs

-- The bytes written to `ax25_pdu` before scrambling, in the order of their places.
unfoldable pub pdu_writes : Ax25Encoder → List ℕ → List ℕ
unfolding stuff_loop stuff_bit shift_in emit stuff_zero plain_loop leftover all_lsb_bits with_crc
    frame_body
pdu_writes e pdu = leftover (
    plain_loop (all_lsb_bits (replicate e.postamble_len sync_flag)) (
      stuff_loop (all_lsb_bits (with_crc (frame_body e pdu)))
        (record { sr = 0; enc_bits = 0; out = replicate e.preamble_len sync_flag })))

-- The size of `ax25_pdu`.
unfoldable pub allocated : Ax25Encoder → List ℕ → ℕ
allocated e pdu =
    e.preamble_len + e.postamble_len + length pdu + length pdu / 8 + max_header_len + 4

-- `ax25_pdu[0 .. idx)` before scrambling; `none` is a write behind its end.
unfoldable pub stuffed_frame : Ax25Encoder → List ℕ → Option (List ℕ)
unfolding pdu_writes allocated
stuffed_frame e pdu =
    if leb (length (pdu_writes e pdu)) (allocated e pdu) then some (pdu_writes e pdu) else none

-- `prev = bit ^ prev` for the bits in order: the values of `prev`.
unfoldable pub nrzi_run : ℕ → List ℕ → List ℕ × ℕ
nrzi_run prev [] = ([], prev)
nrzi_run prev (bit ∷ bits) =
    let p = bit_xor bit prev in let (ps, last) = nrzi_run p bits in (p ∷ ps, last)

-- `prev << 7`, then `(prev & 0x1) << 6` and so on.
unfoldable pub mask_bits : List ℕ → List ℕ
mask_bits [] = []
mask_bits (p ∷ ps) = p ∷ map (λ q. bit_and q 1) ps

-- The loop over the bytes; `~` of a `uint8_t` is its complement to 0xff.
unfoldable pub nrzi_loop : ℕ → List ℕ → List ℕ
unfolding nrzi_run mask_bits
nrzi_loop prev [] = []
nrzi_loop prev (x ∷ xs) =
    let (ps, last) = nrzi_run prev (msb_bits (0xff - x)) in
    join_msb (mask_bits ps) ∷ nrzi_loop last xs

-- How `encode` ends: with the octets of the message returned, with the exception
-- `std::runtime_error`, or with a write behind the end of `ax25_pdu`.
pub data Encoded : Type 0 where
  message : List ℕ → Encoded
  malformed overrun : Encoded

module _ (lfsr : Lfsr) where
  -- `encode` from `ax25_pdu` on, which is scrambled and coded in its place.
  unfoldable pub line_coded : Ax25Encoder → List ℕ → List ℕ
  unfolding nrzi_loop
  line_coded e plain =
      let scrambled =
        if e.does_scramble then (scramble lfsr (make_g3ruh lfsr true) plain).0 else plain in
      if e.does_nrzi then nrzi_loop 0 scrambled else scrambled

  -- `encode` from the octets of the message on.
  unfoldable pub encode_pdu : Ax25Encoder → List ℕ → Encoded
  unfolding stuffed_frame line_coded
  encode_pdu e pdu = elim (stuffed_frame e pdu) [
    | some plain ↦ message (line_coded e plain)
    | none ↦ overrun
  ]

  unfoldable pub encode : (pmt : Pmt) → Ax25Encoder → pmt.Message → Encoded
  unfolding encode_pdu
  encode pmt e msg =
      if pmt.is_blob msg
      then encode_pdu e (pmt.uniform_vector_elements msg)
      else if pmt.is_pair msg
      then encode_pdu e (pmt.uniform_vector_elements (pmt.cdr msg))
      else malformed
