-- ===== src/Ax25/RoundTrip/Sent.antt =====
-- What `ax25_encoder` sends, in the terms of the decoder: bytes, a first byte that is a shifted
-- character, flags.
use satnogs_gr_oot.Base.{◌&&◌, ℕ, zero, suc, ◌-◌, ◌*◌, ◌/◌, ◌%◌, ◌^◌, ◌<◌, bit_and, and_by_digits}
use satnogs_gr_oot.Base.{zero_and, bit_or, ◌≡◌, ◌≢◌, refl, ap, true, List, [], ◌∷◌, ◌++◌, map}
use satnogs_gr_oot.Base.{arith, length, get_or, replicate, IsBytes, All-append, all_below}
use satnogs_gr_oot.Base.{all_below_lem, ltb}
use satnogs_gr_oot.Whitening.Laws.{frame_bits}
use satnogs_gr_oot.Ax25.{sync_flag, crc}
use satnogs_gr_oot.Ax25.Encoder.{Ax25Encoder, Shifter, callsign_field, insert_address, insert_ctrl}
use satnogs_gr_oot.Ax25.Encoder.{insert_pid, frame_body, with_crc, shift_in, emit, stuff_zero}
use satnogs_gr_oot.Ax25.Encoder.{stuff_bit, stuff_loop, plain_loop, leftover, all_lsb_bits}
use satnogs_gr_oot.Ax25.Encoder.{pdu_writes}
use satnogs_gr_oot.Ax25.RoundTrip.Closing.{flag_bits}
use satnogs_gr_oot.Ax25.RoundTrip.Sync.{flags}

-- The flags of the preamble and of the postamble.
pub frame_bits-flags : (m : ℕ) → frame_bits true (replicate m sync_flag) ≡ flags m
frame_bits-flags zero = refl
frame_bits-flags (suc m) = ap (λ t. flag_bits ++ t) (frame_bits-flags m)

pub all_lsb_bits-flags : (m : ℕ) → all_lsb_bits (replicate m sync_flag) ≡ flags m
unfolding all_lsb_bits
all_lsb_bits-flags zero = refl
all_lsb_bits-flags (suc m) = ap (λ t. flag_bits ++ t) (all_lsb_bits-flags m)

IsBytes-replicate : (n x : ℕ) → x < 2 ^ 8 → IsBytes (replicate n x)
IsBytes-replicate zero x h = tt
IsBytes-replicate (suc n) x h = (h, IsBytes-replicate n x h)

IsBytes-shifted : (addr : List ℕ) → IsBytes (map (λ c. c * 2 % 2 ^ 8) addr)
IsBytes-shifted [] = tt
IsBytes-shifted (c ∷ addr) = (omega arith, IsBytes-shifted addr)

IsBytes-append : (xs ys : List ℕ) → IsBytes xs → IsBytes ys → IsBytes (xs ++ ys)
IsBytes-append xs ys h k = All-append (λ d. d < 2 ^ 8) xs ys h k

IsBytes-callsign_field : (addr : List ℕ) → IsBytes (callsign_field addr)
unfolding callsign_field
IsBytes-callsign_field addr =
    IsBytes-append (map (λ c. c * 2 % 2 ^ 8) addr) (replicate (6 - length addr) (0x20 * 2))
      (IsBytes-shifted addr) (IsBytes-replicate (6 - length addr) (0x20 * 2) (omega arith))

ssid_range :
    all_below 16 (λ n. ltb (bit_or (n * 2) 0b01100000) 256 && ltb (bit_or (n * 2) 0b01100001) 256)
    ≡ true
unfolding all_below
ssid_range = refl

ssid-lt :
    (ssid : ℕ)
    → (bit_or (bit_and 0b1111 ssid * 2) 0b01100000 < 2 ^ 8)
      × (bit_or (bit_and 0b1111 ssid * 2) 0b01100001 < 2 ^ 8)
ssid-lt ssid =
    let n : bit_and 0b1111 ssid < 16 = omega (
      arith,
      and_by_digits 15 ssid,
      and_by_digits 7 (ssid / 2),
      and_by_digits 3 (ssid / 2 / 2),
      and_by_digits 1 (ssid / 2 / 2 / 2),
      zero_and (ssid / 2 / 2 / 2 / 2),
    ) in
    ground (
      arith,
      all_below_lem 16
          (λ n. ltb (bit_or (n * 2) 0b01100000) 256 && ltb (bit_or (n * 2) 0b01100001) 256)
          (bit_and 0b1111 ssid) ssid_range n,
    )

pub IsBytes-frame_body : (e : Ax25Encoder) (pdu : List ℕ) → IsBytes pdu → IsBytes (frame_body e pdu)
unfolding frame_body insert_address insert_ctrl insert_pid
IsBytes-frame_body e pdu h =
    IsBytes-append (insert_address e) (0 ∷ 0xf0 ∷ pdu)
      (IsBytes-append (callsign_field e.dest_addr) _ (IsBytes-callsign_field e.dest_addr) (
        (ssid-lt e.dest_ssid).0,
        IsBytes-append (callsign_field e.src_addr) _ (IsBytes-callsign_field e.src_addr)
            ((ssid-lt e.src_ssid).1, tt),
      ))
      (omega arith, (omega arith, h))

pub IsBytes-with_crc : (body : List ℕ) → IsBytes body → IsBytes (with_crc body)
unfolding with_crc
IsBytes-with_crc body h =
    IsBytes-append body (crc body % 2 ^ 8 ∷ crc body / 2 ^ 8 % 2 ^ 8 ∷ []) h
      (omega arith, (omega arith, tt))

-- The first byte of a callsign field.
pub record FirstChar (addr rest : List ℕ) (head : ℕ) : Type 0 where
  pub field : callsign_field addr ≡ head ∷ rest
  pub even : head % 2 ≡ 0
  pub low : head % 64 ≢ 62

first_char :
    (addr : List ℕ)
    → get_or addr 0 0x20 % 32 ≢ 31
    → (head : ℕ) × (rest : List ℕ) × FirstChar addr rest head
unfolding callsign_field
first_char [] h = (0x40, replicate 5 0x40, record { field = refl; even = refl; low = omega arith })
first_char (c ∷ addr) h = (
  c * 2 % 2 ^ 8,
  map (λ c. c * 2 % 2 ^ 8) addr ++ replicate (6 - suc (length addr)) 0x40,
  record { field = refl; even = omega arith; low = omega arith },
)

pub first_byte :
    (e : Ax25Encoder) (pdu : List ℕ)
    → get_or e.dest_addr 0 0x20 % 32 ≢ 31
    → (x : ℕ) × (xs : List ℕ) × (with_crc (frame_body e pdu) ≡ x ∷ xs) × (x % 2 ≡ 0) × (x % 64 ≢ 62)
unfolding with_crc frame_body insert_address
first_byte e pdu h =
    let (x, rest, first) = first_char e.dest_addr h in
    let body : List ℕ = frame_body e pdu in
    let lo : ℕ = crc body % 2 ^ 8 in
    let hi : ℕ = crc body / 2 ^ 8 % 2 ^ 8 in
    let ssid : ℕ = bit_or (bit_and 0b1111 e.dest_ssid * 2) 0b01100000 in
    let source : List ℕ =
      callsign_field e.src_addr ++ (bit_or (bit_and 0b1111 e.src_ssid * 2) 0b01100001 ∷ []) in
    (
      x,
      ((rest ++ (ssid ∷ source)) ++ (insert_ctrl ++ (insert_pid ++ pdu))) ++ (lo ∷ hi ∷ []),
      ap (λ t. ((t ++ (ssid ∷ source)) ++ (insert_ctrl ++ (insert_pid ++ pdu))) ++ (lo ∷ hi ∷ []))
          first.field,
      first.even,
      first.low,
    )

-- The bytes written so far, and the register.
abbrev AreBytes : Shifter → Type 0
AreBytes s = (s.sr < 2 ^ 8) × IsBytes s.out

shift_in-AreBytes : (b : ℕ) (s : Shifter) → AreBytes s → AreBytes (shift_in b s)
unfolding shift_in
shift_in-AreBytes b s (h, k) = (omega arith, k)

emit-AreBytes : (s : Shifter) → AreBytes s → AreBytes (emit s)
unfolding emit
emit-AreBytes s (h, k) =
    let more : IsBytes (s.out ++ (s.sr ∷ [])) = IsBytes-append s.out (s.sr ∷ []) k (h, tt) in
    ground (arith, more)

stuff_zero-AreBytes : (s : Shifter) → AreBytes s → AreBytes (stuff_zero s)
unfolding stuff_zero
stuff_zero-AreBytes s (h, k) = ground arith

stuff_loop-AreBytes : (bits : List ℕ) (s : Shifter) → AreBytes s → AreBytes (stuff_loop bits s)
unfolding stuff_loop stuff_bit
stuff_loop-AreBytes [] s h = h
stuff_loop-AreBytes (b ∷ bits) s h =
    stuff_loop-AreBytes bits (stuff_bit b s)
      (emit-AreBytes _ (stuff_zero-AreBytes _ (emit-AreBytes _ (shift_in-AreBytes b s h))))

plain_loop-AreBytes : (bits : List ℕ) (s : Shifter) → AreBytes s → AreBytes (plain_loop bits s)
unfolding plain_loop
plain_loop-AreBytes [] s h = h
plain_loop-AreBytes (b ∷ bits) s h =
    plain_loop-AreBytes bits (emit (shift_in b s)) (emit-AreBytes _ (shift_in-AreBytes b s h))

leftover-AreBytes : (s : Shifter) → AreBytes s → IsBytes (leftover s)
unfolding leftover
leftover-AreBytes s (h, k) =
    let last : ℕ = s.sr * 2 ^ (8 - s.enc_bits) % 2 ^ 8 in
    let more : IsBytes (s.out ++ (last ∷ [])) =
      IsBytes-append s.out (last ∷ []) k (omega arith, tt) in
    ground (arith, more)

pub IsBytes-pdu_writes : (e : Ax25Encoder) (pdu : List ℕ) → IsBytes (pdu_writes e pdu)
unfolding pdu_writes
IsBytes-pdu_writes e pdu = leftover-AreBytes _ (
    plain_loop-AreBytes (all_lsb_bits (replicate e.postamble_len sync_flag)) _ (
      stuff_loop-AreBytes (all_lsb_bits (with_crc (frame_body e pdu)))
        (record { sr = 0; enc_bits = 0; out = replicate e.preamble_len sync_flag })
        (omega arith, IsBytes-replicate e.preamble_len sync_flag (omega arith))))
