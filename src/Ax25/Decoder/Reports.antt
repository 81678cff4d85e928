-- ===== src/Ax25/Decoder/Reports.antt =====
-- `enter_frame_end`: which frames an `ax25_decoder` reports.
use satnogs_gr_oot.Base.{Option-cases, ◌^◌, length-set, ap, length, subst, length-take, ◌∙◌, ◌-◌}
use satnogs_gr_oot.Base.{take, ℕ, zero, suc, ◌+◌, ◌≤◌, ◌<◌, ◌≡◌, refl, true, false, inl, inr, ◌⊎◌}
use satnogs_gr_oot.Base.{Bool-cases, Option, none, some, List, arith, ltb, if◌then◌else◌}
use satnogs_gr_oot.Ax25.{min_addr_len}
use satnogs_gr_oot.Ax25.Decoder.{get_or, bit_xor, Config, Decoder, Frame, is_frame_valid, toggled}
use satnogs_gr_oot.Ax25.Decoder.{correct_byte, correct_from, error_correction, enter_frame_end}
use satnogs_gr_oot.Ax25.Decoder.{frame_of}

-- A buffer with one bit of its first `received` bytes toggled that has a right checksum.
abbrev pub Repaired : ℕ → List ℕ → List ℕ → Type 0
Repaired received buffer t =
    (is_frame_valid received t ≡ true)
    × ((i : ℕ) × (k : ℕ) × (i < received) × (k < 8) × (t ≡ toggled buffer i k))

correct_byte-Repaired :
    (left i received : ℕ) (buffer t : List ℕ)
    → left ≤ 8
    → i < received
    → correct_byte left i received buffer ≡ some t
    → Repaired received buffer t
unfolding correct_byte
correct_byte-Repaired zero i received buffer t le lt h = cc
correct_byte-Repaired (suc left) i received buffer t le lt h =
    elim (Bool-cases (is_frame_valid received (toggled buffer i (7 - left)))) [
      | inl e ↦
          let same : toggled buffer i (7 - left) ≡ t = cc (h, e) in
          (cc, (i, 7 - left, lt, omega arith, cc))
      | inr e ↦ correct_byte-Repaired left i received buffer t (omega arith) lt cc
    ]

correct_from-Repaired :
    (left received : ℕ) (buffer t : List ℕ)
    → left ≤ received
    → correct_from left received buffer ≡ some t
    → Repaired received buffer t
unfolding correct_from
correct_from-Repaired zero received buffer t le h = cc
correct_from-Repaired (suc left) received buffer t le h =
    elim (Option-cases (correct_byte 8 (received - suc left) received buffer)) [
      | inl e ↦ correct_from-Repaired left received buffer t (omega arith) cc
      | inr (u, e) ↦
          correct_byte-Repaired 8 (received - suc left) received buffer t (omega arith)
            (omega arith) cc
    ]

-- A frame whose bytes are the first of a buffer of `received` bytes, the checksum left off.
abbrev pub Taken : Decoder → List ℕ → Frame → Type 0
Taken d buffer f =
    (f.pdu ≡ take (d.received_bytes - 2) buffer)
    × (f.sample_start ≡ d.frame_start)
    × (f.sample_cnt ≡ d.sample_cnt)

-- What a reported frame is: valid as it was received, repaired in one bit, or, without the check,
-- invalid.
abbrev pub Reported : Config → Decoder → Frame → Type 0
Reported c d f =
    ((f.crc_valid ≡ true)
      × (is_frame_valid d.received_bytes d.frame_buffer ≡ true)
      × Taken d d.frame_buffer f)
    ⊎ ((f.crc_valid ≡ true)
        × (c.does_error_correction ≡ true)
        × (is_frame_valid d.received_bytes d.frame_buffer ≡ false)
        × ((t : List ℕ) × Repaired d.received_bytes d.frame_buffer t × Taken d t f))
    ⊎ ((f.crc_valid ≡ false)
        × (c.crc_check ≡ false)
        × (is_frame_valid d.received_bytes d.frame_buffer ≡ false)
        × Taken d d.frame_buffer f)

abbrev pub AllReported : Config → Decoder → Option Frame → Type 0
AllReported c d none = Unit
AllReported c d (some f) = (min_addr_len + 2 ≤ d.received_bytes) × Reported c d f

given_up-AllReported :
    (c : Config) (d : Decoder)
    → min_addr_len + 2 ≤ d.received_bytes
    → is_frame_valid d.received_bytes d.frame_buffer ≡ false
    → AllReported c d (if c.crc_check then none else some (frame_of d d.frame_buffer false))
given_up-AllReported c d long bad = elim (Bool-cases c.crc_check) [
  | inl on ↦ rw on tt
  | inr off ↦ rw off (long, inr (inr (refl, refl, bad, (refl, refl, refl))))
]

corrected-AllReported :
    (c : Config) (d : Decoder) (t : List ℕ)
    → min_addr_len + 2 ≤ d.received_bytes
    → is_frame_valid d.received_bytes d.frame_buffer ≡ false
    → error_correction c d.received_bytes d.frame_buffer ≡ some t
    → AllReported c d (some (frame_of d t true))
unfolding error_correction
corrected-AllReported c d t long bad e = elim (Bool-cases c.does_error_correction) [
  | inl on ↦
      let found : correct_from d.received_bytes d.received_bytes d.frame_buffer ≡ some t = cc in
      let fix =
        correct_from-Repaired d.received_bytes d.received_bytes d.frame_buffer t (omega arith)
          found in
      (long, inr (inl (refl, on, bad, (t, fix, (refl, refl, refl)))))
  | inr off ↦ cc
]

enter_frame_end-AllReported : (c : Config) (d : Decoder) → AllReported c d (enter_frame_end c d).1
unfolding enter_frame_end
enter_frame_end-AllReported c d = elim (Bool-cases (ltb d.received_bytes (min_addr_len + 2))) [
  | inl e ↦ rw (e, enter_frame_end) tt
  | inr e ↦
      let long : min_addr_len + 2 ≤ d.received_bytes = ground arith in
      elim (Bool-cases (is_frame_valid d.received_bytes d.frame_buffer)) [
        | inl good ↦ rw (e, good, enter_frame_end) (long, inl (refl, good, (refl, refl, refl)))
        | inr bad ↦ elim (Option-cases (error_correction c d.received_bytes d.frame_buffer)) [
          | inl fails ↦ rw (e, bad, fails, enter_frame_end) (given_up-AllReported c d long bad)
          | inr (t, finds) ↦
              rw (e, bad, finds, enter_frame_end) (corrected-AllReported c d t long bad finds)
        ]
      ]
]

-- What holds of every frame that a decoder reports.
pub record Sound (c : Config) (f : Frame) : Type 0 where
  pub shortest : min_addr_len ≤ length f.pdu
  pub longest : length f.pdu + 1 ≤ c.max_frame_len
  pub checked : (c.crc_check ≡ false) ⊎ (f.crc_valid ≡ true)

abbrev pub AllSound : Config → Option Frame → Type 0
AllSound c none = Unit
AllSound c (some f) = Sound c f

length-Taken :
    (d : Decoder) (buffer : List ℕ) (f : Frame)
    → d.received_bytes ≤ length buffer
    → Taken d buffer f
    → length f.pdu ≡ d.received_bytes - 2
length-Taken d buffer f le (same, start, count) =
    ap length same ∙ length-take (d.received_bytes - 2) buffer (omega arith)

length-Repaired :
    (received : ℕ) (buffer t : List ℕ) → Repaired received buffer t → length t ≡ length buffer
unfolding toggled
length-Repaired received buffer t (good, (i, k, lt, lt8, same)) =
    ap length same ∙ length-set buffer i (bit_xor (get_or buffer i 0) (2 ^ k))

Reported-Sound :
    (c : Config) (d : Decoder) (f : Frame)
    → d.received_bytes ≤ length d.frame_buffer
    → d.received_bytes ≤ c.max_frame_len + 1
    → min_addr_len + 2 ≤ d.received_bytes
    → Reported c d f
    → Sound c f
Reported-Sound c d f room le long (inl (valid, good, taken)) =
    let e = length-Taken d d.frame_buffer f room taken in
    record { shortest = omega arith; longest = omega arith; checked = inr valid }
Reported-Sound c d f room le long (inr (inl (valid, on, bad, (t, fix, taken)))) =
    let size = length-Repaired d.received_bytes d.frame_buffer t fix in
    let e = length-Taken d t f (omega arith) taken in
    record { shortest = omega arith; longest = omega arith; checked = inr valid }
Reported-Sound c d f room le long (inr (inr (invalid, off, bad, taken))) =
    let e = length-Taken d d.frame_buffer f room taken in
    record { shortest = omega arith; longest = omega arith; checked = inl off }

AllReported-AllSound :
    (c : Config) (d : Decoder) (o : Option Frame)
    → d.received_bytes ≤ length d.frame_buffer
    → d.received_bytes ≤ c.max_frame_len + 1
    → AllReported c d o
    → AllSound c o
AllReported-AllSound c d none room le h = tt
AllReported-AllSound c d (some f) room le (long, h) = Reported-Sound c d f room le long h

pub enter_frame_end-AllSound :
    (c : Config) (d : Decoder)
    → d.received_bytes ≤ length d.frame_buffer
    → d.received_bytes ≤ c.max_frame_len + 1
    → AllSound c (enter_frame_end c d).1
enter_frame_end-AllSound c d room le =
    AllReported-AllSound c d (enter_frame_end c d).1 room le (enter_frame_end-AllReported c d)

-- Every frame that `enter_frame_end` reports has at least 16 bytes with its checksum. It is marked
-- valid if its checksum is right as received or, with error correction on, after the toggling of
-- one of its bits; it is marked invalid only if its checksum is wrong and `crc_check` is false. Its
-- payload is the bytes of that buffer before the checksum.
pub enter_frame_end-Reported :
    (c : Config) (d : Decoder) (f : Frame)
    → (enter_frame_end c d).1 ≡ some f
    → (min_addr_len + 2 ≤ d.received_bytes) × Reported c d f
enter_frame_end-Reported c d f h =
    let all : AllReported c d (some f) =
      subst (AllReported c d) h (enter_frame_end-AllReported c d) in
    all
