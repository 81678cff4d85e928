-- ===== src/Ax100/Mode5/Safe.antt =====
-- What `ax100_mode5` keeps between calls, and that its searches keep it.
use satnogs_gr_oot.Base.{ℕ, ◌+◌, ◌*◌, ◌^◌, ◌≤◌, ◌<◌, ◌≡◌, ◌≢◌, refl, inl, inr, List, [], ◌∷◌, arith}
use satnogs_gr_oot.Base.{if◌then◌else◌, ltb, leb, ◌==◌, Bool-cases, length}
use satnogs_gr_oot.Crc.{CrcType, crc32_c_t}
use satnogs_gr_oot.ShiftReg.{count, xor_reg, shift_left}
use satnogs_gr_oot.Whitening.{Lfsr}
use satnogs_gr_oot.Ieee802154.Decoder.{as_bool}
use satnogs_gr_oot.Ax100.Mode5.{
  Config, Decoder, reset, searching, searching_sync, decoding_frame_len, decoding_payload,
}
use satnogs_gr_oot.Ax100.Mode5.Run.{search_sync, preamble_loop, search_preamble}
use satnogs_gr_oot.Ax100.Mode5.Delivery.{Known}

-- The bytes of a payload that are no PDU, and the least length of a frame that `decode_payload` can end.
abbrev pub checksum_bytes : CrcType → ℕ
checksum_bytes crc32_c_t = 4
checksum_bytes _ = 0

abbrev pub least_len : Config → ℕ
least_len c =
    if c.rs
    then 32 + checksum_bytes c.crc
    else if checksum_bytes c.crc == 0
    then 1
    else checksum_bytes c.crc

module _ (lfsr : Lfsr) where
  pub record IsValid (c : Config) (d : Decoder lfsr) : Type 0 where
    pub field : c.length_field_len ≡ 3
    pub known : Known c.crc
    pub limit : c.max_frame_len ≤ length d.pdu
    pub some_room : 3 ≤ length d.pdu
    pub in_field : d.state ≡ decoding_frame_len → d.cnt < 3
    pub waiting : d.state ≡ decoding_payload → d.cnt < d.len
    pub fits : d.state ≡ decoding_payload → (d.len ≤ length d.pdu) × (d.len < 2 ^ 8)
    pub enough : d.state ≡ decoding_payload → least_len c ≤ d.len

  -- A length that is too short for the payload to end.
  abbrev pub TooShort : Config → Decoder lfsr → Type 0
  TooShort c u = (u.state ≡ decoding_payload) × (u.len < least_len c)

  -- A decoder that is in no frame.
  pub IsValid-idle :
      (c : Config) (d t : Decoder lfsr)
      → IsValid c d
      → length t.pdu ≡ length d.pdu
      → t.state ≢ decoding_payload
      → (t.state ≡ decoding_frame_len → t.cnt < 3)
      → IsValid c t
  IsValid-idle c d t v size idle in_field = record {
    field = v.field;
    known = v.known;
    limit = omega (arith, v.limit, size);
    some_room = omega (arith, v.some_room, size);
    in_field = in_field;
    waiting = λ e. absurd (idle e);
    fits = λ e. absurd (idle e);
    enough = λ e. absurd (idle e);
  }

  pub IsValid-reset :
      (c : Config) (d t : Decoder lfsr)
      → IsValid c d
      → length t.pdu ≡ length d.pdu
      → IsValid c (reset lfsr t)
  unfolding reset
  IsValid-reset c d t v size = IsValid-idle c d (reset lfsr t) v size (λ h. cc) (λ h. cc)

  pub search_sync-IsValid :
      (c : Config) (xs : List ℕ) (i : ℕ) (d : Decoder lfsr)
      → IsValid c d
      → d.state ≡ searching_sync
      → (let (t, n) = search_sync lfsr c xs i d in IsValid c t × (n ≤ i + length xs))
  unfolding search_sync
  search_sync-IsValid c [] i d v e = (v, omega arith)
  search_sync-IsValid c (x ∷ xs) i d v e =
      let r = shift_left (as_bool x) d.sync_shift_reg in
      let t = record d { sync_shift_reg = r; cnt = d.cnt + 1 } in
      elim (Bool-cases (leb (count (xor_reg r c.sync)) c.sync_thrsh)) [
        | inl found ↦
            rw (found, search_sync)
              (IsValid-idle c d _ v refl (λ h. cc) (λ h. omega arith), omega arith)
        | inr other ↦ elim (Bool-cases (ltb (c.preamble_len * 2 + c.sync_len) t.cnt)) [
          | inl late ↦ rw (other, late, search_sync) (IsValid-reset c d t v refl, omega arith)
          | inr early ↦
              let (w, high) =
                search_sync-IsValid c xs (i + 1) t (IsValid-idle c d t v refl (λ h. cc) (λ h. cc))
                  e in
              rw (other, early, search_sync) (w, omega arith)
        ]
      ]

  preamble_loop-IsValid :
      (c : Config) (xs : List ℕ) (i : ℕ) (d : Decoder lfsr)
      → IsValid c d
      → d.state ≡ searching
      → (let (t, n) = preamble_loop lfsr c xs i d in IsValid c t × (n ≤ i + length xs))
  unfolding preamble_loop
  preamble_loop-IsValid c [] i d v e = (v, omega arith)
  preamble_loop-IsValid c (x ∷ xs) i d v e =
      let r = shift_left (as_bool x) d.preamble_shift_reg in
      let t = record d { preamble_shift_reg = r } in
      elim (Bool-cases (leb (count (xor_reg r c.preamble)) c.preamble_thrsh)) [
        | inl found ↦
            rw (found, preamble_loop) (IsValid-idle c d _ v refl (λ h. cc) (λ h. cc), omega arith)
        | inr other ↦
            let (w, high) =
              preamble_loop-IsValid c xs (i + 1) t (IsValid-idle c d t v refl (λ h. cc) (λ h. cc))
                e in
            rw (other, preamble_loop) (w, omega arith)
      ]

  pub search_preamble-IsValid :
      (c : Config) (input : List ℕ) (d : Decoder lfsr)
      → IsValid c d
      → d.state ≡ searching
      → (let (t, n) = search_preamble lfsr c input d in IsValid c t × (n ≤ length input))
  unfolding search_preamble
  search_preamble-IsValid c input d v e = elim (Bool-cases (c.preamble_len == 0)) [
    | inl none_sent ↦
        let t = record d { state = searching_sync; frame_start = d.nitems_read } in
        let (w, high) =
          search_sync-IsValid c input 0 t (IsValid-idle c d t v refl (λ h. cc) (λ h. cc)) refl in
        rw (none_sent, search_preamble) (w, omega arith)
    | inr sent ↦
        let (w, high) = preamble_loop-IsValid c input 0 d v e in
        rw (sent, search_preamble) (w, omega arith)
  ]
