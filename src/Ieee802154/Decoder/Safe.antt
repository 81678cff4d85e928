-- ===== src/Ieee802154/Decoder/Safe.antt =====
-- What the decoder keeps between calls, and that each call reads a part of its input.
use satnogs_gr_oot.Base.{true, false, Option, none, some, min, refl, ◌+◌, ◌*◌, ◌∷◌, []}
use satnogs_gr_oot.Base.{if◌then◌else◌, ltb, ℕ, ◌≤◌, ◌<◌, ◌≡◌, ◌≢◌, inl, inr, List, arith, leb}
use satnogs_gr_oot.Base.{Bool-cases, length}
use satnogs_gr_oot.Whitening.{Lfsr}
use satnogs_gr_oot.Ieee802154.Decoder.{reset, searching_sync, searching, decoding_generic_frame_len}
use satnogs_gr_oot.Ieee802154.Decoder.{decoding_payload, Config, Status, Decoder, as_bool}
use satnogs_gr_oot.Ieee802154.Decoder.Run.{search_sync, search_preamble}
use satnogs_gr_oot.Crc.{crc16_ax25_t, crc_size}
use satnogs_gr_oot.ShiftReg.{count, xor_reg, shift_left}

module _ (lfsr : Lfsr) where
  open lfsr use {State as Register}

  pub record IsValid (c : Config) (d : Decoder lfsr) : Type 0 where
    pub field : c.length_field_len ≡ (if c.var_len then 1 else 0)
    pub checked : c.crc ≢ crc16_ax25_t
    pub crc :
        (n : ℕ) × (crc_size c.crc ≡ some n)
        × (c.var_len ≡ true → (1 ≤ n) × (255 + n + 1 ≤ length d.pdu))
    pub room : d.len + c.length_field_len ≤ length d.pdu
    pub positive : c.var_len ≡ false → 1 ≤ d.len
    pub waiting : d.state ≡ decoding_payload → d.cnt < d.len + c.length_field_len
    pub variable : d.state ≡ decoding_generic_frame_len → c.var_len ≡ true

  -- What a call returns: a valid decoder, from between `low` and `high` items.
  abbrev pub Goes : Config → ℕ → ℕ → Option (Decoder lfsr × Status) → Type 0
  Goes c low high none = ⊥
  Goes c low high (some (t, s)) = IsValid c t × (low ≤ s.consumed) × (s.consumed ≤ high)

  -- A step that keeps the length and the size of `d_pdu`.
  pub IsValid-kept :
      (c : Config) (d t : Decoder lfsr)
      → IsValid c d
      → t.len ≡ d.len
      → length t.pdu ≡ length d.pdu
      → (t.state ≡ decoding_payload → t.cnt < t.len + c.length_field_len)
      → (t.state ≡ decoding_generic_frame_len → c.var_len ≡ true)
      → IsValid c t
  IsValid-kept c d t v same size waiting variable =
      let (n, known, more) = v.crc in
      record {
        field = v.field;
        checked = v.checked;
        crc = (n, known, λ h. omega (arith, more h, size));
        room = omega (arith, v.room, same, size);
        positive = λ h. omega (arith, v.positive h, same);
        waiting = waiting;
        variable = variable;
      }

  pub search_preamble-Goes :
      (c : Config) (xs : List ℕ) (i : ℕ) (d : Decoder lfsr)
      → IsValid c d
      → d.state ≡ searching
      → (let (t, n) = search_preamble lfsr c xs i d in
          IsValid c t × (i + min 1 (length xs) ≤ n) × (n ≤ i + length xs))
  unfolding search_preamble
  search_preamble-Goes c [] i d v e = (v, omega arith, omega arith)
  search_preamble-Goes c (x ∷ xs) i d v e =
      let r = shift_left (as_bool x) d.preamble_shift_reg in
      let t = record d { preamble_shift_reg = r } in
      elim (Bool-cases (leb (count (xor_reg r c.preamble)) c.preamble_thrsh)) [
        | inl found ↦
            rw (found, search_preamble)
              (IsValid-kept c d _ v refl refl (λ h. cc) (λ h. cc), omega arith, omega arith)
        | inr other ↦
            let (w, low, high) =
              search_preamble-Goes c xs (i + 1) t
                (IsValid-kept c d t v refl refl v.waiting v.variable) e in
            rw (other, search_preamble) (w, omega arith, omega arith)
      ]

  -- A decoder after `reset`, or one that has found its synchronisation word.
  pub IsValid-reset :
      (c : Config) (d t : Decoder lfsr)
      → IsValid c d
      → t.len ≡ d.len
      → length t.pdu ≡ length d.pdu
      → IsValid c (reset lfsr c t)
  unfolding reset
  IsValid-reset c d t v same size =
      IsValid-kept c d (reset lfsr c t) v same size (λ h. ground arith) (λ h. ground arith)

  payload_room :
      (c : Config) (d : Decoder lfsr)
      → IsValid c d
      → c.var_len ≡ false
      → 0 < d.len + c.length_field_len
  payload_room c d v h = omega (arith, v.positive h)

  pub search_sync-Goes :
      (c : Config) (xs : List ℕ) (i : ℕ) (d : Decoder lfsr)
      → IsValid c d
      → d.state ≡ searching_sync
      → (let (t, n) = search_sync lfsr c xs i d in
          IsValid c t × (i + min 1 (length xs) ≤ n) × (n ≤ i + length xs))
  unfolding search_sync
  search_sync-Goes c [] i d v e = (v, omega arith, omega arith)
  search_sync-Goes c (x ∷ xs) i d v e =
      let r = shift_left (as_bool x) d.sync_shift_reg in
      let t = record d { sync_shift_reg = r; cnt = d.cnt + 1 } in
      elim (Bool-cases (leb (count (xor_reg r c.sync)) c.sync_thrsh)) [
        | inl found ↦
            rw (found, search_sync)
              (
                IsValid-kept c d _ v refl refl (λ h. ground (arith, payload_room c d v))
                    (λ h. ground arith),
                omega arith,
                omega arith,
              )
        | inr other ↦
            elim (Bool-cases (ltb (c.preamble_len * 2 + c.sync_len + c.sync_thrsh) t.cnt)) [
              | inl late ↦
                  rw (other, late, search_sync)
                    (IsValid-reset c d t v refl refl, omega arith, omega arith)
              | inr early ↦
                  let (w, low, high) =
                    search_sync-Goes c xs (i + 1) t
                      (IsValid-kept c d t v refl refl (λ h. cc) (λ h. cc)) e in
                  rw (other, early, search_sync) (w, omega arith, omega arith)
            ]
      ]
