-- ===== src/Ieee802154/Decoder/Total.antt =====
-- `decode` in every state: it returns, reads a part of its input, and leaves a valid decoder.
use satnogs_gr_oot.Base.{ℕ, ◌+◌, ◌*◌, ◌/◌, ◌≤◌, min, ◌≡◌, ◌≢◌, refl, sym, ap, ◌∙◌, subst, inl, inr}
use satnogs_gr_oot.Base.{Bool, true, false, ◌&&◌, not, Option, none, some, List, [], ◌∷◌, arith}
use satnogs_gr_oot.Base.{ltb, ◌==◌, if◌then◌else◌, Bool-cases, Option-cases, length, set, take}
use satnogs_gr_oot.Base.{length-set, length-take}
use satnogs_gr_oot.Ieee802154.Decoder.Parts.{decode_frame_len-Goes, payload_done-Goes}
use satnogs_gr_oot.Bytes.{join_msb}
use satnogs_gr_oot.Crc.{CrcType, crc_none, crc16_ccitt_t, crc16_aug_ccitt_t, crc16_ccitt_reversed_t}
use satnogs_gr_oot.Crc.{crc16_ax25_t, crc16_ibm_t, crc32_c_t, crc_methods_num, crc_size}
use satnogs_gr_oot.Whitening.{Lfsr, Whitening}
use satnogs_gr_oot.Ieee802154.Decoder.{State, searching, searching_sync, decoding_generic_frame_len}
use satnogs_gr_oot.Ieee802154.Decoder.{decoding_payload, Config, Status, Decoder, new, reset}
use satnogs_gr_oot.Ieee802154.Decoder.{config_of, shift_regs}
use satnogs_gr_oot.Ieee802154.Decoder.Run.{decode_frame_len, payload_done, decode_payload}
use satnogs_gr_oot.Ieee802154.Decoder.Run.{decode_in, decode, without_frame}
use satnogs_gr_oot.Ieee802154.Decoder.Safe.{IsValid, Goes, IsValid-kept, search_preamble-Goes}
use satnogs_gr_oot.Ieee802154.Decoder.Safe.{search_sync-Goes}

module _ (lfsr : Lfsr) where
  Goes-widen :
      (c : Config) (low high low' high' : ℕ) (r : Option (Decoder lfsr × Status))
      → low' ≤ low
      → high ≤ high'
      → Goes lfsr c low high r
      → Goes lfsr c low' high' r
  Goes-widen c low high low' high' none p q g = g
  Goes-widen c low high low' high' (some (t, s)) p q (v, l, h) = (v, omega arith, omega arith)

  decode_payload-Goes :
      (c : Config) (xs : List ℕ) (i : ℕ) (d : Decoder lfsr)
      → IsValid lfsr c d
      → d.state ≡ decoding_payload
      → Goes lfsr c
          (8 * i + min 1 (length xs / 8))
          (8 * i + length xs)
          (decode_payload lfsr c xs i d)
  unfolding decode_payload
  decode_payload-Goes c [] i d v e = (v, omega arith, omega arith)
  decode_payload-Goes c (a ∷ []) i d v e = (v, omega arith, omega arith)
  decode_payload-Goes c (a ∷ b ∷ []) i d v e = (v, omega arith, omega arith)
  decode_payload-Goes c (a ∷ b ∷ p ∷ []) i d v e = (v, omega arith, omega arith)
  decode_payload-Goes c (a ∷ b ∷ p ∷ q ∷ []) i d v e = (v, omega arith, omega arith)
  decode_payload-Goes c (a ∷ b ∷ p ∷ q ∷ r ∷ []) i d v e = (v, omega arith, omega arith)
  decode_payload-Goes c (a ∷ b ∷ p ∷ q ∷ r ∷ s ∷ []) i d v e = (v, omega arith, omega arith)
  decode_payload-Goes c (a ∷ b ∷ p ∷ q ∷ r ∷ s ∷ u ∷ []) i d v e = (v, omega arith, omega arith)
  decode_payload-Goes c (a ∷ b ∷ p ∷ q ∷ r ∷ s ∷ u ∷ w ∷ xs) i d v e =
      let byte : ℕ = join_msb (a ∷ b ∷ p ∷ q ∷ r ∷ s ∷ u ∷ w ∷ []) in
      let t = record d { pdu = set d.pdu d.cnt byte; cnt = d.cnt + 1 } in
      let same = length-set d.pdu d.cnt byte in
      elim (Bool-cases (t.cnt == t.len + c.length_field_len)) [
        | inl full ↦
            rw (full, decode_payload)
              (Goes-widen c _ _ _ _ (payload_done lfsr c i t) (omega arith) (omega arith)
                (payload_done-Goes lfsr c i d t v refl same))
        | inr more ↦
            let before = v.waiting e in
            rw (more, decode_payload)
              (Goes-widen c _ _ _ _ (decode_payload lfsr c xs (i + 1) t) (omega arith) (omega arith)
                (decode_payload-Goes c xs (i + 1) t
                  (IsValid-kept lfsr c d t v refl same (λ h. ground arith) (λ h. v.variable h)) e))
      ]

  decode_in-Goes :
      (s : State) (c : Config) (d : Decoder lfsr) (input : List ℕ)
      → IsValid lfsr c d
      → d.state ≡ s
      → 8 ≤ length input
      → Goes lfsr c 1 (length input) (decode_in lfsr s c d input)
  unfolding decode_in
  decode_in-Goes searching c d input v e long =
      let (w, low, high) = search_preamble-Goes lfsr c input 0 d v e in
      (w, omega arith, omega arith)
  decode_in-Goes searching_sync c d input v e long =
      let (w, low, high) = search_sync-Goes lfsr c input 0 d v e in (w, omega arith, omega arith)
  decode_in-Goes decoding_generic_frame_len c d input v e long =
      let var = v.variable e in
      let (t, found, w) = decode_frame_len-Goes lfsr c input d v var in
      let done : decode_in lfsr decoding_generic_frame_len c d input
          ≡ some (without_frame lfsr (t, 8)) =
        ap
          (λ b.
            if b
            then (elim (decode_frame_len lfsr c input d) [
              | none ↦ none
              | some r ↦ some (without_frame lfsr r)
            ])
            else none)
          var
        ∙ ap
            (λ (o : Option (Decoder lfsr × ℕ)). elim o [
              | none ↦ none
              | some r ↦ some (without_frame lfsr r)
            ])
            found in
      subst (Goes lfsr c 1 (length input)) (sym done) (w, omega arith, omega arith)
  decode_in-Goes decoding_payload c d input v e long =
      Goes-widen c _ _ _ _ (decode_payload lfsr c input 0 d) (omega arith) (omega arith)
        (decode_payload-Goes c input 0 d v e)

  counted_items :
      (c : Config) (low high : ℕ) (r : Option (Decoder lfsr × Status))
      → Goes lfsr c low high r
      → Goes lfsr c low high (elim r [
        | none ↦ none
        | some (t, s) ↦ some (record t { nitems_read = t.nitems_read + s.consumed }, s)
      ])
  counted_items c low high none g = g
  counted_items c low high (some (t, s)) (v, l, h) = (
    IsValid-kept lfsr c t (record t { nitems_read = t.nitems_read + s.consumed }) v refl refl
        v.waiting v.variable,
    l,
    h,
  )

  -- Called with eight items or more, a valid decoder throws nothing: it reads at least one item and
  -- none beyond the input, and stays valid, so that the next byte of a payload lies inside `d_pdu`.
  pub decode-Goes :
      (c : Config) (d : Decoder lfsr) (input : List ℕ)
      → IsValid lfsr c d
      → 8 ≤ length input
      → Goes lfsr c 1 (length input) (decode lfsr c d input)
  unfolding decode
  decode-Goes c d input v long =
      counted_items c 1 (length input) (decode_in lfsr d.state c d input)
        (decode_in-Goes d.state c d input v refl long)

  crc_size-range : (t : CrcType) (n : ℕ) → crc_size t ≡ some n → (n ≤ 4) × (t ≢ crc_none → 1 ≤ n)
  unfolding crc_size
  crc_size-range crc_none n e = let z : 0 ≡ n = cc in (omega arith, λ ne. absurd (ne refl))
  crc_size-range crc16_ccitt_t n e = let z : 2 ≡ n = cc in (omega arith, λ ne. omega arith)
  crc_size-range crc16_aug_ccitt_t n e = let z : 2 ≡ n = cc in (omega arith, λ ne. omega arith)
  crc_size-range crc16_ccitt_reversed_t n e = let z : 2 ≡ n = cc in (omega arith, λ ne. omega arith)
  crc_size-range crc16_ax25_t n e = let z : 2 ≡ n = cc in (omega arith, λ ne. omega arith)
  crc_size-range crc16_ibm_t n e = let z : 2 ≡ n = cc in (omega arith, λ ne. omega arith)
  crc_size-range crc32_c_t n e = let z : 4 ≡ n = cc in (omega arith, λ ne. omega arith)
  crc_size-range crc_methods_num n e = cc

  -- What the constructor returns is valid, if it returns.
  abbrev Built : Option (Config × Decoder lfsr) → Type 0
  Built none = Unit
  Built (some (c, d)) = IsValid lfsr c d

  unless_any :
      (a b c e : Bool) (r : Option (Config × Decoder lfsr))
      → (a ≡ false → Built r)
      → Built (if a then none else if b then none else if c then none else if e then none else r)
  unless_any true b c e r h = tt
  unless_any false true c e r h = tt
  unless_any false false true e r h = tt
  unless_any false false false true r h = tt
  unless_any false false false false r h = h refl

  -- A decoder that the constructor returns is valid, if its memory was allocated in full, the
  -- checksum is not the one of AX.25, which `check_crc` does not know, and, with a length field, the
  -- frames may be as long as the field can say and there is a checksum.
  pub built-IsValid :
      (preamble : List ℕ) (preamble_threshold : ℕ) (sync : List ℕ) (sync_threshold : ℕ)
      (crc : CrcType) (descrambler : Option (Whitening lfsr)) (var_len : Bool) (max_len : ℕ)
      (drop_invalid : Bool) (memory : List ℕ) (c : Config) (d : Decoder lfsr)
      → new lfsr preamble preamble_threshold sync sync_threshold crc descrambler var_len max_len
          drop_invalid memory
        ≡ some (c, d)
      → max_len + 5 ≤ length memory
      → crc ≢ crc16_ax25_t
      → (var_len ≡ true → (255 ≤ max_len) × (crc ≢ crc_none))
      → IsValid lfsr c d
  unfolding new reset
  built-IsValid preamble preamble_threshold sync sync_threshold crc descrambler var_len max_len
        drop_invalid memory c d e enough known long =
      subst Built e (elim (Option-cases (crc_size crc)) [
        | inl z ↦ rw (z, new) tt
        | inr (n, z) ↦
            let (most, least) = crc_size-range crc n z in
            let c0 =
              config_of preamble preamble_threshold sync sync_threshold crc var_len drop_invalid in
            let k : ℕ = c0.length_field_len in
            let fresh : Decoder lfsr = record {
              preamble_shift_reg = shift_regs preamble;
              sync_shift_reg = shift_regs sync;
              descrambler = descrambler;
              len = max_len + n;
              state = searching;
              cnt = 0;
              frame_start_idx = 0;
              pdu = take (max_len + n + k) memory;
              nitems_read = 0;
            } in
            let size : length fresh.pdu ≡ max_len + n + k =
              length-take (max_len + n + k) memory (ground arith) in
            rw (z, new)
              (unless_any (max_len == 0) (ltb c0.sync_len 8)
                (not (c0.preamble_len == 0) && ltb c0.preamble_len (2 * c0.preamble_thrsh))
                (ltb c0.sync_len (2 * c0.sync_thrsh)) (some (c0, reset lfsr c0 fresh))
                (λ positive. record {
                  field = refl;
                  checked = known;
                  crc = (n, z, λ h. ground (arith, long h, least, size));
                  room = omega (arith, size);
                  positive = λ h. ground arith;
                  waiting = λ h. ground arith;
                  variable = λ h. ground arith;
                }))
      ])
