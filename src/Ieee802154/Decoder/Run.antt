-- ===== src/Ieee802154/Decoder/Run.antt =====
-- The states of the decoder: the two searches, the length field, the payload with its checksum, and
-- `decode`.
use satnogs_gr_oot.Base.{◌*◌, ℕ, ◌+◌, ◌-◌, ◌^◌, Bool, true, false, Option, none, some, List, []}
use satnogs_gr_oot.Base.{◌∷◌, ◌++◌, ltb, leb, ◌==◌, if◌then◌else◌, get_or, set, take, drop}
use satnogs_gr_oot.Bytes.{join_msb}
use satnogs_gr_oot.Crc.{CrcType, crc_none, crc16_ccitt_t, crc16_aug_ccitt_t, crc16_ccitt_reversed_t}
use satnogs_gr_oot.Crc.{crc16_ax25_t, crc16_ibm_t, crc32_c_t, crc_methods_num, crc_size}
use satnogs_gr_oot.Crc.{crc16_ccitt, crc16_aug_ccitt, crc16_ccitt_reversed, crc16_ibm, crc32_c}
use satnogs_gr_oot.ShiftReg.{shift_left, count, xor_reg}
use satnogs_gr_oot.Whitening.{Lfsr, Whitening, descramble}
use satnogs_gr_oot.Ieee802154.Decoder.{State, searching, searching_sync, decoding_generic_frame_len}
use satnogs_gr_oot.Ieee802154.Decoder.{decoding_payload, Config, Frame, Status, Decoder, as_bool}
use satnogs_gr_oot.Ieee802154.Decoder.{reset}

-- The value of two or four bytes in network order: `memcpy`, then `ntohs` or `ntohl`.
abbrev pub network16 : List ℕ → ℕ → ℕ
network16 xs i = get_or xs i 0 * 2 ^ 8 + get_or xs (i + 1) 0

abbrev pub network32 : List ℕ → ℕ → ℕ
network32 xs i = network16 xs i * 2 ^ 16 + network16 xs (i + 2)

-- `none` is the exception of the `default` case.
unfoldable pub check_crc_of : CrcType → List ℕ → ℕ → Option Bool
check_crc_of crc_none pdu n = some true
check_crc_of crc16_ccitt_t pdu n = some (crc16_ccitt (take (n - 2) pdu) == network16 pdu (n - 2))
check_crc_of crc16_aug_ccitt_t pdu n =
    some (crc16_aug_ccitt (take (n - 2) pdu) == network16 pdu (n - 2))
check_crc_of crc16_ccitt_reversed_t pdu n =
    some (crc16_ccitt_reversed (take (n - 2) pdu) == network16 pdu (n - 2))
check_crc_of crc16_ax25_t pdu n = none
check_crc_of crc16_ibm_t pdu n = some (crc16_ibm (take (n - 2) pdu) == network16 pdu (n - 2))
check_crc_of crc32_c_t pdu n = some (crc32_c (take (n - 4) pdu) == network32 pdu (n - 4))
check_crc_of crc_methods_num pdu n = none

module _ (lfsr : Lfsr) where
  -- `search_preamble` from index `i` on: the new state and the value returned.
  unfoldable pub search_preamble : Config → List ℕ → ℕ → Decoder lfsr → Decoder lfsr × ℕ
  search_preamble c [] i d = (d, i)
  search_preamble c (x ∷ xs) i d =
      let r = shift_left (as_bool x) d.preamble_shift_reg in
      let t = record d { preamble_shift_reg = r } in
      elim (leb (count (xor_reg r c.preamble)) c.preamble_thrsh) [
        | true ↦ (
          record t { state = searching_sync; frame_start_idx = d.nitems_read + i + 1; cnt = 0 },
          i + 1,
        )
        | false ↦ search_preamble c xs (i + 1) t
      ]

  -- `search_sync` from index `i` on.
  unfoldable pub search_sync : Config → List ℕ → ℕ → Decoder lfsr → Decoder lfsr × ℕ
  unfolding reset
  search_sync c [] i d = (d, i)
  search_sync c (x ∷ xs) i d =
      let r = shift_left (as_bool x) d.sync_shift_reg in
      let t = record d { sync_shift_reg = r; cnt = d.cnt + 1 } in
      elim (leb (count (xor_reg r c.sync)) c.sync_thrsh) [
        | true ↦ (
          record t {
            state = if c.var_len then decoding_generic_frame_len else decoding_payload;
            cnt = 0;
          },
          i + 1,
        )
        | false ↦ elim (ltb (c.preamble_len * 2 + c.sync_len + c.sync_thrsh) t.cnt) [
          | true ↦ (reset lfsr c t, i + 1)
          | false ↦ search_sync c xs (i + 1) t
        ]
      ]

  unfoldable pub descrambled : Option (Whitening lfsr) → List ℕ → List ℕ × Option (Whitening lfsr)
  descrambled none xs = (xs, none)
  descrambled (some w) xs = let (os, v) = descramble lfsr w xs in (os, some v)

  -- `decode_frame_len` on its eight items; `none` is the exception of `crc_size`.
  unfoldable pub decode_frame_len : Config → List ℕ → Decoder lfsr → Option (Decoder lfsr × ℕ)
  unfolding descrambled
  decode_frame_len c input d =
      let (out, s) = descrambled d.descrambler (join_msb (take 8 input) ∷ []) in
      let b = get_or out 0 0 in
      elim (crc_size c.crc) [
        | none ↦ none
        | some n ↦ some (
          record d {
            descrambler = s;
            len = b + n;
            pdu = set d.pdu 0 b;
            cnt = 1;
            state = decoding_payload;
          },
          8,
        )
      ]

  abbrev pub check_crc : Config → Decoder lfsr → Option Bool
  check_crc c d = check_crc_of c.crc d.pdu (d.len + c.length_field_len)

  abbrev pub frame_of : Config → Decoder lfsr → ℕ → ℕ → Bool → Frame
  frame_of c d n i valid = record {
    pdu = take n (drop c.length_field_len d.pdu);
    crc_valid = valid;
    sample_start = d.frame_start_idx;
    sample_cnt = d.nitems_read + (i + 1) * 8 - d.frame_start_idx;
  }

  -- The frame of a payload that is whole after round `i`, by what `check_crc` returned.
  unfoldable pub reported : Config → Decoder lfsr → ℕ → ℕ → Bool → Option Frame
  reported c d n i true = some (frame_of c d (d.len - n) i true)
  reported c d n i false = if c.drop_invalid then none else some (frame_of c d d.len i false)

  -- The branch of `decode_payload` for a whole payload.
  unfoldable pub payload_done : Config → ℕ → Decoder lfsr → Option (Decoder lfsr × Status)
  unfolding descrambled check_crc_of reported reset
  payload_done c i d =
      let k = c.length_field_len in
      let (out, s) = descrambled d.descrambler (take d.len (drop k d.pdu)) in
      let t = record d { descrambler = s; pdu = take k d.pdu ++ (out ++ drop (k + d.len) d.pdu) } in
      elim (check_crc c t) [
        | none ↦ none
        | some valid ↦ elim (crc_size c.crc) [
          | none ↦ none
          | some n ↦
              some
                (reset lfsr c t, record { consumed = (i + 1) * 8; frame = reported c t n i valid })
        ]
      ]

  -- The loop of `decode_payload` from round `i` on, each on eight items.
  unfoldable pub decode_payload :
      Config → List ℕ → ℕ → Decoder lfsr → Option (Decoder lfsr × Status)
  unfolding payload_done
  decode_payload c (b0 ∷ b1 ∷ b2 ∷ b3 ∷ b4 ∷ b5 ∷ b6 ∷ b7 ∷ rest) i d =
      let b = join_msb (b0 ∷ b1 ∷ b2 ∷ b3 ∷ b4 ∷ b5 ∷ b6 ∷ b7 ∷ []) in
      let t = record d { pdu = set d.pdu d.cnt b; cnt = d.cnt + 1 } in
      elim (t.cnt == t.len + c.length_field_len) [
        | true ↦ payload_done c i t
        | false ↦ decode_payload c rest (i + 1) t
      ]
  decode_payload c _ i d = some (d, record { consumed = i * 8; frame = none })

  abbrev pub without_frame : Decoder lfsr × ℕ → Decoder lfsr × Status
  without_frame (d, n) = (d, record { consumed = n; frame = none })

  -- The `switch` of `decode_var_len` and of `decode_const_len`; `none` is an exception.
  unfoldable pub decode_in : State → Config → Decoder lfsr → List ℕ → Option (Decoder lfsr × Status)
  unfolding search_preamble search_sync decode_frame_len decode_payload
  decode_in searching c d input = some (without_frame (search_preamble c input 0 d))
  decode_in searching_sync c d input = some (without_frame (search_sync c input 0 d))
  decode_in decoding_generic_frame_len c d input =
      if c.var_len
      then (elim (decode_frame_len c input d) [ none ↦ none | some r ↦ some (without_frame r) ])
      else none
  decode_in decoding_payload c d input = decode_payload c input 0 d

  -- `decode`, with `incr_nitems_read`.
  unfoldable pub decode : Config → Decoder lfsr → List ℕ → Option (Decoder lfsr × Status)
  unfolding decode_in
  decode c d input = elim (decode_in d.state c d input) [
    | none ↦ none
    | some (t, s) ↦ some (record t { nitems_read = t.nitems_read + s.consumed }, s)
  ]
