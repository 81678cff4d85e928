-- ===== src/Ax100/Mode5/Run.antt =====
-- The states of `ax100_mode5`: the two searches, the length field in its Golay code, the payload with its
-- checksum, and `decode`.
use satnogs_gr_oot.Base.{ℕ, ◌+◌, ◌-◌, ◌*◌, ◌^◌, bit_and, bit_or, Bool, true, false}
use satnogs_gr_oot.Base.{Option, none, some, List, [], ◌∷◌, ◌++◌, ltb, leb, ◌==◌, if◌then◌else◌}
use satnogs_gr_oot.Base.{get_or, set, take, drop, replicate, length}
use satnogs_gr_oot.Bytes.{join_msb}
use satnogs_gr_oot.Crc.{CrcType, crc_none, crc32_c_t, crc_size, crc32_c}
use satnogs_gr_oot.ShiftReg.{shift_left, count, xor_reg}
use satnogs_gr_oot.Whitening.{Lfsr}
use satnogs_gr_oot.Golay24.{decode24}
use satnogs_gr_oot.ReedSolomon.{ReedSolomon, padding}
use satnogs_gr_oot.Ieee802154.Decoder.{as_bool}
use satnogs_gr_oot.Ieee802154.Decoder.Run.{network32, descrambled}
use satnogs_gr_oot.Ax100.Size.{size_sub}
use satnogs_gr_oot.Ax100.Mode5.{State, searching, searching_sync, decoding_frame_len}
use satnogs_gr_oot.Ax100.Mode5.{decoding_payload, Config, Decoder, Outcome, ok, throws}
use satnogs_gr_oot.Ax100.Mode5.{fault, reset}

-- `check_crc`; `none` is the exception of the `default` case.
unfoldable pub check_crc : CrcType → List ℕ → ℕ → Option Bool
check_crc crc_none pdu n = some true
check_crc crc32_c_t pdu n = some (crc32_c (take (n - 4) pdu) == network32 pdu (n - 4))
check_crc _ pdu n = none

-- `coded_len` of `decode_frame_len`.
abbrev pub coded_len : List ℕ → ℕ
coded_len pdu = bit_or (bit_or (get_or pdu 0 0 * 2 ^ 16) (get_or pdu 1 0 * 2 ^ 8)) (get_or pdu 2 0)

module _ (lfsr : Lfsr) where
  -- `search_sync` from index `i` on: the new state and the value returned.
  unfoldable pub search_sync : Config → List ℕ → ℕ → Decoder lfsr → Decoder lfsr × ℕ
  unfolding reset
  search_sync c [] i d = (d, i)
  search_sync c (x ∷ xs) i d =
      let r = shift_left (as_bool x) d.sync_shift_reg in
      let t = record d { sync_shift_reg = r; cnt = d.cnt + 1 } in
      elim (leb (count (xor_reg r c.sync)) c.sync_thrsh) [
        | true ↦ (record t { state = decoding_frame_len; cnt = 0 }, i + 1)
        | false ↦ elim (ltb (c.preamble_len * 2 + c.sync_len) t.cnt) [
          | true ↦ (reset lfsr t, i + 1)
          | false ↦ search_sync c xs (i + 1) t
        ]
      ]

  -- The loop of `search_preamble`.
  unfoldable pub preamble_loop : Config → List ℕ → ℕ → Decoder lfsr → Decoder lfsr × ℕ
  preamble_loop c [] i d = (d, i)
  preamble_loop c (x ∷ xs) i d =
      let r = shift_left (as_bool x) d.preamble_shift_reg in
      let t = record d { preamble_shift_reg = r } in
      elim (leb (count (xor_reg r c.preamble)) c.preamble_thrsh) [
        | true ↦ (
          record t { state = searching_sync; cnt = 0; frame_start = d.nitems_read + i + 1 },
          i + 1,
        )
        | false ↦ preamble_loop c xs (i + 1) t
      ]

  unfoldable pub search_preamble : Config → List ℕ → Decoder lfsr → Decoder lfsr × ℕ
  unfolding preamble_loop search_sync
  search_preamble c input d =
      if c.preamble_len == 0
      then search_sync c input 0 (record d { state = searching_sync; frame_start = d.nitems_read })
      else preamble_loop c input 0 d

  abbrev pub without_frame : ℕ → Decoder lfsr → Outcome lfsr
  without_frame n d = ok d (record { consumed = n; frame = none })

  -- The branch of `decode_frame_len` for a whole length field, by what the Golay code gives.
  unfoldable pub length_done : Config → ℕ → Decoder lfsr → Option ℕ → Outcome lfsr
  unfolding reset
  length_done c i d none = without_frame ((i + 1) * 8) (reset lfsr d)
  length_done c i d (some len) =
      let t = record d { len = bit_and len 0xFF } in
      if ltb c.max_frame_len t.len
      then without_frame ((i + 1) * 8) (reset lfsr t)
      else without_frame ((i + 1) * 8) (record t {
        cnt = 0;
        state = decoding_payload;
        pdu = replicate c.max_frame_len 0 ++ drop c.max_frame_len t.pdu;
      })

  -- `d_pdu[d_cnt++] = b`, and what is done after it.
  unfoldable pub stored : ℕ → Decoder lfsr → (Decoder lfsr → Outcome lfsr) → Outcome lfsr
  stored b d next = elim (ltb d.cnt (length d.pdu)) [
    | true ↦ next (record d { pdu = set d.pdu d.cnt b; cnt = d.cnt + 1 })
    | false ↦ fault
  ]

  -- The loop of `decode_frame_len` from round `i` on, each on eight items.
  unfoldable pub decode_frame_len : Config → List ℕ → ℕ → Decoder lfsr → Outcome lfsr
  unfolding length_done
  decode_frame_len c (b0 ∷ b1 ∷ b2 ∷ b3 ∷ b4 ∷ b5 ∷ b6 ∷ b7 ∷ rest) i d =
      stored (join_msb (b0 ∷ b1 ∷ b2 ∷ b3 ∷ b4 ∷ b5 ∷ b6 ∷ b7 ∷ [])) d λ t.
        elim (t.cnt == c.length_field_len) [
          | true ↦ length_done c i t (decode24 (coded_len t.pdu))
          | false ↦ decode_frame_len c rest (i + 1) t
        ]
  decode_frame_len c _ i d = without_frame (i * 8) d

  -- The frame of a payload that is whole after round `i`.
  unfoldable pub report : Config → ℕ → Decoder lfsr → Option ℕ → Outcome lfsr
  unfolding check_crc reset
  report c i d corrected = elim (crc_size c.crc) [
    | none ↦ throws
    | some n ↦
        if ltb (length d.pdu) (size_sub d.len n)
        then fault
        else elim (check_crc c.crc d.pdu d.len) [
          | none ↦ throws
          | some valid ↦ ok (reset lfsr d) (record {
            consumed = (i + 1) * 8;
            frame = some (record {
              pdu = take (size_sub d.len n) d.pdu;
              crc_valid = valid;
              sample_start = d.frame_start;
              sample_cnt = d.nitems_read + (i + 1) * 8 - d.frame_start;
              corrected_bits = corrected;
            });
          })
        ]
  ]

  -- The same behind Reed-Solomon: the symbols are back in place, and the parity is dropped.
  unfoldable pub after_rs : Config → ℕ → Decoder lfsr → List ℕ × Option ℕ → Outcome lfsr
  unfolding report reset
  after_rs c i d (symbols, ret) =
      let t = record d { pdu = symbols ++ drop d.len d.pdu; len = size_sub d.len 32 } in
      elim ret [
        | none ↦ without_frame ((i + 1) * 8) (reset lfsr t)
        | some n ↦ report c i t (some n)
      ]

  module _ (rs : ReedSolomon) where
    open rs use {decode_rs_8}

    -- The branch of `decode_payload` for a whole payload.
    unfoldable pub payload_done : Config → ℕ → Decoder lfsr → Outcome lfsr
    unfolding after_rs report
    payload_done c i d =
        let (out, s) = descrambled lfsr d.descrambler (take d.len d.pdu) in
        let t = record d { descrambler = s; pdu = out ++ drop d.len d.pdu } in
        if c.rs
        then after_rs c i t (decode_rs_8 (take t.len t.pdu) none (padding t.len))
        else report c i t none

    -- The loop of `decode_payload` from round `i` on, each on eight items.
    unfoldable pub decode_payload : Config → List ℕ → ℕ → Decoder lfsr → Outcome lfsr
    unfolding payload_done
    decode_payload c (b0 ∷ b1 ∷ b2 ∷ b3 ∷ b4 ∷ b5 ∷ b6 ∷ b7 ∷ rest) i d =
        stored (join_msb (b0 ∷ b1 ∷ b2 ∷ b3 ∷ b4 ∷ b5 ∷ b6 ∷ b7 ∷ [])) d λ t.
          elim (t.cnt == t.len) [
            | true ↦ payload_done c i t
            | false ↦ decode_payload c rest (i + 1) t
          ]
    decode_payload c _ i d = without_frame (i * 8) d

    abbrev pub searched : Decoder lfsr × ℕ → Outcome lfsr
    searched (d, n) = without_frame n d

    -- The `switch` of `decode`.
    unfoldable pub decode_in : State → Config → Decoder lfsr → List ℕ → Outcome lfsr
    unfolding search_preamble search_sync decode_frame_len decode_payload
    decode_in searching c d input = searched (search_preamble c input d)
    decode_in searching_sync c d input = searched (search_sync c input 0 d)
    decode_in decoding_frame_len c d input = decode_frame_len c input 0 d
    decode_in decoding_payload c d input = decode_payload c input 0 d

    -- `incr_nitems_read` at the end of `decode`.
    abbrev pub counted : Outcome lfsr → Outcome lfsr
    counted (ok d s) = ok (record d { nitems_read = d.nitems_read + s.consumed }) s
    counted throws = throws
    counted fault = fault

    unfoldable pub decode : Config → Decoder lfsr → List ℕ → Outcome lfsr
    unfolding decode_in
    decode c d input = counted (decode_in d.state c d input)
