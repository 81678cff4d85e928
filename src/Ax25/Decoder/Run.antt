-- ===== src/Ax25/Decoder/Run.antt =====
-- `_decode` and `decode` of `ax25_decoder`: the loops over the bits held, one turn of the `while`
-- loop, the loop itself on fuel, and the call with a buffer of new bits.
use satnogs_gr_oot.Base.{ℕ, zero, suc, ◌+◌, ◌-◌, ◌*◌, ◌%◌, ◌^◌, bit_and, Bool, true, false, Option}
use satnogs_gr_oot.Base.{none, some, List, [], ◌∷◌, ◌++◌, leb, ◌==◌, if◌then◌else◌, length, set}
use satnogs_gr_oot.Base.{drop}
use satnogs_gr_oot.Ax25.{sync_flag}
use satnogs_gr_oot.Whitening.{Lfsr}
use satnogs_gr_oot.Ax25.Decoder.{DecodingState, no_sync, in_sync, decoding, Config, Decoder, Frame}
use satnogs_gr_oot.Ax25.Decoder.{reset_state, enter_sync_state, enter_decoding_state, decode_1b}
use satnogs_gr_oot.Ax25.Decoder.{erase_read, enter_frame_end}

-- `case NO_SYNC`: the index of the bit that completes a flag.
unfoldable pub no_sync_loop : List ℕ → ℕ → Decoder → Decoder × Option ℕ
no_sync_loop [] i d = (d, none)
no_sync_loop (b ∷ bits) i d =
    let t = decode_1b b d in
    elim (sync_flag == t.shift_reg) [ true ↦ (t, some i) | false ↦ no_sync_loop bits (i + 1) t ]

-- `case IN_SYNC`: the body of the loop; the index is that of the last bit of a byte that is no flag.
unfoldable pub in_sync_bit : ℕ → Decoder → Decoder × Bool
in_sync_bit b d =
    let t = decode_1b b d in
    let u = record t { decoded_bits = t.decoded_bits + 1 } in
    if u.decoded_bits == 8
    then if u.shift_reg == sync_flag then (record u { decoded_bits = 0 }, false) else (u, true)
    else (u, false)

unfoldable pub in_sync_loop : List ℕ → ℕ → Decoder → Decoder × Option ℕ
in_sync_loop [] i d = (d, none)
in_sync_loop (b ∷ bits) i d =
    let (t, found) = in_sync_bit b d in
    elim found [ true ↦ (t, some i) | false ↦ in_sync_loop bits (i + 1) t ]

-- `case DECODING`: how one bit ends the loop, or does not.
pub data Verdict : Type 0 where
  go_on flag_seen invalid too_long : Verdict

unfoldable pub decoding_bit : Config → ℕ → Decoder → Decoder × Verdict
decoding_bit c b d =
    let t = decode_1b b d in
    if t.shift_reg == sync_flag
    then (t, flag_seen)
    else if bit_and t.shift_reg 0xfc == 0x7c
    then (record t { dec_b = t.dec_b * 2 % 2 ^ 8 }, go_on)
    else if bit_and t.shift_reg 0xfe == 0xfe
    then (t, invalid)
    else if t.decoded_bits + 1 == 8
    then (
      record t {
        frame_buffer = set t.frame_buffer t.received_bytes t.dec_b;
        received_bytes = t.received_bytes + 1;
        decoded_bits = 0;
      },
      if leb c.max_frame_len (t.received_bytes + 1) then too_long else go_on,
    )
    else (record t { decoded_bits = t.decoded_bits + 1 }, go_on)

-- The state, the index of the bit that ended the loop, and how.
unfoldable pub decoding_loop : Config → List ℕ → ℕ → Decoder → Decoder × ℕ × Verdict
decoding_loop c [] i d = (d, i, go_on)
decoding_loop c (b ∷ bits) i d =
    let (t, v) = decoding_bit c b d in
    elim v [
      | go_on ↦ decoding_loop c bits (i + 1) t
      | flag_seen ↦ (t, i, flag_seen)
      | invalid ↦ (t, i, invalid)
      | too_long ↦ (t, i, too_long)
    ]

-- One turn of the `while` loop: it returns, with a frame or without, or goes round again.
pub data Turn : Type 0 where
  returned : Decoder → Option Frame → Turn
  again : Decoder → Turn

unfoldable pub after_no_sync : Decoder × Option ℕ → Turn
after_no_sync (d, some i) =
    let e = enter_sync_state (erase_read i d) in
    again (record e { frame_start = e.nitems_read; start_idx = 1 })
after_no_sync (d, none) = returned (erase_read (length d.bitstream) d) none

unfoldable pub after_in_sync : Decoder × Option ℕ → Turn
after_in_sync (d, some i) =
    let e = erase_read (i + 1 - 7) d in again (enter_decoding_state (record e { start_idx = 7 }))
after_in_sync (d, none) = returned (record d { start_idx = length d.bitstream }) none

abbrev finish : Decoder × Option Frame → Turn
finish (d, frame) = returned d frame

unfoldable pub after_decoding : Config → Decoder × ℕ × Verdict → Turn
after_decoding c (d, i, go_on) = returned (record d { start_idx = length d.bitstream }) none
after_decoding c (d, i, flag_seen) =
    if d.decoded_bits == 7
    then finish (
        enter_frame_end c
          (erase_read (i + 1 - 8) (record d { sample_cnt = d.nitems_read + i - d.frame_start })))
    else again (reset_state (erase_read (i + 1 - 8) d))
after_decoding c (d, i, invalid) = again (reset_state (erase_read (i + 1 - 8) d))
after_decoding c (d, i, too_long) = again (reset_state d)

unfoldable pub turn_in : DecodingState → Config → Decoder → Turn
unfolding after_no_sync after_in_sync after_decoding
turn_in no_sync c d = after_no_sync (no_sync_loop d.bitstream 0 d)
turn_in in_sync c d = after_in_sync (in_sync_loop (drop d.start_idx d.bitstream) d.start_idx d)
turn_in decoding c d =
    after_decoding c (decoding_loop c (drop d.start_idx d.bitstream) d.start_idx d)

-- `_decode`; `none` is fuel that ran out.
unfoldable pub decode_loop : ℕ → Config → Decoder → Option (Decoder × Option Frame)
decode_loop zero c d = none
decode_loop (suc fuel) c d =
    if length d.bitstream == 0 then some (d, none) else elim (turn_in d.state c d) [
      | returned e frame ↦ some (e, frame)
      | again e ↦ decode_loop fuel c e
    ]

-- `(~((input[i] - d_prev_bit_nrzi) % 2)) & 0x1`: 1 where the two have the same parity.
unfoldable pub nrzi_bit : ℕ → ℕ → ℕ
nrzi_bit x prev = if x % 2 == prev % 2 then 1 else 0

-- The fuel that `decode` gives to `decode_loop`.
abbrev pub fuel_of : Decoder → ℕ
fuel_of d = 3 * length d.bitstream + 3

module _ (lfsr : Lfsr) where
  open lfsr use {State, next_bit_descramble}

  -- The first loop of `decode`: the bits for `d_bitstream`, the last input and the register.
  unfoldable pub take_input : Bool → ℕ → State → List ℕ → List ℕ × ℕ × State
  take_input descramble prev s [] = ([], prev, s)
  take_input descramble prev s (x ∷ xs) =
      let b = nrzi_bit x prev in
      let (o, s') = if descramble then next_bit_descramble s b else (b, s) in
      let (bits, last, t) = take_input descramble x s' xs in (o ∷ bits, last, t)

  -- `decode`: it consumes all of its input.
  unfoldable pub decode :
      Config → Decoder → State → List ℕ → Option (Decoder × Option Frame × State)
  unfolding take_input
  decode c d s input =
      let (bits, last, t) = take_input c.does_descramble d.prev_bit_nrzi s input in
      let e = record d { bitstream = d.bitstream ++ bits; prev_bit_nrzi = last } in
      elim (decode_loop (fuel_of e) c e) [ none ↦ none | some (u, frame) ↦ some (u, frame, t) ]
