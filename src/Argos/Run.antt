-- ===== src/Argos/Run.antt =====
-- `_decode` and `decode` of `argos_ldr_decoder`: the loops over the bits held, one turn of the `while`
-- loop, and the loop itself on fuel. A frame put into `status` stays there until another replaces it.
use satnogs_gr_oot.Base.{bit_or, ℕ, zero, suc, ◌+◌, ◌-◌, ◌*◌, ◌/◌, ◌^◌, bit_and, Bool, true, false}
use satnogs_gr_oot.Base.{Option, none, some, List, [], ◌∷◌, ◌++◌, leb, ◌==◌, if◌then◌else◌, length}
use satnogs_gr_oot.Base.{set, drop}
use satnogs_gr_oot.Ax25.{sync_flag}
use satnogs_gr_oot.Argos.{State, no_sync, in_sync, decoding, Config, Decoder, Frame, reset_state}
use satnogs_gr_oot.Argos.{enter_sync_state, enter_decoding_state, decode_1b, enter_frame_end}

-- `test`: three flags.
abbrev pub three_flags : ℕ
three_flags = bit_or (bit_or sync_flag (sync_flag * 2 ^ 8)) (sync_flag * 2 ^ 16)

-- `d_bitstream.erase(begin, begin + n)` and `incr_nitems_read(n)`
unfoldable pub erase_read : ℕ → Decoder → Decoder
erase_read n d = record d { bitstream = drop n d.bitstream; nitems_read = d.nitems_read + n }

-- `case NO_SYNC`: the index of the bit that completes the flags.
unfoldable pub no_sync_loop : List ℕ → ℕ → Decoder → Decoder × Option ℕ
no_sync_loop [] i d = (d, none)
no_sync_loop (b ∷ bits) i d =
    let t = decode_1b b d in
    elim (three_flags == t.shift_reg) [ true ↦ (t, some i) | false ↦ no_sync_loop bits (i + 1) t ]

-- `case IN_SYNC`: the index of the last bit of a byte that is no flag.
unfoldable pub in_sync_bit : ℕ → Decoder → Decoder × Bool
in_sync_bit b d =
    let t = decode_1b b d in
    let u = record t { decoded_bits = t.decoded_bits + 1 } in
    if u.decoded_bits == 8
    then if bit_and u.shift_reg 0xFF == sync_flag
      then (record u { decoded_bits = 0 }, false)
      else (u, true)
    else (u, false)

unfoldable pub in_sync_loop : List ℕ → ℕ → Decoder → Decoder × Option ℕ
in_sync_loop [] i d = (d, none)
in_sync_loop (b ∷ bits) i d =
    let (t, found) = in_sync_bit b d in
    elim found [ true ↦ (t, some i) | false ↦ in_sync_loop bits (i + 1) t ]

-- `case DECODING`: how one bit ends the loop, or does not.
pub data Verdict : Type 0 where
  go_on flag_seen invalid too_long : Verdict

unfoldable pub decoding_bit : Config → ℕ → Decoder → Decoder × Verdict
decoding_bit c b d =
    let t = decode_1b b d in
    let low = bit_and t.shift_reg 0xFF in
    if low == sync_flag
    then (t, flag_seen)
    else if bit_and low 0xfc == 0x7c
    then (record t { dec_b = t.dec_b / 2 }, go_on)
    else if bit_and low 0xfe == 0xfe
    then (t, invalid)
    else if t.decoded_bits + 1 == 8
    then (
      record t {
        frame_buffer = set t.frame_buffer t.received_bytes t.dec_b;
        received_bytes = t.received_bytes + 1;
        decoded_bits = 0;
      },
      if leb c.max_frame_len (t.received_bytes + 1) then too_long else go_on,
    )
    else (record t { decoded_bits = t.decoded_bits + 1 }, go_on)

-- The state, the index of the bit that ended the loop, and how.
unfoldable pub decoding_loop : Config → List ℕ → ℕ → Decoder → Decoder × ℕ × Verdict
decoding_loop c [] i d = (d, i, go_on)
decoding_loop c (b ∷ bits) i d =
    let (t, v) = decoding_bit c b d in
    elim v [
      | go_on ↦ decoding_loop c bits (i + 1) t
      | flag_seen ↦ (t, i, flag_seen)
      | invalid ↦ (t, i, invalid)
      | too_long ↦ (t, i, too_long)
    ]

-- One turn of the `while` loop: it returns or goes round again, perhaps with a frame.
pub data Turn : Type 0 where
  returned again : Decoder → Option Frame → Turn

unfoldable pub after_no_sync : Decoder × Option ℕ → Turn
after_no_sync (d, some i) =
    let e = enter_sync_state (erase_read (i + 1) d) in
    again (record e { frame_start = e.nitems_read; start_idx = 0 }) none
after_no_sync (d, none) =
    let e = record d { nitems_read = d.nitems_read + length d.bitstream } in
    returned (record e { bitstream = [] }) none

unfoldable pub after_in_sync : Decoder × Option ℕ → Turn
after_in_sync (d, some i) = again (enter_decoding_state (record d { start_idx = i + 1 })) none
after_in_sync (d, none) = returned (record d { start_idx = length d.bitstream }) none

-- After `enter_frame_end` for the flag that ends at bit `i`.
unfoldable pub after_frame_end : ℕ → Decoder × Option Frame × Bool → Turn
after_frame_end i (d, frame, true) =
    let e = erase_read (i + 1) d in returned (record e { start_idx = length e.bitstream }) frame
after_frame_end i (d, frame, false) = again d frame

unfoldable pub after_decoding : Config → Decoder × ℕ × Verdict → Turn
unfolding after_frame_end
after_decoding c (d, i, go_on) = returned (record d { start_idx = length d.bitstream }) none
after_decoding c (d, i, flag_seen) =
    after_frame_end i
      (enter_frame_end c (record d { sample_cnt = d.nitems_read + i - d.frame_start }))
after_decoding c (d, i, invalid) = again (reset_state d) none
after_decoding c (d, i, too_long) = again (reset_state d) none

unfoldable pub turn_in : State → Config → Decoder → Turn
unfolding after_no_sync after_in_sync after_decoding
turn_in no_sync c d = after_no_sync (no_sync_loop d.bitstream 0 d)
turn_in in_sync c d = after_in_sync (in_sync_loop (drop d.start_idx d.bitstream) d.start_idx d)
turn_in decoding c d =
    after_decoding c (decoding_loop c (drop d.start_idx d.bitstream) d.start_idx d)

-- The frame in `status` after one more was put there, or none.
abbrev pub kept_or : Option Frame → Option Frame → Option Frame
kept_or old none = old
kept_or old (some f) = some f

-- `_decode`, with the frame in `status` so far; `none` is fuel that ran out.
unfoldable pub decode_loop : ℕ → Config → Decoder → Option Frame → Option (Decoder × Option Frame)
decode_loop zero c d status = none
decode_loop (suc fuel) c d status = elim (turn_in d.state c d) [
  | returned e frame ↦ some (e, kept_or status frame)
  | again e frame ↦ decode_loop fuel c e (kept_or status frame)
]

-- The turns that a bit is good for.
abbrev pub turns : Config → ℕ
turns c = 8 * c.max_frame_len + 20

-- `decode`: it consumes all of its input.
unfoldable pub decode : Config → Decoder → List ℕ → Option (Decoder × Option Frame)
decode c d input =
    let e = record d { bitstream = d.bitstream ++ input } in
    decode_loop (turns c * length e.bitstream + turns c) c e none
