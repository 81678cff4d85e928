-- ===== src/Argos/Total.antt =====
-- `_decode` and `decode` of `argos_ldr_decoder` end, whatever the bits are, and stay inside the buffer.
use satnogs_gr_oot.Base.{◌≤◌, ℕ, zero, suc, ◌+◌, ◌*◌, ◌<◌, refl}
use satnogs_gr_oot.Base.{Option, none, some, List}
use satnogs_gr_oot.Base.{◌++◌, arith, length}
use satnogs_gr_oot.Argos.{State, no_sync, in_sync, decoding, Config, Decoder, Frame}
use satnogs_gr_oot.Argos.Run.{turns}
use satnogs_gr_oot.Argos.Run.{Turn}
use satnogs_gr_oot.Argos.Run.{returned, again}
use satnogs_gr_oot.Argos.Run.{turn_in, kept_or, decode_loop, decode}
use satnogs_gr_oot.Argos.Invariant.{IsValid, AllSound, rank, measure, TurnDone}
use satnogs_gr_oot.Argos.Invariant.{passes_range}
use satnogs_gr_oot.Argos.{new}
use satnogs_gr_oot.Base.{length-take}
use satnogs_gr_oot.Argos.Turns.{turn_in-TurnDone}

-- A fresh decoder for frames of a byte or more is valid, if its buffer was allocated in full.
pub new-IsValid :
    (c : Config) (memory : List ℕ)
    → 1 ≤ c.max_frame_len
    → c.max_frame_len + 2 ≤ length memory
    → IsValid c (new c memory)
unfolding new
new-IsValid c memory pos h = record {
  positive = pos;
  size = length-take (c.max_frame_len + 2) memory h;
  received = omega arith;
  waiting = omega arith;
}

-- A result: the decoder in it is valid, and so is its frame, if any.
abbrev pub Completes : Config → Option (Decoder × Option Frame) → Type 0
Completes c none = ⊥
Completes c (some r) = IsValid c r.0 × AllSound c r.1

AllSound-kept_or :
    (c : Config) (old new : Option Frame)
    → AllSound c old
    → AllSound c new
    → AllSound c (kept_or old new)
AllSound-kept_or c old none h h' = h
AllSound-kept_or c old (some f) h h' = h'

Completes-turn :
    (n : ℕ) (c : Config) (d : Decoder) (status : Option Frame) (turn : Turn)
    → AllSound c status
    → TurnDone c d turn
    → measure c d < suc n
    → ((e : Decoder) (s : Option Frame)
        → IsValid c e
        → AllSound c s
        → measure c e < n
        → Completes c (decode_loop n c e s))
    → Completes c (elim turn [
      | returned e frame ↦ some (e, kept_or status frame)
      | again e frame ↦ decode_loop n c e (kept_or status frame)
    ])
Completes-turn n c d status (returned e frame) a (v, s) lt go =
    (v, AllSound-kept_or c status frame a s)
Completes-turn n c d status (again e frame) a (v, s, less) lt go =
    go e (kept_or status frame) v (AllSound-kept_or c status frame a s) (omega arith)

decode_loop-Completes :
    (fuel : ℕ) (c : Config) (d : Decoder) (status : Option Frame)
    → IsValid c d
    → AllSound c status
    → measure c d < fuel
    → Completes c (decode_loop fuel c d status)
unfolding decode_loop
decode_loop-Completes zero c d status v a lt = omega arith
decode_loop-Completes (suc n) c d status v a lt =
    Completes-turn n c d status (turn_in d.state c d) a (turn_in-TurnDone d.state c d v refl) lt
      (λ e s w b less. decode_loop-Completes n c e s w b less)

rank_bound : (s : State) (c : Config) (d : Decoder) → IsValid c d → rank s c d < turns c
rank_bound no_sync c d v = omega arith
rank_bound in_sync c d v = omega arith
rank_bound decoding c d v = omega (arith, (passes_range c d v).1)

-- From a valid decoder `decode` ends on every input, whatever its values, also where a frame fails
-- its check and its bits are read again: it returns a valid decoder, and a frame that it reports
-- has a payload of a byte or more, fits the limit with its checksum, and is marked valid unless
-- the check is off.
pub decode-Completes :
    (c : Config) (d : Decoder) (input : List ℕ) → IsValid c d → Completes c (decode c d input)
unfolding decode
decode-Completes c d input v =
    let e = record d { bitstream = d.bitstream ++ input } in
    let w : IsValid c e = record {
      positive = v.positive;
      size = v.size;
      received = v.received;
      waiting = v.waiting;
    } in
    decode_loop-Completes (turns c * length e.bitstream + turns c) c e none w tt
      (omega (arith, rank_bound d.state c e w))
