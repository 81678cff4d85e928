-- ===== src/Ax25/Decoder/Total.antt =====
-- `_decode` and `decode` end, whatever the bits are, and leave a valid decoder.
use satnogs_gr_oot.Base.{length-take, length-append, ℕ, zero, suc, ◌+◌, ◌≤◌, ◌<◌, ◌≡◌, refl, inl}
use satnogs_gr_oot.Base.{inr, Bool-cases, ◌==◌, Option, none, some, List, ◌++◌, arith, length, drop}
use satnogs_gr_oot.Ax25.Decoder.Reports.{AllSound}
use satnogs_gr_oot.Ax25.{max_header_len}
use satnogs_gr_oot.Whitening.{Lfsr}
use satnogs_gr_oot.Ax25.Decoder.{DecodingState, no_sync, in_sync, decoding, Config, Decoder, Frame}
use satnogs_gr_oot.Ax25.Decoder.{new, reset}
use satnogs_gr_oot.Ax25.Decoder.Run.{Turn, returned, again, no_sync_loop, in_sync_loop}
use satnogs_gr_oot.Ax25.Decoder.Run.{decoding_loop, turn_in, decode_loop, take_input, fuel_of}
use satnogs_gr_oot.Ax25.Decoder.Run.{decode}
use satnogs_gr_oot.Ax25.Decoder.Invariant.{FoundIn, IsValid, measure, rank, no_sync_loop-Searched}
use satnogs_gr_oot.Ax25.Decoder.Invariant.{in_sync_loop-Synced}
use satnogs_gr_oot.Ax25.Decoder.Frames.{decoding_loop-Kept}
use satnogs_gr_oot.Ax25.Decoder.Progress.{TurnDone, after_no_sync-TurnDone, after_in_sync-TurnDone}
use satnogs_gr_oot.Ax25.Decoder.Progress.{after_decoding-TurnDone}

FoundIn-zero : (n : ℕ) (found : Option ℕ) → FoundIn 0 (0 + n) found → FoundIn 0 n found
FoundIn-zero n none h = tt
FoundIn-zero n (some j) h = omega arith

turn_in-TurnDone :
    (s : DecodingState) (c : Config) (d : Decoder)
    → IsValid c d
    → d.state ≡ s
    → TurnDone c d (turn_in s c d)
unfolding turn_in
turn_in-TurnDone no_sync c d v e =
    let (k, f) = no_sync_loop-Searched d.bitstream 0 d in
    after_no_sync-TurnDone c d (no_sync_loop d.bitstream 0 d).0 (no_sync_loop d.bitstream 0 d).1 v e
      k (FoundIn-zero (length d.bitstream) _ f)
turn_in-TurnDone in_sync c d v e =
    let r = in_sync_loop (drop d.start_idx d.bitstream) d.start_idx d in
    let (k, f) = in_sync_loop-Synced (drop d.start_idx d.bitstream) d.start_idx d v.waiting in
    after_in_sync-TurnDone c d r.0 r.1 v e k f
turn_in-TurnDone decoding c d v e =
    let r = decoding_loop c (drop d.start_idx d.bitstream) d.start_idx d in
    let (k, f) = decoding_loop-Kept c (drop d.start_idx d.bitstream) d.start_idx d v.received in
    after_decoding-TurnDone c d r.0 r.1 r.2 v e k f

-- A result: the decoder in it is valid, and so is its frame, if any.
abbrev Ends : Config → Option (Decoder × Option Frame) → Type 0
Ends c none = ⊥
Ends c (some r) = IsValid c r.0 × AllSound c r.1

Ends-turn :
    (n : ℕ) (c : Config) (d : Decoder) (turn : Turn)
    → TurnDone c d turn
    → measure d < suc n
    → ((e : Decoder) → IsValid c e → measure e < n → Ends c (decode_loop n c e))
    → Ends c (elim turn [ returned e frame ↦ some (e, frame) | again e ↦ decode_loop n c e ])
Ends-turn n c d (returned e frame) h lt go = h
Ends-turn n c d (again e) (v, less) lt go = go e v (omega arith)

decode_loop-Ends :
    (fuel : ℕ) (c : Config) (d : Decoder)
    → IsValid c d
    → measure d < fuel
    → Ends c (decode_loop fuel c d)
unfolding decode_loop
decode_loop-Ends zero c d v lt = omega arith
decode_loop-Ends (suc n) c d v lt = elim (Bool-cases (length d.bitstream == 0)) [
  | inl e ↦ rw (e, decode_loop) (v, tt)
  | inr e ↦
      rw (e, decode_loop)
        (Ends-turn n c d (turn_in d.state c d) (turn_in-TurnDone d.state c d v refl) lt
          (λ t w less. decode_loop-Ends n c t w less))
]

-- New bits at the end of those held leave a decoder valid.
received-IsValid :
    (c : Config) (d : Decoder) (bits : List ℕ) (last : ℕ)
    → IsValid c d
    → IsValid c (record d { bitstream = d.bitstream ++ bits; prev_bit_nrzi = last })
received-IsValid c d bits last v = record {
  size = v.size;
  received = v.received;
  waiting = v.waiting;
  sync_in = λ e. omega (arith, v.sync_in e, length-append d.bitstream bits);
  sync_start = v.sync_start;
  decoding_in = λ e. omega (arith, v.decoding_in e, length-append d.bitstream bits);
  decoding_start = v.decoding_start;
}

rank_bound : (s : DecodingState) → rank s ≤ 2
rank_bound s = ground arith

-- A fresh decoder whose buffer was allocated in full is valid.
pub new-IsValid :
    (c : Config) (memory : List ℕ)
    → c.max_frame_len + max_header_len + 2 ≤ length memory
    → IsValid c (new c memory)
unfolding new
new-IsValid c memory h = record {
  size = length-take (c.max_frame_len + max_header_len + 2) memory h;
  received = omega arith;
  waiting = omega arith;
  sync_in = λ e. cc;
  sync_start = λ e. cc;
  decoding_in = λ e. cc;
  decoding_start = λ e. cc;
}

-- A reset leaves a valid decoder valid.
pub reset-IsValid : (c : Config) (d : Decoder) → IsValid c d → IsValid c (reset d)
unfolding reset
reset-IsValid c d v = record {
  size = v.size;
  received = omega arith;
  waiting = omega arith;
  sync_in = λ e. cc;
  sync_start = λ e. cc;
  decoding_in = λ e. cc;
  decoding_start = λ e. cc;
}

module _ (lfsr : Lfsr) where
  open lfsr use {State}

  -- What `decode` returns: a valid decoder, and a frame that is sound, if any.
  abbrev pub Decodes : Config → Option (Decoder × Option Frame × State) → Type 0
  Decodes c none = ⊥
  Decodes c (some r) = IsValid c r.0 × AllSound c r.1

  Decodes-wrap :
      (c : Config) (t : State) (r : Option (Decoder × Option Frame))
      → Ends c r
      → Decodes c (elim r [ none ↦ none | some (u, frame) ↦ some (u, frame, t) ])
  Decodes-wrap c t none h = h
  Decodes-wrap c t (some r) h = h

  -- From a valid decoder `decode` ends on every input, whatever its values: it returns a valid
  -- decoder, and if it reports a frame, its payload has at least 14 bytes and fewer than
  -- `max_frame_len`, and it is marked valid unless `crc_check` is false.
  pub decode-Decodes :
      (c : Config) (d : Decoder) (s : State) (input : List ℕ)
      → IsValid c d
      → Decodes c (decode lfsr c d s input)
  unfolding decode
  decode-Decodes c d s input v =
      let r = take_input lfsr c.does_descramble d.prev_bit_nrzi s input in
      let e = record d { bitstream = d.bitstream ++ r.0; prev_bit_nrzi = r.1 } in
      Decodes-wrap c r.2 (decode_loop (fuel_of e) c e) (
        decode_loop-Ends (fuel_of e) c e (received-IsValid c d r.0 r.1 v)
          (omega (arith, rank_bound d.state)))
