-- ===== src/Argos/Turns.antt =====
-- Every turn of the loop of `argos_ldr_decoder` keeps the invariant and, if it goes round again, lowers
-- the measure.
use satnogs_gr_oot.Base.{ℕ, ◌+◌, ◌-◌, ◌*◌, ◌≤◌, ◌≡◌, refl, ap, ◌∙◌}
use satnogs_gr_oot.Base.{subst, Option, none, some}
use satnogs_gr_oot.Base.{arith, length, drop}
use satnogs_gr_oot.Base.{length-set}
use satnogs_gr_oot.Ax25.{sync_flag}
use satnogs_gr_oot.Argos.{State, no_sync, in_sync, decoding, Config, Decoder}
use satnogs_gr_oot.Argos.{enter_sync_state, enter_decoding_state}
use satnogs_gr_oot.Argos.Run.{erase_read, no_sync_loop}
use satnogs_gr_oot.Argos.Run.{Verdict, go_on, flag_seen, invalid, too_long}
use satnogs_gr_oot.Argos.Run.{after_no_sync, after_in_sync}
use satnogs_gr_oot.Argos.Run.{after_decoding, turn_in}
use satnogs_gr_oot.Argos.Step.{window, counted, Kept, Room, LoopEnd, decoding_loop-LoopEnd}
use satnogs_gr_oot.Argos.Step.{decoding_loop-after_flag}
use satnogs_gr_oot.Argos.Invariant.{IsValid, rank, TurnDone}
use satnogs_gr_oot.Argos.Invariant.{passes_range, dropped, lowered, FoundIn, Searched, Synced}
use satnogs_gr_oot.Argos.Invariant.{no_sync_loop-Searched, in_sync_loop-Synced}
use satnogs_gr_oot.Argos.FrameEnd.{
  passes-falls, enter_frame_end-FrameEnd, given_up, after_frame_end-TurnDone,
}

after_no_sync-TurnDone :
    (c : Config) (d t : Decoder) (found : Option ℕ)
    → IsValid c d
    → Searched d t
    → FoundIn 0 (length d.bitstream) found
    → TurnDone c d (after_no_sync (t, found))
unfolding after_no_sync enter_sync_state erase_read
after_no_sync-TurnDone c d t none v s f = (
  record {
    positive = v.positive;
    size = ap length s.buffer ∙ v.size;
    received = omega (arith, s.received, v.received);
    waiting = omega (arith, s.waiting, v.waiting);
  },
  tt,
)
after_no_sync-TurnDone c d t (some i) v s f = (
  record {
    positive = v.positive;
    size = ap length s.buffer ∙ v.size;
    received = omega arith;
    waiting = omega arith;
  },
  tt,
  dropped c d (record t { bitstream = drop (i + 1) t.bitstream }) i (8 * c.max_frame_len + 18)
      (rank d.state c d) (omega arith) (ap (drop (i + 1)) s.bits) (omega arith),
)

entered_decoding :
    (c : Config) (d : Decoder)
    → 1 ≤ c.max_frame_len
    → let e = enter_decoding_state d in
      (e.state ≡ decoding)
      × (e.received_bytes ≤ c.max_frame_len)
      × (e.decoded_bits ≤ 7)
      × (e.bitstream ≡ d.bitstream)
      × (length e.frame_buffer ≡ length d.frame_buffer)
unfolding enter_decoding_state
entered_decoding c d pos = ground (arith, length-set d.frame_buffer 0 d.dec_b)

after_in_sync-TurnDone :
    (c : Config) (d t : Decoder) (found : Option ℕ)
    → IsValid c d
    → d.state ≡ in_sync
    → Synced d t
    → (found ≡ none → t.decoded_bits ≤ 7)
    → TurnDone c d (after_in_sync (t, found))
unfolding after_in_sync
after_in_sync-TurnDone c d t none v e s w = (
  record {
    positive = v.positive;
    size = ap length s.buffer ∙ v.size;
    received = omega (arith, s.received, v.received);
    waiting = w refl;
  },
  tt,
)
after_in_sync-TurnDone c d t (some i) v e s w =
    let u = enter_decoding_state (record t { start_idx = i + 1 }) in
    let (es, er, ew, eb, ef) = entered_decoding c (record t { start_idx = i + 1 }) v.positive in
    let valid : IsValid c u = record {
      positive = v.positive;
      size = ef ∙ (ap length s.buffer ∙ v.size);
      received = er;
      waiting = ew;
    } in
    let range = passes_range c u valid in
    (
      valid,
      tt,
      lowered c d u (rank u.state c u) (rank d.state c d) (eb ∙ s.bits)
          (omega (arith, range.1, ap (λ x. rank x c u) es, ap (λ x. rank x c d) e)),
    )

after_decoding-TurnDone :
    (c : Config) (d t : Decoder) (j : ℕ) (verdict : Verdict)
    → IsValid c d
    → d.state ≡ decoding
    → Kept d t
    → LoopEnd c d t d.start_idx (length (drop d.start_idx d.bitstream)) j verdict
    → (window d ≡ sync_flag → verdict ≡ flag_seen → counted d + 1 ≤ counted t)
    → TurnDone c d (after_decoding c (t, j, verdict))
unfolding after_decoding
after_decoding-TurnDone c d t j go_on v e k end again_flag = (
  record {
    positive = v.positive;
    size = k.size ∙ v.size;
    received = end.received;
    waiting = end.waiting;
  },
  tt,
)
after_decoding-TurnDone c d t j flag_seen v e k (room, le, w, low, high) again_flag =
    let u = record t { sample_cnt = t.nitems_read + j - t.frame_start } in
    let valid : IsValid c u = record {
      positive = v.positive;
      size = k.size ∙ v.size;
      received = room.received;
      waiting = room.waiting;
    } in
    let less = passes-falls c d u valid le w (λ f. again_flag f refl) in
    after_frame_end-TurnDone c d u j _ v e
      (record { state = k.state; size = k.size; bits = k.bits }) valid
      (lowered c d u (rank t.state c u) (rank d.state c d) k.bits
        (omega (arith, less, ap (λ x. rank x c u) (k.state ∙ e), ap (λ x. rank x c d) e)))
      (enter_frame_end-FrameEnd c u valid)
after_decoding-TurnDone c d t j invalid v e k end again_flag =
    let (valid, falls) = given_up c d t v e k in (valid, tt, falls)
after_decoding-TurnDone c d t j too_long v e k end again_flag =
    let (valid, falls) = given_up c d t v e k in (valid, tt, falls)

pub turn_in-TurnDone :
    (s : State) (c : Config) (d : Decoder)
    → IsValid c d
    → d.state ≡ s
    → TurnDone c d (turn_in s c d)
unfolding turn_in
turn_in-TurnDone no_sync c d v e =
    let (s, f) = no_sync_loop-Searched d.bitstream 0 d in
    let z : 0 + length d.bitstream ≡ length d.bitstream = omega arith in
    after_no_sync-TurnDone c d _ _ v s
      (subst (λ n. FoundIn 0 n (no_sync_loop d.bitstream 0 d).1) z f)
turn_in-TurnDone in_sync c d v e =
    let (s, w) = in_sync_loop-Synced (drop d.start_idx d.bitstream) d.start_idx d v.waiting in
    after_in_sync-TurnDone c d _ _ v e s w
turn_in-TurnDone decoding c d v e =
    let bits = drop d.start_idx d.bitstream in
    let r : Room c d = record { received = v.received; waiting = v.waiting } in
    let (k, end) = decoding_loop-LoopEnd c bits d.start_idx d r in
    after_decoding-TurnDone c d _ _ _ v e k end
      (λ w. decoding_loop-after_flag c bits d.start_idx d r w)
