-- ===== src/Ax25/Decoder/Progress.antt =====
-- Every turn of the loop of `_decode` keeps the invariant and, if it goes round again, shrinks the
-- decoder: so the loop ends.
use satnogs_gr_oot.Base.{
  length-drop, Bool-cases, ◌==◌, refl, none, drop, ap, some, ◌-◌, length-set, inl, inr, ℕ,
}
use satnogs_gr_oot.Base.{◌+◌, ◌≤◌, ◌<◌, ◌≡◌, ◌∙◌, arith, length}
use satnogs_gr_oot.Ax25.Decoder.FrameEnd.{enter_frame_end-Ended}
use satnogs_gr_oot.Ax25.Decoder.Reports.{AllSound, enter_frame_end-AllSound}
use satnogs_gr_oot.Ax25.Decoder.{Option, in_sync, decoding, enter_sync_state, enter_decoding_state}
use satnogs_gr_oot.Ax25.Decoder.{erase_read, reset_state, enter_frame_end, no_sync, Config, Decoder}
use satnogs_gr_oot.Ax25.Decoder.Run.{after_decoding, after_in_sync, after_no_sync, returned, again}
use satnogs_gr_oot.Ax25.Decoder.Run.{Turn, Verdict, go_on, flag_seen, invalid, too_long}
use satnogs_gr_oot.Ax25.Decoder.Invariant.{rank, FoundIn, SyncEnd, Synced, Searched}
use satnogs_gr_oot.Ax25.Decoder.Invariant.{measure, IsValid}
use satnogs_gr_oot.Ax25.Decoder.Frames.{DecodedEnd, Kept}

-- A turn that returns leaves a valid decoder and a sound frame, if any; one that goes round again a valid and smaller one.
abbrev pub TurnDone : Config → Decoder → Turn → Type 0
TurnDone c d (returned e frame) = IsValid c e × AllSound c frame
TurnDone c d (again e) = IsValid c e × (measure e < measure d)

pub after_no_sync-TurnDone :
    (c : Config) (d t : Decoder) (found : Option ℕ)
    → IsValid c d
    → d.state ≡ no_sync
    → Searched d t
    → FoundIn 0 (length d.bitstream) found
    → TurnDone c d (after_no_sync (t, found))
unfolding after_no_sync enter_sync_state erase_read
after_no_sync-TurnDone c d t none v s k f = (
  record {
    size = ap length k.buffer ∙ v.size;
    received = omega (arith, k.received, v.received);
    waiting = omega (arith, k.waiting, v.waiting);
    sync_in = λ e. cc (k.state, s);
    sync_start = λ e. cc (k.state, s);
    decoding_in = λ e. cc (k.state, s);
    decoding_start = λ e. cc (k.state, s);
  },
  tt,
)
after_no_sync-TurnDone c d t (some j) v s k f = (
  record {
    size = ap length k.buffer ∙ v.size;
    received = omega arith;
    waiting = omega arith;
    sync_in = λ e. omega (arith, length-drop j t.bitstream, ap length k.bits);
    sync_start = λ e. omega arith;
    decoding_in = λ e. cc;
    decoding_start = λ e. cc;
  },
  omega (arith, length-drop j t.bitstream, ap length k.bits, ap rank s),
)

entered_decoding :
    (d : Decoder)
    → let e = enter_decoding_state d in
      (e.state ≡ decoding)
      × (e.received_bytes ≤ 1)
      × (e.decoded_bits ≤ 7)
      × (e.bitstream ≡ d.bitstream)
      × (e.start_idx ≡ d.start_idx)
      × (length e.frame_buffer ≡ length d.frame_buffer)
unfolding enter_decoding_state
entered_decoding d = ground (arith, length-set d.frame_buffer 0 d.dec_b)

pub after_in_sync-TurnDone :
    (c : Config) (d t : Decoder) (found : Option ℕ)
    → IsValid c d
    → d.state ≡ in_sync
    → Synced d t
    → SyncEnd d.decoded_bits d.start_idx
        (length (drop d.start_idx d.bitstream))
        t.decoded_bits
        found
    → TurnDone c d (after_in_sync (t, found))
unfolding after_in_sync erase_read
after_in_sync-TurnDone c d t none v s k f = (
  record {
    size = ap length k.buffer ∙ v.size;
    received = omega (arith, k.received, v.received);
    waiting = f.0;
    sync_in = λ e. omega arith;
    sync_start = λ e. omega (
      arith,
      f,
      v.sync_start s,
      v.sync_in s,
      length-drop d.start_idx d.bitstream,
      ap length k.bits,
    );
    decoding_in = λ e. cc (k.state, s);
    decoding_start = λ e. cc (k.state, s);
  },
  tt,
)
after_in_sync-TurnDone c d t (some j) v s k f =
    let far : (8 ≤ j) × (j < length d.bitstream) =
      omega (arith, f, v.sync_start s, v.waiting, length-drop d.start_idx d.bitstream) in
    let n : ℕ = j + 1 - 7 in
    let (es, er, ew, eb, ei, ef) = entered_decoding (record (erase_read n t) { start_idx = 7 }) in
    (
      record {
        size = ef ∙ ap length k.buffer ∙ v.size;
        received = omega (arith, er);
        waiting = ew;
        sync_in = λ e. cc (es, e);
        sync_start = λ e. cc (es, e);
        decoding_in =
            λ e. omega (arith, ei, ap length eb, length-drop n t.bitstream, ap length k.bits, far);
        decoding_start = λ e. omega (arith, ei);
      },
      omega (
        arith,
        ap length eb,
        ap rank es,
        length-drop n t.bitstream,
        ap length k.bits,
        ap rank s,
        far,
      ),
    )

-- A decoder that waits for a flag after an end or a fault in a frame.
restarted :
    (c : Config) (d u : Decoder) (n : ℕ)
    → IsValid c d
    → d.state ≡ decoding
    → u.state ≡ no_sync
    → u.received_bytes ≡ 0
    → u.decoded_bits ≡ 0
    → length u.frame_buffer ≡ length d.frame_buffer
    → u.bitstream ≡ drop n d.bitstream
    → IsValid c u × (measure u < measure d)
restarted c d u n v s us ur uw uf ub = (
  record {
    size = uf ∙ v.size;
    received = omega (arith, ur);
    waiting = omega (arith, uw);
    sync_in = λ e. cc (us, e);
    sync_start = λ e. cc (us, e);
    decoding_in = λ e. cc (us, e);
    decoding_start = λ e. cc (us, e);
  },
  omega (arith, ap rank s, ap rank us, ap length ub, length-drop n d.bitstream),
)

pub after_decoding-TurnDone :
    (c : Config) (d t : Decoder) (j : ℕ) (v : Verdict)
    → IsValid c d
    → d.state ≡ decoding
    → Kept d t
    → DecodedEnd c d.start_idx (length (drop d.start_idx d.bitstream)) t j v
    → TurnDone c d (after_decoding c (t, j, v))
unfolding after_decoding erase_read reset_state
after_decoding-TurnDone c d t j go_on v s k f = (
  record {
    size = k.size ∙ v.size;
    received = f;
    waiting = k.waiting v.waiting;
    sync_in = λ e. omega arith;
    sync_start = λ e. cc (k.state, s);
    decoding_in = λ e. omega arith;
    decoding_start = λ e. omega (arith, v.decoding_start s, v.decoding_in s, ap length k.bits);
  },
  tt,
)
after_decoding-TurnDone c d t j flag_seen v s k f =
    let n : ℕ = j + 1 - 8 in
    elim (Bool-cases (t.decoded_bits == 7)) [
      | inl e ↦
          let at_end : Decoder = record (erase_read n t) {
            sample_cnt = t.nitems_read + j - t.frame_start;
          } in
          let x = enter_frame_end-Ended c at_end in
          rw e (
            (restarted c d (enter_frame_end c at_end).0 n v s x.state x.received x.waiting
                (x.size ∙ k.size) (x.bits ∙ ap (drop n) k.bits)).0,
            enter_frame_end-AllSound c at_end (omega (arith, f, k.size, v.size)) f.0,
          )
      | inr e ↦ rw e (
          restarted c d (reset_state (erase_read n t)) n v s refl refl refl k.size
            (ap (drop n) k.bits))
    ]
after_decoding-TurnDone c d t j invalid v s k f =
    let n : ℕ = j + 1 - 8 in
    restarted c d (reset_state (erase_read n t)) n v s refl refl refl k.size (ap (drop n) k.bits)
after_decoding-TurnDone c d t j too_long v s k f =
    restarted c d (reset_state t) 0 v s refl refl refl k.size k.bits
