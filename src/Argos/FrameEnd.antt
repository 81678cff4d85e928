-- ===== src/Argos/FrameEnd.antt =====
-- The end of a frame of `argos_ldr_decoder`: what `enter_frame_end` returns, and the turns that it ends.
use satnogs_gr_oot.Base.{ℕ, ◌+◌, ◌-◌, ◌≤◌, ◌<◌, ◌≡◌, refl, ap, ◌∙◌}
use satnogs_gr_oot.Base.{subst, sym, ◌⊎◌, inl, inr, Bool, true, false, Option, none, some}
use satnogs_gr_oot.Base.{arith, ltb, ◌==◌, Bool-cases, length, take}
use satnogs_gr_oot.Base.{length-take}
use satnogs_gr_oot.Ax25.{sync_flag}
use satnogs_gr_oot.Argos.{decoding, Config, Decoder, Frame, reset_state}
use satnogs_gr_oot.Argos.{frame_check}
use satnogs_gr_oot.Argos.{enter_frame_end}
use satnogs_gr_oot.Argos.Run.{erase_read}
use satnogs_gr_oot.Argos.Run.{after_frame_end}
use satnogs_gr_oot.Argos.Step.{window, counted, Kept}
use satnogs_gr_oot.Argos.Invariant.{IsValid, IsSound, passes, rank, measure, TurnDone}
use satnogs_gr_oot.Argos.Invariant.{passes_range, lowered}

-- What `enter_frame_end` returns.
abbrev FrameEnd : Config → Decoder → Decoder × Option Frame × Bool → Type 0
FrameEnd c d r =
    (r ≡ (reset_state d, none, false))
    ⊎ (r ≡ (d, none, false))
    ⊎ ((f : Frame) × IsSound c f × (r ≡ (reset_state d, some f, true)))
    ⊎ ((f : Frame) × IsSound c f × (r ≡ (reset_state d, some f, false)))

pub enter_frame_end-FrameEnd :
    (c : Config) (d : Decoder) → IsValid c d → FrameEnd c d (enter_frame_end c d)
unfolding enter_frame_end
enter_frame_end-FrameEnd c d v =
    let size : length (take (d.received_bytes - 2) d.frame_buffer) ≡ d.received_bytes - 2 =
      length-take (d.received_bytes - 2) d.frame_buffer (omega (arith, v.size, v.received)) in
    elim (Bool-cases (ltb d.received_bytes (1 + 2))) [
      | inl short ↦ rw (short, enter_frame_end) (inl refl)
      | inr long ↦
          let enough : 3 ≤ d.received_bytes = ground arith in
          elim (Bool-cases (frame_check d.received_bytes d.frame_buffer)) [
            | inl good ↦
                rw (long, good, enter_frame_end)
                  (inr (
                    inr (
                      inl (
                        _,
                        record {
                          shortest = omega (arith, size);
                          longest = omega (arith, size, v.received);
                          checked = inl refl;
                        },
                        refl,
                      ))))
            | inr bad ↦ elim (Bool-cases c.crc_check) [
              | inl on ↦ rw (long, bad, on, enter_frame_end) (inr (inl refl))
              | inr off ↦
                  rw (long, bad, off, enter_frame_end)
                    (inr (
                      inr (
                        inr (
                          _,
                          record {
                            shortest = omega (arith, size);
                            longest = omega (arith, size, v.received);
                            checked = inr refl;
                          },
                          refl,
                        ))))
            ]
          ]
    ]

-- A pass that ends at a flag and goes on with the same frame.
pub passes-falls :
    (c : Config) (d t : Decoder)
    → IsValid c t
    → counted d ≤ counted t
    → window t ≡ sync_flag
    → (window d ≡ sync_flag → counted d + 1 ≤ counted t)
    → passes c t < passes c d
passes-falls c d t v le w more =
    let flag : (window t == sync_flag) ≡ true = ground arith in
    elim (Bool-cases (window d == sync_flag)) [
      | inl e ↦
          let e' : window d ≡ sync_flag = ground arith in
          rw (e, flag) (omega (arith, more e', v.received, v.waiting))
      | inr e ↦ rw (e, flag) (omega (arith, v.received, v.waiting))
    ]

-- The decoder waits for flags again.
pub given_up :
    (c : Config) (d t : Decoder)
    → IsValid c d
    → d.state ≡ decoding
    → Kept d t
    → IsValid c (reset_state t) × (measure c (reset_state t) < measure c d)
unfolding reset_state
given_up c d t v e k = (
  record {
    positive = v.positive;
    size = k.size ∙ v.size;
    received = omega arith;
    waiting = omega arith;
  },
  lowered c d (reset_state t) 0 (rank d.state c d) k.bits
      (omega (arith, (passes_range c d v).0, ap (λ x. rank x c d) e)),
)

pub after_frame_end-TurnDone :
    (c : Config) (d t : Decoder) (j : ℕ) (r : Decoder × Option Frame × Bool)
    → IsValid c d
    → d.state ≡ decoding
    → Kept d t
    → IsValid c t
    → measure c t < measure c d
    → FrameEnd c t r
    → TurnDone c d (after_frame_end j r)
unfolding after_frame_end erase_read reset_state
after_frame_end-TurnDone c d t j r v e k v' less (inl is) =
    let (valid, falls) = given_up c d t v e k in
    subst (λ r. TurnDone c d (after_frame_end j r)) (sym is) (valid, tt, falls)
after_frame_end-TurnDone c d t j r v e k v' less (inr (inl is)) =
    subst (λ r. TurnDone c d (after_frame_end j r)) (sym is) (v', tt, less)
after_frame_end-TurnDone c d t j r v e k v' less (inr (inr (inl (f, sound, is)))) =
    let (valid, falls) = given_up c d t v e k in
    subst (λ r. TurnDone c d (after_frame_end j r)) (sym is)
      (
        record {
          positive = valid.positive;
          size = valid.size;
          received = valid.received;
          waiting = valid.waiting;
        },
        sound,
      )
after_frame_end-TurnDone c d t j r v e k v' less (inr (inr (inr (f, sound, is)))) =
    let (valid, falls) = given_up c d t v e k in
    subst (λ r. TurnDone c d (after_frame_end j r)) (sym is) (valid, sound, falls)
