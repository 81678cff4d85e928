-- ===== src/Ax25/Decoder/Frames.antt =====
-- The loop of `case DECODING`: what it keeps, and where it stops.
use satnogs_gr_oot.Base.{refl, inl, inr, ℕ, suc, ◌+◌, ◌≤◌, ◌<◌, ◌≡◌, ◌∙◌, ◌⊎◌, List, [], ◌∷◌, arith}
use satnogs_gr_oot.Base.{length}
use satnogs_gr_oot.Ax25.Decoder.{Config, Decoder}
use satnogs_gr_oot.Ax25.Decoder.Run.{Verdict, go_on, flag_seen, invalid, too_long, decoding_bit}
use satnogs_gr_oot.Ax25.Decoder.Run.{decoding_loop}
use satnogs_gr_oot.Ax25.Decoder.Invariant.{Decoded, decoding_bit-Decoded}

abbrev pub DecodedEnd : Config → ℕ → ℕ → Decoder → ℕ → Verdict → Type 0
DecodedEnd c i n t j go_on = t.received_bytes ≤ c.max_frame_len + 1
DecodedEnd c i n t j flag_seen = (t.received_bytes ≤ c.max_frame_len + 1) × (i ≤ j) × (j < i + n)
DecodedEnd c i n t j invalid = (t.received_bytes ≤ c.max_frame_len + 1) × (i ≤ j) × (j < i + n)
DecodedEnd c i n t j too_long = 0 < n

Verdict-cases : (v : Verdict) → (v ≡ go_on) ⊎ (v ≡ flag_seen) ⊎ (v ≡ invalid) ⊎ (v ≡ too_long)
Verdict-cases v = ground arith

pub record Kept (d t : Decoder) : Type 0 where
  pub state : t.state ≡ d.state
  pub size : length t.frame_buffer ≡ length d.frame_buffer
  pub bits : t.bitstream ≡ d.bitstream
  pub waiting : d.decoded_bits ≤ 7 → t.decoded_bits ≤ 7

Kept-trans : {d t u : Decoder} → Kept d t → Kept t u → Kept d u
Kept-trans p q = record {
  state = q.state ∙ p.state;
  size = q.size ∙ p.size;
  bits = q.bits ∙ p.bits;
  waiting = λ h. q.waiting (p.waiting h);
}

Decoded-Kept : {c : Config} {d t : Decoder} → Decoded c d t → Kept d t
Decoded-Kept p = record { state = p.state; size = p.size; bits = p.bits; waiting = p.waiting }

DecodedEnd-suc :
    (c : Config) (i n : ℕ) (t : Decoder) (j : ℕ) (v : Verdict)
    → DecodedEnd c (i + 1) n t j v
    → DecodedEnd c i (suc n) t j v
DecodedEnd-suc c i n t j go_on h = h
DecodedEnd-suc c i n t j flag_seen h = omega arith
DecodedEnd-suc c i n t j invalid h = omega arith
DecodedEnd-suc c i n t j too_long h = omega arith

pub decoding_loop-Kept :
    (c : Config) (bits : List ℕ) (i : ℕ) (d : Decoder)
    → d.received_bytes ≤ c.max_frame_len + 1
    → let (t, j, v) = decoding_loop c bits i d in Kept d t × DecodedEnd c i (length bits) t j v
unfolding decoding_loop
decoding_loop-Kept c [] i d h =
    (record { state = refl; size = refl; bits = refl; waiting = λ w. w }, h)
decoding_loop-Kept c (b ∷ bits) i d h =
    let (step, room) = decoding_bit-Decoded c b d in
    elim (Verdict-cases (decoding_bit c b d).1) [
      | inl e ↦
          let (more, end) =
            decoding_loop-Kept c bits (i + 1) (decoding_bit c b d).0 (room h (λ f. cc)) in
          rw (e, decoding_loop)
            (
              Kept-trans (Decoded-Kept step) more,
              DecodedEnd-suc c i (length bits)
                  (decoding_loop c bits (i + 1) (decoding_bit c b d).0).0 _ _ end,
            )
      | inr (inl e) ↦
          rw (e, decoding_loop) (Decoded-Kept step, (room h (λ f. cc), omega arith, omega arith))
      | inr (inr (inl e)) ↦
          rw (e, decoding_loop) (Decoded-Kept step, (room h (λ f. cc), omega arith, omega arith))
      | inr (inr (inr e)) ↦
          rw (e, decoding_loop)
            (Decoded-Kept step, (let z : 0 < suc (length bits) = omega arith in z))
    ]
