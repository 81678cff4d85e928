-- ===== src/Ax25/RoundTrip/Bytes.antt =====
-- The cases of the first byte: where the two bits behind its first six leave the line.
use satnogs_gr_oot.Base.{ℕ, zero, suc, ◌+◌, ◌%◌, ◌^◌, ◌≤◌, ◌<◌, ◌≡◌, ◌≢◌, refl, ap, ◌∙◌, subst, inl}
use satnogs_gr_oot.Base.{inr, List, [], ◌∷◌, ◌++◌, arith, ◌==◌, Bool-cases, length, IsBytes}
use satnogs_gr_oot.Base.{bit_and, ◌/◌}
use satnogs_gr_oot.Bytes.Laws.{IsBits}
use satnogs_gr_oot.Ax25.Stuffing.{stuff}
use satnogs_gr_oot.Ax25.Encoder.{all_lsb_bits}
use satnogs_gr_oot.Ax25.Encoder.Framing.{all_lsb_bits-IsBits}
use satnogs_gr_oot.Ax25.Encoder.Bounds.{length-all_lsb_bits}
use satnogs_gr_oot.Ax25.Decoder.{Config, Decoder}
use satnogs_gr_oot.Ax25.RoundTrip.Reading.{collect, run_after}
use satnogs_gr_oot.Ax25.RoundTrip.Closing.{flag_bits}
use satnogs_gr_oot.Ax25.RoundTrip.Sync.{PlainRun, run_end}
use satnogs_gr_oot.Ax25.RoundTrip.Preamble.{total, stuff-calm}
use satnogs_gr_oot.Ax25.RoundTrip.Frame.{Framed, InSync, data_eighth, full_eighth, stuffed_eighth}
use satnogs_gr_oot.Ax25.RoundTrip.Frame.{collect-all_lsb_bits, bit_of}

PlainRun-snoc :
    (xs : List ℕ) (ones b : ℕ)
    → PlainRun ones xs
    → run_end ones xs < 5 + b
    → b < 2
    → PlainRun ones (xs ++ (b ∷ []))
      × (run_end ones (xs ++ (b ∷ [])) ≡ run_after (run_end ones xs) b)
PlainRun-snoc [] ones b plain few hb = ((hb, few, tt), refl)
PlainRun-snoc (x ∷ xs) ones b (p, q, plain) few hb =
    let (more, end) = PlainRun-snoc xs (run_after ones x) b plain few hb in ((p, q, more), end)

InSync-line :
    (d : Decoder) (m : ℕ) (line line' : List ℕ) → line ≡ line' → InSync d m line → InSync d m line'
InSync-line d m line line' e s = subst (InSync d m) e s

module _ (c : Config) (d : Decoder) (m b0 b1 b2 b3 b4 b5 : ℕ) (bits more : List ℕ) where
  abbrev six : List ℕ
  six = b0 ∷ b1 ∷ b2 ∷ b3 ∷ b4 ∷ b5 ∷ []

  abbrev tail : List ℕ
  tail = flag_bits ++ more

  -- The sixth bit is behind at most four ones, so seven bits and the eighth follow.
  eighth_read :
      (b6 b7 : ℕ)
      → let o7 : ℕ = run_after (run_end 0 six) b6 in
        InSync d m (six ++ (b6 ∷ (stuff o7 (b7 ∷ bits) ++ tail)))
        → PlainRun 0 (six ++ (b6 ∷ []))
        → o7 ≤ 4
        → b7 < 2
        → IsBits bits
        → length bits % 8 ≡ 0
        → 1 + length (collect 0 0 bits) < c.max_frame_len
        → c.max_frame_len ≤ length d.frame_buffer
        → Framed c d (collect 0 0 (six ++ (b6 ∷ b7 ∷ bits)))
  unfolding stuff
  eighth_read b6 zero s plain few hy h whole fits size =
      data_eighth c d m b0 b1 b2 b3 b4 b5 b6 bits more 0 s plain (omega arith) hy h whole fits size
  eighth_read b6 (suc zero) s plain few hy h whole fits size =
      let o7 : ℕ = run_after (run_end 0 six) b6 in
      elim (Bool-cases (o7 == 4)) [
        | inl four ↦
            full_eighth c d m b0 b1 b2 b3 b4 b5 b6 bits more
              (InSync-line d m _ (six ++ (b6 ∷ 1 ∷ 0 ∷ (stuff 0 bits ++ tail)))
                (rw (four, stuff) refl) s)
              plain (ground arith) h whole fits size
        | inr other ↦
            data_eighth c d m b0 b1 b2 b3 b4 b5 b6 bits more 1
              (InSync-line d m _ (six ++ (b6 ∷ 1 ∷ (stuff (suc o7) bits ++ tail)))
                (rw (other, stuff)
                  (ap (λ n. six ++ (b6 ∷ 1 ∷ (stuff n bits ++ tail)))
                    (let e : o7 + 1 ≡ suc o7 = omega arith in e)))
                s)
              plain (ground arith) hy h whole fits size
      ]
  eighth_read b6 (suc (suc b7)) s plain few hy h whole fits size = absurd (omega arith)

  bits_read :
      (b6 b7 : ℕ)
      → InSync d m (stuff 0 (six ++ (b6 ∷ b7 ∷ bits)) ++ tail)
      → IsBits six
      → total six ≤ 4
      → b6 < 2
      → b7 < 2
      → IsBits bits
      → length bits % 8 ≡ 0
      → 1 + length (collect 0 0 bits) < c.max_frame_len
      → c.max_frame_len ≤ length d.frame_buffer
      → Framed c d (collect 0 0 (six ++ (b6 ∷ b7 ∷ bits)))
  unfolding stuff
  bits_read zero b7 s hs calm h6 h7 h whole fits size =
      let (same, plain, few) = stuff-calm six (0 ∷ b7 ∷ bits) 0 hs (omega arith) in
      eighth_read 0 b7 (InSync-line d m _ _ (ap (λ t. t ++ tail) same) s)
        (PlainRun-snoc six 0 0 plain (omega arith) h6).0 (omega arith) h7 h whole fits size
  bits_read (suc zero) b7 s hs calm h6 h7 h whole fits size =
      let (same, plain, few) = stuff-calm six (1 ∷ b7 ∷ bits) 0 hs (omega arith) in
      let o6 : ℕ = run_end 0 six in
      elim (Bool-cases (o6 == 4)) [
        | inl four ↦
            stuffed_eighth c d m b0 b1 b2 b3 b4 b5 1 bits more b7
              (InSync-line d m _ (six ++ (1 ∷ 0 ∷ (stuff 0 (b7 ∷ bits) ++ tail)))
                (ap (λ t. t ++ tail) same ∙ rw (four, stuff) refl) s)
              (PlainRun-snoc six 0 1 plain (omega arith) h6).0 (ground arith) h7 h whole fits size
        | inr other ↦
            eighth_read 1 b7
              (InSync-line d m _ (six ++ (1 ∷ (stuff (suc o6) (b7 ∷ bits) ++ tail)))
                (ap (λ t. t ++ tail) same
                  ∙ rw (other, stuff)
                      (ap (λ n. six ++ (1 ∷ (stuff n (b7 ∷ bits) ++ tail)))
                        (let e : o6 + 1 ≡ suc o6 = omega arith in e)))
                s)
              (PlainRun-snoc six 0 1 plain (omega arith) h6).0 (ground arith) h7 h whole fits size
      ]
  bits_read (suc (suc b6)) b7 s hs calm h6 h7 h whole fits size = absurd (omega arith)

at_most_four :
    (x : ℕ)
    → x < 2 ^ 8
    → x % 2 ≡ 0
    → x % 64 ≢ 62
    → bit_and x 1
        + (bit_and (x / 2 ^ 1) 1
            + (bit_and (x / 2 ^ 2) 1
                + (bit_and (x / 2 ^ 3) 1 + (bit_and (x / 2 ^ 4) 1 + bit_and (x / 2 ^ 5) 1))))
      ≤ 4
at_most_four x h even ne = omega (arith, bit_of, ne)

-- The bytes of a frame behind its preamble are read up to the flag, if the five bits above the lowest
-- of the first are not all ones.
pub frame_read :
    (c : Config) (d : Decoder) (m x : ℕ) (xs more : List ℕ)
    → InSync d m (stuff 0 (all_lsb_bits (x ∷ xs)) ++ (flag_bits ++ more))
    → IsBytes (x ∷ xs)
    → x % 2 ≡ 0
    → x % 64 ≢ 62
    → 1 + length xs < c.max_frame_len
    → c.max_frame_len ≤ length d.frame_buffer
    → Framed c d (x ∷ xs)
unfolding all_lsb_bits
frame_read c d m x xs more s (p, h) even ne fits size =
    let low : (n : ℕ) → bit_and n 1 < 2 = λ n. omega (arith, bit_of n) in
    let bits : List ℕ = all_lsb_bits xs in
    let same : collect 0 0 bits ≡ xs = collect-all_lsb_bits xs h in
    subst (Framed c d) (collect-all_lsb_bits (x ∷ xs) (p, h)) (
      bits_read c d m (bit_and x 1) (bit_and (x / 2 ^ 1) 1) (bit_and (x / 2 ^ 2) 1)
        (bit_and (x / 2 ^ 3) 1) (bit_and (x / 2 ^ 4) 1) (bit_and (x / 2 ^ 5) 1) bits more
        (bit_and (x / 2 ^ 6) 1) (bit_and (x / 2 ^ 7) 1) s
        (low _, (low _, (low _, (low _, (low _, (low _, tt))))))
        (omega (arith, at_most_four x p even ne)) (low _) (low _) (all_lsb_bits-IsBits xs)
        (omega (arith, length-all_lsb_bits xs)) (omega (arith, ap length same)) size)
