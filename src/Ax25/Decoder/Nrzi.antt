-- ===== src/Ax25/Decoder/Nrzi.antt =====
-- The first loop of `decode` against the NRZI stage of `ax25_encoder::encode`.
use satnogs_gr_oot.Base.{IsBytes, ℕ, zero, suc, ◌-◌, ◌++◌, ◌<◌, ◌≡◌, refl, ◌∙◌, ap, true, false}
use satnogs_gr_oot.Base.{List, [], ◌∷◌, arith}
use satnogs_gr_oot.Bytes.Laws.{IsBits, msb_bits-IsBits}
use satnogs_gr_oot.Bytes.{msb_bits}
use satnogs_gr_oot.Whitening.{Lfsr}
use satnogs_gr_oot.Whitening.Laws.{frame_bits}
use satnogs_gr_oot.Ax25.Encoder.{nrzi_loop}
use satnogs_gr_oot.Ax25.Encoder.Nrzi.{line, level, nrzi_loop-line}
use satnogs_gr_oot.Ax25.Decoder.Run.{nrzi_bit, take_input}

-- Levels that differ are a 0, equal ones are a 1.
nrzi_bit-change : (prev : ℕ) → prev < 2 → nrzi_bit (1 - prev) prev ≡ 0
unfolding nrzi_bit
nrzi_bit-change zero h = refl
nrzi_bit-change (suc zero) h = refl
nrzi_bit-change (suc (suc n)) h = absurd (omega arith)

nrzi_bit-same : (prev : ℕ) → nrzi_bit prev prev ≡ 1
unfolding nrzi_bit
nrzi_bit-same prev = ground arith

IsBits-append : (xs ys : List ℕ) → IsBits xs → IsBits ys → IsBits (xs ++ ys)
IsBits-append [] ys h k = k
IsBits-append (x ∷ xs) ys (p, h) k = (p, IsBits-append xs ys h k)

frame_bits-IsBits : (xs : List ℕ) → IsBytes xs → IsBits (frame_bits true xs)
frame_bits-IsBits [] h = tt
frame_bits-IsBits (x ∷ xs) (p, h) =
    IsBits-append (msb_bits x) (frame_bits true xs) (msb_bits-IsBits x p) (frame_bits-IsBits xs h)

module _ (lfsr : Lfsr) where
  open lfsr use {State}

  take_input-from :
      (prev : ℕ) (s : State) (bits : List ℕ)
      → prev < 2
      → IsBits bits
      → take_input lfsr false prev s (line prev bits) ≡ (bits, level prev bits, s)
  unfolding take_input line
  take_input-from prev s [] h b = refl
  take_input-from prev s (zero ∷ bits) h (p, b) =
      rw (nrzi_bit-change prev h, take_input-from (1 - prev) s bits (omega arith) b) refl
  take_input-from prev s (suc zero ∷ bits) h (p, b) =
      rw (nrzi_bit-same prev, take_input-from prev s bits h b) refl
  take_input-from prev s (suc (suc x) ∷ bits) h (p, b) = absurd (omega arith)

  pub take_input-line :
      (s : State) (xs : List ℕ)
      → IsBytes xs
      → take_input lfsr false 0 s (frame_bits true (nrzi_loop 0 xs))
        ≡ (frame_bits true xs, level 0 (frame_bits true xs), s)
  take_input-line s xs b =
      ap (take_input lfsr false 0 s) (nrzi_loop-line xs b)
      ∙ take_input-from 0 s (frame_bits true xs) (omega arith) (frame_bits-IsBits xs b)
