-- ===== src/AmsatDuv/Filling.antt =====
-- The words of a frame stay inside the buffers of an `amsat_duv_decoder`.
use satnogs_gr_oot.Base.{ℕ, ◌+◌, ◌*◌, ◌≤◌, ◌<◌}
use satnogs_gr_oot.Base.{◌≡◌, refl, ◌∙◌, inl, inr, Option}
use satnogs_gr_oot.Base.{none, some, List, [], ◌∷◌, arith, ◌==◌}
use satnogs_gr_oot.Base.{Bool-cases, length, length-set}
use satnogs_gr_oot.AmsatDuv.{Config, Decoder}
use satnogs_gr_oot.AmsatDuv.{nearest, process_10b, pack_10b_word, decoding_loop}

-- What the decoding of words keeps, and the room that it needs.
pub record Held (c : Config) (d : Decoder) : Type 0 where
  pub size : length d.words ≡ c.max_frame_len
  pub size_erasures : length d.erasures_indexes ≡ c.max_frame_len
  pub erased : d.erasure_cnt ≤ d.word_cnt

pub record Kept (d t : Decoder) : Type 0 where
  pub state : t.state ≡ d.state
  pub bits : t.bitstream ≡ d.bitstream

-- After some words, or with the last of the frame in round `j`, which began inside the bits.
abbrev pub Filled : Config → ℕ → ℕ → Decoder → Decoder → Option ℕ → Type 0
Filled c i n d t none =
    Kept d t × Held c t × (t.word_cnt < c.max_frame_len) × (t.bitstream_idx ≤ d.bitstream_idx + n)
Filled c i n d t (some j) =
    Kept d t × Held c t × (t.word_cnt ≡ c.max_frame_len) × ((j + 1) * 10 ≤ i * 10 + n)

Filled-next :
    (c : Config) (i n l : ℕ) (d u t : Decoder) (found : Option ℕ)
    → l ≡ 10 + n
    → Kept d u
    → u.bitstream_idx ≡ d.bitstream_idx + 10
    → Filled c (i + 1) n u t found
    → Filled c i l d t found
Filled-next c i n l d u t none e k at (k', h, lt, le) =
    (record { state = k'.state ∙ k.state; bits = k'.bits ∙ k.bits }, h, lt, omega arith)
Filled-next c i n l d u t (some j) e k at (k', h, lt, le) =
    (record { state = k'.state ∙ k.state; bits = k'.bits ∙ k.bits }, h, lt, omega arith)

few :
    (c : Config) (i n : ℕ) (d : Decoder)
    → Held c d
    → d.word_cnt < c.max_frame_len
    → Filled c i n d d none
few c i n d h lt = (record { state = refl; bits = refl }, h, lt, omega arith)

module _ (count_bits16 : ℕ → ℕ) where
  process_10b-Held :
      (c : Config) (word : ℕ) (d : Decoder)
      → Held c d
      → let t = process_10b count_bits16 word d.word_cnt d in
        Held c (record t { word_cnt = t.word_cnt + 1 })
        × Kept d t
        × (t.word_cnt ≡ d.word_cnt)
        × (t.bitstream_idx ≡ d.bitstream_idx)
  unfolding process_10b
  process_10b-Held c word d h =
      let (m, p) = nearest count_bits16 word in
      ground (
        arith,
        length-set d.words d.word_cnt p,
        length-set d.erasures_indexes d.erasure_cnt d.word_cnt,
      )

  pub decoding_loop-Filled :
      (c : Config) (bits : List ℕ) (i : ℕ) (d : Decoder)
      → Held c d
      → d.word_cnt < c.max_frame_len
      → let (t, found) = decoding_loop count_bits16 c bits i d in Filled c i (length bits) d t found
  unfolding decoding_loop
  decoding_loop-Filled c (b0 ∷ b1 ∷ b2 ∷ b3 ∷ b4 ∷ b5 ∷ b6 ∷ b7 ∷ b8 ∷ b9 ∷ rest) i d h lt =
      let word = pack_10b_word (b0 ∷ b1 ∷ b2 ∷ b3 ∷ b4 ∷ b5 ∷ b6 ∷ b7 ∷ b8 ∷ b9 ∷ []) in
      let t = process_10b count_bits16 word d.word_cnt d in
      let u = record t { word_cnt = t.word_cnt + 1; bitstream_idx = t.bitstream_idx + 10 } in
      let (h', k, same, at) = process_10b-Held c word d h in
      elim (Bool-cases (t.word_cnt + 1 == c.max_frame_len)) [
        | inl e ↦
            rw (e, decoding_loop)
              (record { state = k.state; bits = k.bits }, h', ground arith, omega arith)
        | inr e ↦
            rw (e, decoding_loop)
              (Filled-next c i (length rest) _ d u _ _ (omega arith)
                (record { state = k.state; bits = k.bits }) (omega arith)
                (decoding_loop-Filled c rest (i + 1) u
                  (record { size = h'.size; size_erasures = h'.size_erasures; erased = h'.erased })
                  (ground arith)))
      ]
  decoding_loop-Filled c [] i d h lt = few c i _ d h lt
  decoding_loop-Filled c (b0 ∷ []) i d h lt = few c i _ d h lt
  decoding_loop-Filled c (b0 ∷ b1 ∷ []) i d h lt = few c i _ d h lt
  decoding_loop-Filled c (b0 ∷ b1 ∷ b2 ∷ []) i d h lt = few c i _ d h lt
  decoding_loop-Filled c (b0 ∷ b1 ∷ b2 ∷ b3 ∷ []) i d h lt = few c i _ d h lt
  decoding_loop-Filled c (b0 ∷ b1 ∷ b2 ∷ b3 ∷ b4 ∷ []) i d h lt = few c i _ d h lt
  decoding_loop-Filled c (b0 ∷ b1 ∷ b2 ∷ b3 ∷ b4 ∷ b5 ∷ []) i d h lt = few c i _ d h lt
  decoding_loop-Filled c (b0 ∷ b1 ∷ b2 ∷ b3 ∷ b4 ∷ b5 ∷ b6 ∷ []) i d h lt = few c i _ d h lt
  decoding_loop-Filled c (b0 ∷ b1 ∷ b2 ∷ b3 ∷ b4 ∷ b5 ∷ b6 ∷ b7 ∷ []) i d h lt = few c i _ d h lt
  decoding_loop-Filled c (b0 ∷ b1 ∷ b2 ∷ b3 ∷ b4 ∷ b5 ∷ b6 ∷ b7 ∷ b8 ∷ []) i d h lt =
      few c i _ d h lt
