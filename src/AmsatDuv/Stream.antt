-- ===== src/AmsatDuv/Stream.antt =====
-- The words of a frame, ten bits each, through the loop of `amsat_duv_decoder`.
use satnogs_gr_oot.Base.{ℕ, suc, ◌+◌, ◌*◌, ◌/◌, ◌%◌, ◌^◌, ◌<◌, ◌≡◌, refl, ap}
use satnogs_gr_oot.Base.{◌∙◌, true, false, Option, some, List, [], ◌∷◌}
use satnogs_gr_oot.Base.{◌++◌, arith, ◌==◌, ==_iff, all_below}
use satnogs_gr_oot.Base.{all_below_lem, length, set}
use satnogs_gr_oot.Base.{written}
use satnogs_gr_oot.AmsatDuv.{Config, Decoder}
use satnogs_gr_oot.AmsatDuv.{process_10b, pack_10b_word, decoding_loop}
use satnogs_gr_oot.AmsatDuv.Nearest.{Counts}
use satnogs_gr_oot.AmsatDuv.Words.{Encodes, process_10b-encoded}

-- The ten bits of a word in the order of the line.
abbrev pub word_bits : ℕ → List ℕ
word_bits w =
    w / 2 ^ 9 % 2
    ∷ w / 2 ^ 8 % 2
    ∷ w / 2 ^ 7 % 2
    ∷ w / 2 ^ 6 % 2
    ∷ w / 2 ^ 5 % 2
    ∷ w / 2 ^ 4 % 2
    ∷ w / 2 ^ 3 % 2
    ∷ w / 2 ^ 2 % 2
    ∷ w / 2 ^ 1 % 2
    ∷ w % 2
    ∷ []

packed : all_below 1024 (λ w. pack_10b_word (word_bits w) == w) ≡ true
unfolding all_below pack_10b_word
packed = refl

pack-word_bits : (w : ℕ) → w < 2 ^ 10 → pack_10b_word (word_bits w) ≡ w
pack-word_bits w lt =
    (==_iff _ w).0 (all_below_lem 1024 (λ w. pack_10b_word (word_bits w) == w) w packed lt)

abbrev pub stream : List ℕ → List ℕ
stream [] = []
stream (w ∷ ws) = word_bits w ++ stream ws

-- Words of ten bits for the bytes, of either table each.
abbrev pub Sent : List ℕ → List ℕ → Type 0
Sent [] [] = Unit
Sent [] (w ∷ ws) = ⊥
Sent (b ∷ bs) [] = ⊥
Sent (b ∷ bs) (w ∷ ws) = ((b < 2 ^ 8) × (w < 2 ^ 10) × Encodes b w) × Sent bs ws

pub length-Sent : (bs ws : List ℕ) → Sent bs ws → length ws ≡ length bs
length-Sent [] [] s = refl
length-Sent [] (w ∷ ws) s = absurd s
length-Sent (b ∷ bs) [] s = absurd s
length-Sent (b ∷ bs) (w ∷ ws) (s, more) = ap suc (length-Sent bs ws more)

pub length-stream : (ws : List ℕ) → length (stream ws) ≡ 10 * length ws
length-stream [] = omega arith
length-stream (w ∷ ws) = omega (arith, length-stream ws)

module _ (count_bits16 : ℕ → ℕ) where
  -- A round of the loop, by what `process_10b` makes of the decoder.
  round_with : Config → List ℕ → ℕ → Decoder → Decoder × Option ℕ
  round_with c rest i t =
      let u = record t { word_cnt = t.word_cnt + 1 } in
      elim (u.word_cnt == c.max_frame_len) [
        | true ↦ (u, some i)
        | false ↦
            decoding_loop count_bits16 c rest (i + 1)
              (record u { bitstream_idx = u.bitstream_idx + 10 })
      ]

  a_round :
      (c : Config) (b0 b1 b2 b3 b4 b5 b6 b7 b8 b9 : ℕ) (rest : List ℕ) (i : ℕ) (d t : Decoder)
      → process_10b count_bits16
          (pack_10b_word (b0 ∷ b1 ∷ b2 ∷ b3 ∷ b4 ∷ b5 ∷ b6 ∷ b7 ∷ b8 ∷ b9 ∷ []))
          d.word_cnt
          d
        ≡ t
      → decoding_loop count_bits16 c (b0 ∷ b1 ∷ b2 ∷ b3 ∷ b4 ∷ b5 ∷ b6 ∷ b7 ∷ b8 ∷ b9 ∷ rest) i d
        ≡ round_with c rest i t
  unfolding decoding_loop round_with
  a_round c b0 b1 b2 b3 b4 b5 b6 b7 b8 b9 rest i d t e = ap (round_with c rest i) e

  last_round :
      (c : Config) (rest : List ℕ) (i : ℕ) (t : Decoder)
      → t.word_cnt + 1 ≡ c.max_frame_len
      → round_with c rest i t ≡ (record t { word_cnt = t.word_cnt + 1 }, some i)
  unfolding round_with
  last_round c rest i t e =
      let test : (t.word_cnt + 1 == c.max_frame_len) ≡ true = ground arith in rw (test, round_with)

  next_round :
      (c : Config) (rest : List ℕ) (i : ℕ) (t : Decoder)
      → t.word_cnt + 1 < c.max_frame_len
      → round_with c rest i t
        ≡ decoding_loop count_bits16 c rest
            (i + 1)
            (record t { word_cnt = t.word_cnt + 1; bitstream_idx = t.bitstream_idx + 10 })
  unfolding round_with
  next_round c rest i t e =
      let test : (t.word_cnt + 1 == c.max_frame_len) ≡ false = ground arith in rw (test, round_with)

  one_word :
      Counts count_bits16
      → (c : Config) (b w : ℕ) (rest : List ℕ) (i : ℕ) (d : Decoder)
      → (b < 2 ^ 8) × (w < 2 ^ 10) × Encodes b w
      → decoding_loop count_bits16 c (word_bits w ++ rest) i d
        ≡ round_with c rest i (record d { words = set d.words d.word_cnt b })
  one_word counts c b w rest i d (lt, lt', own) = a_round c _ _ _ _ _ _ _ _ _ _ rest i d _ (
      ap (λ x. process_10b count_bits16 x d.word_cnt d) (pack-word_bits w lt')
      ∙ process_10b-encoded count_bits16 counts b w d.word_cnt d lt own)

  -- The loop over the words of what is missing of a frame.
  pub decoding_loop-stream :
      Counts count_bits16
      → (c : Config) (b : ℕ) (bs : List ℕ) (w : ℕ) (ws rest : List ℕ) (i : ℕ) (d : Decoder)
      → Sent (b ∷ bs) (w ∷ ws)
      → d.word_cnt + length (b ∷ bs) ≡ c.max_frame_len
      → decoding_loop count_bits16 c (stream (w ∷ ws) ++ rest) i d ≡ (
        record d {
          words = written d.words d.word_cnt (b ∷ bs);
          word_cnt = c.max_frame_len;
          bitstream_idx = d.bitstream_idx + 10 * length bs;
        },
        some (i + length bs),
      )
  decoding_loop-stream counts c b [] w [] rest i d (one, s) whole =
      let t = record d { words = set d.words d.word_cnt b } in
      one_word counts c b w rest i d one ∙ last_round c rest i t (omega arith) ∙ ground arith
  decoding_loop-stream counts c b [] w (w' ∷ ws) rest i d (one, s) whole = absurd s
  decoding_loop-stream counts c b (b' ∷ bs) w [] rest i d (one, s) whole = absurd s
  decoding_loop-stream counts c b (b' ∷ bs) w (w' ∷ ws) rest i d (one, s) whole =
      let t = record d { words = set d.words d.word_cnt b } in
      one_word counts c b w (stream (w' ∷ ws) ++ rest) i d one
      ∙ next_round c (stream (w' ∷ ws) ++ rest) i t (omega arith)
      ∙ decoding_loop-stream counts c b' bs w' ws rest (i + 1)
          (record t { word_cnt = d.word_cnt + 1; bitstream_idx = d.bitstream_idx + 10 }) s
          (omega arith)
      ∙ ground arith
