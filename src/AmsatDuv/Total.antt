-- ===== src/AmsatDuv/Total.antt =====
-- `decode` of `amsat_duv_decoder` returns, and stays inside what it holds.
use satnogs_gr_oot.Base.{length-drop, ℕ, suc, ◌+◌, ◌-◌, ◌*◌, ◌≤◌, bit_and}
use satnogs_gr_oot.Base.{◌≡◌, refl, sym, ap, ◌∙◌, subst, inl, inr, Option}
use satnogs_gr_oot.Base.{none, some, List, [], ◌∷◌, arith, ltb, if◌then◌else◌}
use satnogs_gr_oot.Base.{Bool-cases, length, get_or, take, drop}
use satnogs_gr_oot.Base.{length-take, length-append}
use satnogs_gr_oot.ReedSolomon.{ReedSolomon, padding}
use satnogs_gr_oot.AmsatDuv.{
  false, after_rs, State, search_sync, decoding, Config, Decoder, is_spacecraft_valid,
}
use satnogs_gr_oot.AmsatDuv.{search_loop, decoding_loop, Turn}
use satnogs_gr_oot.AmsatDuv.{returned, again, fault, frame_done}
use satnogs_gr_oot.AmsatDuv.{after_decoding, turn_in, finished, faulty}
use satnogs_gr_oot.AmsatDuv.{decode_loop, decode, amsat_fox_duv_frame_size}
use satnogs_gr_oot.AmsatDuv.Safe.{FoundIn, IsValid, TurnDone, Ends}
use satnogs_gr_oot.AmsatDuv.Safe.{spacecraft_range, after_erase, after_search-Returns}
use satnogs_gr_oot.AmsatDuv.Safe.{search_loop-Searched, Returns, Returns-TurnDone, FoundIn}
use satnogs_gr_oot.AmsatDuv.Filling.{Held, Filled, decoding_loop-Filled}

-- A decoder that searches, with buffers of the full size.
searching-IsValid :
    (c : Config) (d : Decoder)
    → amsat_fox_duv_frame_size ≤ c.max_frame_len
    → d.state ≡ search_sync
    → length d.words ≡ c.max_frame_len
    → length d.erasures_indexes ≡ c.max_frame_len
    → IsValid c d
searching-IsValid c d pos s size size' = record {
  long = pos;
  size = size;
  size_erasures = size';
  counted = λ h. cc;
  erased = λ h. cc;
  index = λ h. cc;
}

first_taken : (n : ℕ) (xs : List ℕ) → get_or (take (suc n) xs) 0 0 ≡ get_or xs 0 0
first_taken n [] = refl
first_taken n (x ∷ xs) = refl

module _ (rs : ReedSolomon) where
  open rs use {decode_rs_8, in_place}

  after_rs-TurnDone :
      (c : Config) (j : ℕ) (d : Decoder) (r : List ℕ × Option ℕ)
      → amsat_fox_duv_frame_size ≤ c.max_frame_len
      → d.state ≡ search_sync
      → length r.0 ≡ c.max_frame_len
      → length d.erasures_indexes ≡ c.max_frame_len
      → d.erasure_cnt ≤ c.max_frame_len
      → (j + 1) * 10 + 1 ≤ length d.bitstream
      → TurnDone c (after_rs j d r)
  unfolding after_rs
  after_rs-TurnDone c j d (words, none) pos s size size' few room =
      (searching-IsValid c (record d { words = words }) pos s size size', s)
  after_rs-TurnDone c j d (words, some n) pos s size size' few room =
      elim (Bool-cases (is_spacecraft_valid (bit_and (get_or words 0 0) 0x7))) [
        | inr other ↦
            rw other (searching-IsValid c (record d { words = words }) pos s size size', s)
        | inl known ↦
            let enough : ltb (length words) amsat_fox_duv_frame_size ≡ false = ground arith in
            rw (known, enough)
              (Returns-TurnDone c _ (
                after_erase c ((j + 1) * 10 + 1) _ _ room (searching-IsValid c _ pos s size size')
                  (record {
                    size = length-take 64 words (omega arith);
                    spacecraft =
                        subst (λ x. (1 ≤ bit_and x 0x7) × (bit_and x 0x7 ≤ 5))
                          (sym (first_taken 63 words)) (spacecraft_range _ known);
                    erasures = few;
                  })))
      ]

  frame_done-TurnDone :
      (c : Config) (j : ℕ) (d : Decoder)
      → amsat_fox_duv_frame_size ≤ c.max_frame_len
      → Held c d
      → d.word_cnt ≡ c.max_frame_len
      → (j + 1) * 10 + 1 ≤ length d.bitstream
      → TurnDone c (frame_done rs c j d)
  unfolding frame_done
  frame_done-TurnDone c j d pos h full room =
      let erasures =
        if ltb 0 d.erasure_cnt then some (take d.erasure_cnt d.erasures_indexes) else none in
      after_rs-TurnDone c j (record d { state = search_sync; data_reg = 0 })
        (decode_rs_8 d.words erasures (padding c.max_frame_len)) pos refl
        (in_place d.words erasures (padding c.max_frame_len) ∙ h.size) h.size_erasures
        (omega (arith, h.erased)) room

  after_decoding-TurnDone :
      (c : Config) (d t : Decoder) (found : Option ℕ)
      → IsValid c d
      → d.state ≡ decoding
      → 1 ≤ d.bitstream_idx
      → Filled c 0 (length (drop d.bitstream_idx d.bitstream)) d t found
      → TurnDone c (after_decoding rs c (t, found))
  unfolding after_decoding
  after_decoding-TurnDone c d t none v s start (k, h, lt, le) =
      let at = v.index s in
      (
        record {
          long = v.long;
          size = h.size;
          size_erasures = h.size_erasures;
          counted = λ e. lt;
          erased = λ e. h.erased;
          index = λ e. omega (arith, length-drop d.bitstream_idx d.bitstream, ap length k.bits);
        },
        tt,
      )
  after_decoding-TurnDone c d t (some j) v s start (k, h, full, le) =
      let at = v.index s in
      frame_done-TurnDone c j t v.long h full
        (omega (arith, length-drop d.bitstream_idx d.bitstream, ap length k.bits))

module _ (count_bits16 : ℕ → ℕ) (rs : ReedSolomon) where
  search_turn :
      (c : Config) (d : Decoder)
      → IsValid c d
      → d.state ≡ search_sync
      → Returns c (turn_in count_bits16 rs search_sync c d)
  unfolding turn_in
  search_turn c d v e =
      let (t, found) = search_loop count_bits16 c d.bitstream 0 d in
      let (k, f) = search_loop-Searched count_bits16 c d.bitstream 0 d in
      let z : 0 + length d.bitstream ≡ length d.bitstream = omega arith in
      after_search-Returns c d t found v e k (subst (λ n. FoundIn 0 n found) z f)

  turn_in-TurnDone :
      (s : State) (c : Config) (d : Decoder)
      → IsValid c d
      → d.state ≡ s
      → (s ≡ decoding → 1 ≤ d.bitstream_idx)
      → TurnDone c (turn_in count_bits16 rs s c d)
  unfolding turn_in
  turn_in-TurnDone search_sync c d v e start = Returns-TurnDone c _ (search_turn c d v e)
  turn_in-TurnDone decoding c d v e start =
      elim (Bool-cases (ltb (length d.bitstream - d.bitstream_idx) 10)) [
        | inl short ↦ rw (short, turn_in) (v, tt)
        | inr long ↦
            let bits = drop d.bitstream_idx d.bitstream in
            let (t, found) = decoding_loop count_bits16 c bits 0 d in
            let h : Held c d = record {
              size = v.size;
              size_erasures = v.size_erasures;
              erased = v.erased e;
            } in
            rw (long, turn_in)
              (after_decoding-TurnDone rs c d t found v e (start refl)
                (decoding_loop-Filled count_bits16 c bits 0 d h (v.counted e)))
      ]

  -- The end of the loop after its next turn.
  Ends-Returns :
      (n : ℕ) (c : Config) (t : Turn)
      → Returns c t
      → Ends c (elim t [
        | returned e frame ↦ finished e frame
        | again e ↦ decode_loop count_bits16 rs n c e
        | fault ↦ faulty
      ])
  Ends-Returns n c (returned e frame) h = h
  Ends-Returns n c (again e) h = absurd h
  Ends-Returns n c fault h = absurd h

  -- A turn that goes round again goes to a search, which returns.
  second_turn :
      (n : ℕ) (c : Config) (d : Decoder)
      → IsValid c d
      → d.state ≡ search_sync
      → Ends c (decode_loop count_bits16 rs (suc n) c d)
  unfolding decode_loop
  second_turn n c d v s = elim (Bool-cases (ltb (length d.bitstream) 11)) [
    | inl few ↦ rw (few, decode_loop) (v, tt)
    | inr many ↦
        rw (many, decode_loop)
          (Ends-Returns n c _
            (subst (λ x. Returns c (turn_in count_bits16 rs x c d)) (sym s) (search_turn c d v s)))
  ]

  Ends-TurnDone :
      (c : Config) (t : Turn)
      → TurnDone c t
      → Ends c (elim t [
        | returned e frame ↦ finished e frame
        | again e ↦ decode_loop count_bits16 rs 1 c e
        | fault ↦ faulty
      ])
  Ends-TurnDone c (returned e frame) h = h
  Ends-TurnDone c (again e) (v, s) = second_turn 0 c e v s
  Ends-TurnDone c fault h = absurd h

  both_turns :
      (c : Config) (d : Decoder)
      → IsValid c d
      → (d.state ≡ decoding → 1 ≤ d.bitstream_idx)
      → Ends c (decode_loop count_bits16 rs 2 c d)
  unfolding decode_loop
  both_turns c d v start = elim (Bool-cases (ltb (length d.bitstream) 11)) [
    | inl few ↦ rw (few, decode_loop) (v, tt)
    | inr many ↦
        rw (many, decode_loop) (Ends-TurnDone c _ (turn_in-TurnDone d.state c d v refl start))
  ]

  -- `decode` from a valid decoder that, if it is in a frame, has dropped a bit before it: the call
  -- returns, takes no more out of the deque than it holds, reads no more than the bytes of a frame,
  -- and leaves a valid decoder. A frame that it reports comes from a known spacecraft, and has 64
  -- bytes and no more erasures than a frame has symbols. A valid decoder has frames of 64 symbols or
  -- more.
  pub decode-Ends :
      (c : Config) (d : Decoder) (input : List ℕ)
      → IsValid c d
      → (d.state ≡ decoding → 1 ≤ d.bitstream_idx)
      → Ends c (decode count_bits16 rs c d input)
  unfolding decode
  decode-Ends c d input v start =
      both_turns c _
        (record {
          long = v.long;
          size = v.size;
          size_erasures = v.size_erasures;
          counted = v.counted;
          erased = v.erased;
          index = λ e. omega (arith, v.index e, length-append d.bitstream input);
        })
        start
