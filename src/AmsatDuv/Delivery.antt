-- ===== src/AmsatDuv/Delivery.antt =====
-- A frame of words that arrive without errors, through `decode` of `amsat_duv_decoder`.
use satnogs_gr_oot.Base.{length-drop, ℕ, ◌+◌, ◌-◌, ◌*◌, ◌≤◌, ◌≡◌, refl, sym, ap}
use satnogs_gr_oot.Base.{◌∙◌, inl, inr, true, false, none, some, List, [], ◌∷◌}
use satnogs_gr_oot.Base.{◌++◌, arith, ltb, leb, if◌then◌else◌, Bool-cases}
use satnogs_gr_oot.Base.{length, get_or, take, drop, length-append, bit_and}
use satnogs_gr_oot.Base.{written, written_full}
use satnogs_gr_oot.ReedSolomon.{ReedSolomon, padding}
use satnogs_gr_oot.AmsatDuv.{
  Option, after_rs, search_sync, decoding, Config, Decoder, Frame, is_spacecraft_valid,
}
use satnogs_gr_oot.AmsatDuv.{decoding_loop, Turn, returned}
use satnogs_gr_oot.AmsatDuv.{
  erase_and_return, frame_done, after_decoding, turn_in, Outcome, finished,
}
use satnogs_gr_oot.AmsatDuv.{faulty, decode_loop, decode, amsat_fox_duv_frame_size}
use satnogs_gr_oot.AmsatDuv.{again, fault}
use satnogs_gr_oot.AmsatDuv.Nearest.{Counts}
use satnogs_gr_oot.AmsatDuv.Stream.{stream, Sent, length-Sent, length-stream}
use satnogs_gr_oot.AmsatDuv.Stream.{decoding_loop-stream}

-- The frame that is reported for the symbols that the correction gives back.
abbrev pub frame_of : List ℕ → ℕ → Frame
frame_of corrected n = record {
  pdu = take amsat_fox_duv_frame_size corrected;
  symbol_erasures = 0;
  corrected_bits = n;
}

after_rs-accepted :
    (i : ℕ) (d : Decoder) (cs : List ℕ) (n : ℕ)
    → d.erasure_cnt ≡ 0
    → is_spacecraft_valid (bit_and (get_or cs 0 0) 0x7) ≡ true
    → amsat_fox_duv_frame_size ≤ length cs
    → after_rs i d (cs, some n)
      ≡ erase_and_return ((i + 1) * 10 + 1) (some (frame_of cs n)) (record d { words = cs })
unfolding after_rs
after_rs-accepted i d cs n z known long =
    let enough : ltb (length cs) amsat_fox_duv_frame_size ≡ false = ground arith in
    rw (known, enough)
      (ap
        (λ (k : ℕ).
          let f : Frame = record {
            pdu = take amsat_fox_duv_frame_size cs;
            symbol_erasures = k;
            corrected_bits = n;
          } in
          erase_and_return ((i + 1) * 10 + 1) (some f) (record d { words = cs }))
        z)

module _ (rs : ReedSolomon) where
  open rs use {decode_rs_8}

  -- A whole frame without erasures that the correction accepts.
  frame_done-accepted :
      (c : Config) (i : ℕ) (d : Decoder) (cs : List ℕ) (n : ℕ)
      → d.erasure_cnt ≡ 0
      → decode_rs_8 d.words none (padding c.max_frame_len) ≡ (cs, some n)
      → is_spacecraft_valid (bit_and (get_or cs 0 0) 0x7) ≡ true
      → amsat_fox_duv_frame_size ≤ length cs
      → frame_done rs c i d
        ≡ erase_and_return
            ((i + 1) * 10 + 1)
            (some (frame_of cs n))
            (record d { state = search_sync; data_reg = 0; words = cs })
  unfolding frame_done
  frame_done-accepted c i d cs n z e known long =
      let test : ltb 0 d.erasure_cnt ≡ false = ground arith in
      let t = record d { state = search_sync; data_reg = 0 } in
      rw (test, frame_done) (ap (after_rs i t) e ∙ after_rs-accepted i t cs n z known long)

module _ (count_bits16 : ℕ → ℕ) (rs : ReedSolomon) where
  open rs use {decode_rs_8, in_place}

  -- A frame of which nothing has been read, with its words at the head of the bits to come.
  pub record Awaits (c : Config) (d : Decoder) (bs ws rest : List ℕ) : Type 0 where
    pub empty : d.word_cnt ≡ 0
    pub no_erasures : d.erasure_cnt ≡ 0
    pub size : length d.words ≡ c.max_frame_len
    pub whole : length bs ≡ c.max_frame_len
    pub sent : Sent bs ws
    pub bits : drop d.bitstream_idx d.bitstream ≡ stream ws ++ rest

  all_words :
      (c : Config) (d : Decoder) (bs ws rest : List ℕ)
      → Counts count_bits16
      → amsat_fox_duv_frame_size ≤ c.max_frame_len
      → Awaits c d bs ws rest
      → decoding_loop count_bits16 c (drop d.bitstream_idx d.bitstream) 0 d ≡ (
        record d {
          words = bs;
          word_cnt = c.max_frame_len;
          bitstream_idx = d.bitstream_idx + 10 * (c.max_frame_len - 1);
        },
        some (c.max_frame_len - 1),
      )
  all_words c d [] ws rest counts several a = absurd (omega (arith, a.whole, several))
  all_words c d (b ∷ bs) [] rest counts several a = absurd a.sent
  all_words c d (b ∷ bs) (w ∷ ws) rest counts several a =
      ap (λ xs. decoding_loop count_bits16 c xs 0 d) a.bits
      ∙ decoding_loop-stream count_bits16 counts c b bs w ws rest 0 d a.sent
          (omega (arith, a.empty, a.whole))
      ∙ ground (
        arith,
        a.whole,
        ap (λ k. written d.words k (b ∷ bs)) a.empty,
        written_full d.words (b ∷ bs) (a.whole ∙ sym a.size),
      )

  length_all :
      (c : Config) (d : Decoder) (bs ws rest : List ℕ)
      → amsat_fox_duv_frame_size ≤ c.max_frame_len
      → Awaits c d bs ws rest
      → length d.bitstream ≡ d.bitstream_idx + 10 * c.max_frame_len + length rest
  length_all c d bs ws rest several a = omega (
    arith,
    length-drop d.bitstream_idx d.bitstream,
    ap length a.bits,
    length-append (stream ws) rest,
    length-stream ws,
    length-Sent bs ws a.sent,
    a.whole,
    several,
  )

  long_enough :
      (c : Config) (d : Decoder) (bs ws rest : List ℕ)
      → amsat_fox_duv_frame_size ≤ c.max_frame_len
      → Awaits c d bs ws rest
      → 20 ≤ length d.bitstream - d.bitstream_idx
  long_enough c d bs ws rest several a = omega (arith, length_all c d bs ws rest several a, several)

  whole_turn :
      (c : Config) (d : Decoder) (bs ws rest cs : List ℕ) (n : ℕ)
      → Counts count_bits16
      → amsat_fox_duv_frame_size ≤ c.max_frame_len
      → Awaits c d bs ws rest
      → decode_rs_8 bs none (padding c.max_frame_len) ≡ (cs, some n)
      → is_spacecraft_valid (bit_and (get_or cs 0 0) 0x7) ≡ true
      → (e : Decoder) × (e.state ≡ search_sync)
        × (e.bitstream ≡ d.bitstream)
        × (turn_in count_bits16 rs decoding c d
            ≡ erase_and_return (10 * c.max_frame_len + 1) (some (frame_of cs n)) e)
  unfolding turn_in after_decoding
  whole_turn c d bs ws rest cs n counts several a e known =
      let test : ltb (length d.bitstream - d.bitstream_idx) 10 ≡ false =
        ground (arith, long_enough c d bs ws rest several a) in
      let u = record d {
        words = bs;
        word_cnt = c.max_frame_len;
        bitstream_idx = d.bitstream_idx + 10 * (c.max_frame_len - 1);
      } in
      let long : amsat_fox_duv_frame_size ≤ length cs = omega (
        arith,
        a.whole,
        ap (λ (r : List ℕ × Option ℕ). length r.0) e,
        in_place bs none (padding c.max_frame_len),
      ) in
      let ten : (c.max_frame_len - 1 + 1) * 10 + 1 ≡ 10 * c.max_frame_len + 1 =
        omega (arith, several) in
      let t = record u { state = search_sync; data_reg = 0; words = cs } in
      (
        t,
        refl,
        refl,
        rw (test, turn_in)
            (ap (after_decoding rs c) (all_words c d bs ws rest counts several a)
              ∙ frame_done-accepted rs c (c.max_frame_len - 1) u cs n a.no_erasures e known long
              ∙ ap (λ k. erase_and_return k (some (frame_of cs n)) t) ten),
      )

  abbrev after_turn : Config → Turn → Outcome
  after_turn c t = elim t [
    | returned e frame ↦ finished e frame
    | again e ↦ decode_loop count_bits16 rs 1 c e
    | fault ↦ faulty
  ]

  -- The call, from what the first turn of its loop does.
  one_call :
      (c : Config) (d : Decoder) (bs ws rest : List ℕ) (k : ℕ) (f : Frame) (e : Decoder)
      → amsat_fox_duv_frame_size ≤ c.max_frame_len
      → Awaits c d bs ws rest
      → d.state ≡ decoding
      → turn_in count_bits16 rs decoding c d ≡ erase_and_return k (some f) e
      → decode_loop count_bits16 rs 2 c d ≡ (
          if leb k (length e.bitstream)
          then finished (record e { bitstream = drop k e.bitstream }) (some f)
          else faulty)
  unfolding decode_loop erase_and_return
  one_call c d bs ws rest k f e several a st turn =
      let test : ltb (length d.bitstream) 11 ≡ false =
        ground (arith, long_enough c d bs ws rest several a) in
      rw (test, decode_loop)
        (ap (after_turn c) (ap (λ s. turn_in count_bits16 rs s c d) st ∙ turn)
          ∙ (elim (Bool-cases (leb k (length e.bitstream))) [
            | inl enough ↦ rw (enough, erase_and_return)
            | inr short ↦ rw (short, erase_and_return)
          ]))

  -- `decode` with frames of 64 words or more, from inside a frame of which nothing has been read
  -- yet, given the rest of its words without errors, with at least one bit before or behind these:
  -- if the correction accepts the bytes that the words stand for and the spacecraft of the corrected
  -- bytes is known, the first 64 of these are reported as the frame, without erasures, and the
  -- decoder searches again. `count_bits16` counts the bits of 16 bits.
  pub decode-delivered :
      (c : Config) (d : Decoder) (input bs ws rest cs : List ℕ) (n : ℕ)
      → Counts count_bits16
      → d.state ≡ decoding
      → amsat_fox_duv_frame_size ≤ c.max_frame_len
      → Awaits c (record d { bitstream = d.bitstream ++ input }) bs ws rest
      → decode_rs_8 bs none (padding c.max_frame_len) ≡ (cs, some n)
      → is_spacecraft_valid (bit_and (get_or cs 0 0) 0x7) ≡ true
      → 1 ≤ d.bitstream_idx + length rest
      → (e : Decoder) × (e.state ≡ search_sync)
        × (decode count_bits16 rs c d input ≡ finished e (some (frame_of cs n)))
  unfolding decode
  decode-delivered c d input bs ws rest cs n counts st several a ok known spare =
      let bits = d.bitstream ++ input in
      let t = record d { bitstream = bits } in
      let (e, searching, same, turn) = whole_turn c t bs ws rest cs n counts several a ok known in
      let room : leb (10 * c.max_frame_len + 1) (length e.bitstream) ≡ true =
        ground (arith, length_all c t bs ws rest several a, ap length same) in
      (
        record e { bitstream = drop (10 * c.max_frame_len + 1) e.bitstream },
        searching,
        one_call c t bs ws rest (10 * c.max_frame_len + 1) (frame_of cs n) e several a st turn
            ∙ rw room,
      )

  -- `decode` with frames of 64 words or more, from inside a frame of which nothing has been read
  -- yet, given the rest of its words without errors, with no bit before or behind these: if the
  -- correction accepts the bytes that the words stand for and the spacecraft of the corrected bytes
  -- is known, the decoder takes one bit more out of its deque than that holds. `count_bits16` counts
  -- the bits of 16 bits.
  pub decode_erases_too_much :
      (c : Config) (d : Decoder) (input bs ws cs : List ℕ) (n : ℕ)
      → Counts count_bits16
      → d.state ≡ decoding
      → amsat_fox_duv_frame_size ≤ c.max_frame_len
      → Awaits c (record d { bitstream = d.bitstream ++ input }) bs ws []
      → decode_rs_8 bs none (padding c.max_frame_len) ≡ (cs, some n)
      → is_spacecraft_valid (bit_and (get_or cs 0 0) 0x7) ≡ true
      → d.bitstream_idx ≡ 0
      → decode count_bits16 rs c d input ≡ faulty
  unfolding decode
  decode_erases_too_much c d input bs ws cs n counts st several a ok known start =
      let t = record d { bitstream = d.bitstream ++ input } in
      let (e, searching, same, turn) = whole_turn c t bs ws [] cs n counts several a ok known in
      let short : leb (10 * c.max_frame_len + 1) (length e.bitstream) ≡ false =
        ground (arith, length_all c t bs ws [] several a, ap length same) in
      one_call c t bs ws [] (10 * c.max_frame_len + 1) (frame_of cs n) e several a st turn
      ∙ rw short
