-- ===== src/AmsatDuv.antt =====
-- `class amsat_duv_decoder` (lib/amsat_duv_decoder.cc, include/satnogs/amsat_duv_decoder.h): the search
-- for the control symbol, the 8b10b decoding and the frame. `d_bitstream` is the list of the bits
-- held. `d_wrong_bits`, `d_nwrong` and their `neg` are written before each use and are locals here.
-- `count_bits16` of GNU Radio is a parameter, and `decode_rs_8` is that of ReedSolomon. Taking more
-- out of the deque than it holds, and reading the 64 bytes of a frame out of fewer, is undefined in
-- the code and `fault` here. The time stamp of the metadata is left out.
pub mod Tables
pub mod Nearest
pub mod Words
pub mod Safe
pub mod Filling
pub mod Total
pub mod Stream
pub mod Delivery
mod Tests
use satnogs_gr_oot.Base.{ℕ, zero, suc, ◌+◌, ◌-◌, ◌*◌, ◌/◌, ◌%◌, ◌^◌, bit_and, bit_or, bit_xor, Bool}
use satnogs_gr_oot.Base.{true, false, ◌||◌, Option, none, some, List, [], ◌∷◌, ◌++◌, ltb, leb, ◌==◌}
use satnogs_gr_oot.Base.{if◌then◌else◌, length, get_or, set, take, drop}
use satnogs_gr_oot.ReedSolomon.{ReedSolomon, padding}
use satnogs_gr_oot.AmsatDuv.Tables.{lookup_negative, lookup_positive}

abbrev pub amsat_fox_duv_frame_size : ℕ
amsat_fox_duv_frame_size = 6 + 58

abbrev pub amsat_fox_spacecraft_id : List ℕ
amsat_fox_spacecraft_id = 0x1 ∷ 0x2 ∷ 0x3 ∷ 0x4 ∷ 0x5 ∷ []

-- `d_state_t`
pub data State : Type 0 where
  search_sync decoding : State

-- The fields that the constructor sets once.
pub record Config : Type 0 where
  pub max_frame_len : ℕ
  pub control_symbol_pos : ℕ
  pub control_symbol_neg : ℕ

pub record Decoder : Type 0 where
  pub erasure_cnt : ℕ
  pub data_reg : ℕ
  pub word_cnt : ℕ
  pub words : List ℕ
  pub erasures_indexes : List ℕ
  pub state : State
  pub bitstream_idx : ℕ
  pub bitstream : List ℕ

-- What `metadata` puts into `status.data` for a frame.
pub record Frame : Type 0 where
  pub pdu : List ℕ
  pub symbol_erasures : ℕ
  pub corrected_bits : ℕ

-- The loop of `set_access_code` over the characters of the symbol.
unfoldable pub symbol_loop : List ℕ → ℕ → ℕ
symbol_loop [] pos = pos
symbol_loop (ch ∷ chs) pos = symbol_loop chs (bit_or (pos * 2) (bit_and ch 0x1) % 2 ^ 16)

-- `set_access_code`; `none` is `false`.
unfoldable pub set_access_code : List ℕ → Option (ℕ × ℕ)
unfolding symbol_loop
set_access_code control_symbol =
    let pos = symbol_loop control_symbol 0 in
    if length control_symbol == 10 then some (pos, bit_and (2 ^ 32 - 1 - pos) 0x3FF) else none

-- `none` is an exception. The buffers hold whatever the memory held.
unfoldable pub new : List ℕ → ℕ → List ℕ → List ℕ → Option (Config × Decoder)
unfolding set_access_code
new control_symbol max_frame_len memory memory' = elim (set_access_code control_symbol) [
  | none ↦ none
  | some (pos, neg) ↦ some (
    record { max_frame_len = max_frame_len; control_symbol_pos = pos; control_symbol_neg = neg },
    record {
      erasure_cnt = 0;
      data_reg = 0;
      word_cnt = 0;
      words = take max_frame_len memory;
      erasures_indexes = take max_frame_len memory';
      state = search_sync;
      bitstream_idx = 0;
      bitstream = [];
    },
  )
]

unfoldable pub reset : Decoder → Decoder
reset d = record d {
  erasure_cnt = 0;
  word_cnt = 0;
  state = search_sync;
  bitstream = [];
  bitstream_idx = 0;
}

unfoldable pub is_spacecraft_valid_in : List ℕ → ℕ → Bool
is_spacecraft_valid_in [] id = false
is_spacecraft_valid_in (x ∷ xs) id = if x == id then true else is_spacecraft_valid_in xs id

unfoldable pub is_spacecraft_valid : ℕ → Bool
unfolding is_spacecraft_valid_in
is_spacecraft_valid id = is_spacecraft_valid_in amsat_fox_spacecraft_id id

-- `pack_10b_word` on the ten bits from its index on, `(bit & 0x1) << k` for falling `k`.
unfoldable pub pack_bits : ℕ → List ℕ → ℕ
pack_bits k [] = 0
pack_bits zero (x ∷ bits) = 0
pack_bits (suc k) (x ∷ bits) = bit_or (bit_and x 0x1 * 2 ^ k) (pack_bits k bits)

unfoldable pub pack_10b_word : List ℕ → ℕ
unfolding pack_bits
pack_10b_word bits = pack_bits 10 bits

-- How a turn of the `while` loop ends.
pub data Turn : Type 0 where
  returned : Decoder → Option Frame → Turn
  again : Decoder → Turn
  fault : Turn

-- `d_bitstream.erase(begin, begin + n)`, then `return status`.
unfoldable pub erase_and_return : ℕ → Option Frame → Decoder → Turn
erase_and_return n frame d =
    if leb n (length d.bitstream)
    then returned (record d { bitstream = drop n d.bitstream }) frame
    else fault

unfoldable pub after_search : Decoder × Option ℕ → Turn
unfolding erase_and_return
after_search (d, none) = returned (record d { bitstream = [] }) none
after_search (d, some i) =
    let t = record d { erasure_cnt = 0; word_cnt = 0; state = decoding } in
    if ltb 10 i
    then erase_and_return (i + 1 - 9) none (record t { bitstream_idx = 9 })
    else erase_and_return 1 none (record t { bitstream_idx = i })

-- How the `while` loop ends; `out_of_fuel` is one that needs more turns than it was given.
pub data Outcome : Type 0 where
  finished : Decoder → Option Frame → Outcome
  faulty out_of_fuel : Outcome

module _ (count_bits16 : ℕ → ℕ) where
  -- A loop of `process_10b` from entry `i` of a table on: `min_dist` and `min_pos`.
  unfoldable pub nearest_loop : ℕ → List ℕ → ℕ → ℕ → ℕ → ℕ × ℕ
  nearest_loop word [] i min_dist min_pos = (min_dist, min_pos)
  nearest_loop word (entry ∷ entries) i min_dist min_pos =
      let dist = count_bits16 (bit_and (bit_xor word entry) 0x3FF) in
      let rest =
        nearest_loop word entries (i + 1) (if ltb dist min_dist then dist else min_dist)
          (if ltb dist min_dist then i else min_pos) in
      if ltb 0 min_dist then rest else (min_dist, min_pos)

  -- Both loops of `process_10b`.
  unfoldable pub nearest : ℕ → ℕ × ℕ
  unfolding nearest_loop
  nearest word =
      let (dist, pos) = nearest_loop word lookup_negative 0 11 0 in
      nearest_loop word lookup_positive 0 dist pos

  unfoldable pub process_10b : ℕ → ℕ → Decoder → Decoder
  unfolding nearest
  process_10b word write_pos d =
      let (min_dist, min_pos) = nearest word in
      let t = record d { words = set d.words write_pos min_pos } in
      if min_dist == 0 then t else record t {
        erasures_indexes = set t.erasures_indexes t.erasure_cnt write_pos;
        erasure_cnt = t.erasure_cnt + 1;
      }

  -- `case SEARCH_SYNC`: the index of the bit that completes the control symbol.
  unfoldable pub search_loop : Config → List ℕ → ℕ → Decoder → Decoder × Option ℕ
  search_loop c [] i d = (d, none)
  search_loop c (b ∷ bits) i d =
      let reg = bit_or (d.data_reg * 2) (bit_and b 0x1) % 2 ^ 16 in
      let wrong = count_bits16 (bit_and (bit_xor reg c.control_symbol_pos) 0x3FF) in
      let wrong_neg = count_bits16 (bit_and (bit_xor reg c.control_symbol_neg) 0x3FF) in
      let t = record d { data_reg = reg } in
      elim (wrong == 0 || wrong_neg == 0) [
        | true ↦ (t, some i)
        | false ↦ search_loop c bits (i + 1) t
      ]

  -- The loop of `case DECODING` from round `i` on: the round that completes the frame.
  unfoldable pub decoding_loop : Config → List ℕ → ℕ → Decoder → Decoder × Option ℕ
  unfolding process_10b pack_10b_word
  decoding_loop c (b0 ∷ b1 ∷ b2 ∷ b3 ∷ b4 ∷ b5 ∷ b6 ∷ b7 ∷ b8 ∷ b9 ∷ rest) i d =
      let word = pack_10b_word (b0 ∷ b1 ∷ b2 ∷ b3 ∷ b4 ∷ b5 ∷ b6 ∷ b7 ∷ b8 ∷ b9 ∷ []) in
      let t = process_10b word d.word_cnt d in
      let u = record t { word_cnt = t.word_cnt + 1 } in
      elim (u.word_cnt == c.max_frame_len) [
        | true ↦ (u, some i)
        | false ↦ decoding_loop c rest (i + 1) (record u { bitstream_idx = u.bitstream_idx + 10 })
      ]
  decoding_loop c _ i d = (d, none)

-- The symbols after their correction, and whether they are a frame of a known spacecraft. The
-- metadata reads `amsat_fox_duv_frame_size` of them, however many there are.
unfoldable pub after_rs : ℕ → Decoder → List ℕ × Option ℕ → Turn
unfolding erase_and_return
after_rs i d (words, none) = again (record d { words = words })
after_rs i d (words, some n) =
    let u = record d { words = words } in
    if is_spacecraft_valid (bit_and (get_or u.words 0 0) 0x7)
    then if ltb (length u.words) amsat_fox_duv_frame_size
      then fault
      else erase_and_return ((i + 1) * 10 + 1)
          (some (record {
            pdu = take amsat_fox_duv_frame_size u.words;
            symbol_erasures = u.erasure_cnt;
            corrected_bits = n;
          }))
          u
    else again u

module _ (rs : ReedSolomon) where
  open rs use {decode_rs_8}

  -- A whole frame after round `i`.
  unfoldable pub frame_done : Config → ℕ → Decoder → Turn
  unfolding after_rs
  frame_done c i d =
      let t = record d { state = search_sync; data_reg = 0 } in
      let erasures =
        if ltb 0 t.erasure_cnt then some (take t.erasure_cnt t.erasures_indexes) else none in
      after_rs i t (decode_rs_8 t.words erasures (padding c.max_frame_len))

  unfoldable pub after_decoding : Config → Decoder × Option ℕ → Turn
  unfolding frame_done
  after_decoding c (d, none) = returned d none
  after_decoding c (d, some i) = frame_done c i d

module _ (count_bits16 : ℕ → ℕ) (rs : ReedSolomon) where
  unfoldable pub turn_in : State → Config → Decoder → Turn
  unfolding search_loop after_search decoding_loop after_decoding
  turn_in search_sync c d = after_search (search_loop count_bits16 c d.bitstream 0 d)
  turn_in decoding c d =
      if ltb (length d.bitstream - d.bitstream_idx) 10
      then returned d none
      else after_decoding rs c (decoding_loop count_bits16 c (drop d.bitstream_idx d.bitstream) 0 d)

  unfoldable pub decode_loop : ℕ → Config → Decoder → Outcome
  unfolding turn_in
  decode_loop zero c d = out_of_fuel
  decode_loop (suc fuel) c d =
      if ltb (length d.bitstream) 11 then finished d none else elim (turn_in d.state c d) [
        | returned e frame ↦ finished e frame
        | again e ↦ decode_loop fuel c e
        | fault ↦ faulty
      ]

  -- `decode`: it consumes all of its input. A frame that fails is followed by a search, which
  -- returns: two turns are enough.
  unfoldable pub decode : Config → Decoder → List ℕ → Outcome
  unfolding decode_loop
  decode c d input = decode_loop 2 c (record d { bitstream = d.bitstream ++ input })
