-- ===== src/AmsatDuv/Safe.antt =====
-- `decode` of `amsat_duv_decoder` stays inside its buffers and returns.
use satnogs_gr_oot.Base.{
  length-drop, ℕ, suc, ◌+◌, ◌-◌, ◌*◌, ◌≤◌, ◌<◌, ◌%◌, ◌^◌, bit_and, bit_or, bit_xor,
}
use satnogs_gr_oot.Base.{◌≡◌, refl, ap, ◌∙◌, inl, inr, true, ◌||◌, Option}
use satnogs_gr_oot.Base.{none, some, List, [], ◌∷◌, arith, ltb, leb, ◌==◌}
use satnogs_gr_oot.Base.{Bool-cases, length, get_or, drop}
use satnogs_gr_oot.AmsatDuv.{search_sync, decoding, Config, Decoder, Frame, is_spacecraft_valid}
use satnogs_gr_oot.AmsatDuv.{search_loop, Turn}
use satnogs_gr_oot.AmsatDuv.{returned, again, fault, erase_and_return, after_search}
use satnogs_gr_oot.AmsatDuv.{Outcome, finished, faulty, out_of_fuel}
use satnogs_gr_oot.AmsatDuv.{amsat_fox_duv_frame_size}

pub record IsValid (c : Config) (d : Decoder) : Type 0 where
  pub long : amsat_fox_duv_frame_size ≤ c.max_frame_len
  pub size : length d.words ≡ c.max_frame_len
  pub size_erasures : length d.erasures_indexes ≡ c.max_frame_len
  pub counted : d.state ≡ decoding → d.word_cnt < c.max_frame_len
  pub erased : d.state ≡ decoding → d.erasure_cnt ≤ d.word_cnt
  pub index : d.state ≡ decoding → d.bitstream_idx ≤ length d.bitstream

-- A reported frame.
pub record IsSound (c : Config) (f : Frame) : Type 0 where
  pub size : length f.pdu ≡ amsat_fox_duv_frame_size
  pub spacecraft : (1 ≤ bit_and (get_or f.pdu 0 0) 0x7) × (bit_and (get_or f.pdu 0 0) 0x7 ≤ 5)
  pub erasures : f.symbol_erasures ≤ c.max_frame_len

abbrev pub AllSound : Config → Option Frame → Type 0
AllSound c none = Unit
AllSound c (some f) = IsSound c f

-- A turn that returns leaves a valid decoder; one that goes round again a valid one that searches.
abbrev pub TurnDone : Config → Turn → Type 0
TurnDone c (returned d frame) = IsValid c d × AllSound c frame
TurnDone c (again d) = IsValid c d × (d.state ≡ search_sync)
TurnDone c fault = ⊥

-- A turn that returns.
abbrev pub Returns : Config → Turn → Type 0
Returns c (returned d frame) = IsValid c d × AllSound c frame
Returns c (again d) = ⊥
Returns c fault = ⊥

pub Returns-TurnDone : (c : Config) (t : Turn) → Returns c t → TurnDone c t
Returns-TurnDone c (returned d frame) h = h
Returns-TurnDone c (again d) h = absurd h
Returns-TurnDone c fault h = absurd h

abbrev pub Ends : Config → Outcome → Type 0
Ends c (finished d frame) = IsValid c d × AllSound c frame
Ends c faulty = ⊥
Ends c out_of_fuel = ⊥

pub spacecraft_range : (id : ℕ) → is_spacecraft_valid id ≡ true → (1 ≤ id) × (id ≤ 5)
unfolding is_spacecraft_valid
spacecraft_range id h = ground arith

abbrev pub FoundIn : ℕ → ℕ → Option ℕ → Type 0
FoundIn low high none = Unit
FoundIn low high (some j) = (low ≤ j) × (j < high)

FoundIn-suc :
    (i n : ℕ) (found : Option ℕ) → FoundIn (i + 1) (i + 1 + n) found → FoundIn i (i + suc n) found
FoundIn-suc i n none h = tt
FoundIn-suc i n (some j) h = omega arith

pub after_erase :
    (c : Config) (n : ℕ) (frame : Option Frame) (d : Decoder)
    → n ≤ length d.bitstream
    → IsValid c (record d { bitstream = drop n d.bitstream })
    → AllSound c frame
    → Returns c (erase_and_return n frame d)
unfolding erase_and_return
after_erase c n frame d le v s =
    let e : leb n (length d.bitstream) ≡ true = ground arith in rw (e, erase_and_return) (v, s)

-- What the search leaves alone.
pub record Searched (d t : Decoder) : Type 0 where
  pub words : t.words ≡ d.words
  pub erasures_indexes : t.erasures_indexes ≡ d.erasures_indexes
  pub state : t.state ≡ d.state
  pub bits : t.bitstream ≡ d.bitstream

pub after_search-Returns :
    (c : Config) (d t : Decoder) (found : Option ℕ)
    → IsValid c d
    → d.state ≡ search_sync
    → Searched d t
    → FoundIn 0 (length d.bitstream) found
    → Returns c (after_search (t, found))
unfolding after_search
after_search-Returns c d t none v e s f = (
  record {
    long = v.long;
    size = ap length s.words ∙ v.size;
    size_erasures = ap length s.erasures_indexes ∙ v.size_erasures;
    counted = λ h. cc (s.state);
    erased = λ h. cc (s.state);
    index = λ h. cc (s.state);
  },
  tt,
)
after_search-Returns c d t (some i) v e s f =
    let same : length t.bitstream ≡ length d.bitstream = ap length s.bits in
    elim (Bool-cases (ltb 10 i)) [
      | inl late ↦ rw late (
          after_erase c (i + 1 - 9) none _ (omega arith)
            (record {
              long = v.long;
              size = ap length s.words ∙ v.size;
              size_erasures = ap length s.erasures_indexes ∙ v.size_erasures;
              counted = λ h. omega (arith, v.long);
              erased = λ h. omega arith;
              index = λ h. ground (arith, length-drop (i + 1 - 9) t.bitstream);
            })
            tt)
      | inr early ↦ rw early (
          after_erase c 1 none _ (omega arith)
            (record {
              long = v.long;
              size = ap length s.words ∙ v.size;
              size_erasures = ap length s.erasures_indexes ∙ v.size_erasures;
              counted = λ h. omega (arith, v.long);
              erased = λ h. omega arith;
              index = λ h. ground (arith, length-drop 1 t.bitstream);
            })
            tt)
    ]

module _ (count_bits16 : ℕ → ℕ) where
  pub search_loop-Searched :
      (c : Config) (bits : List ℕ) (i : ℕ) (d : Decoder)
      → let (t, found) = search_loop count_bits16 c bits i d in
        Searched d t × FoundIn i (i + length bits) found
  unfolding search_loop
  search_loop-Searched c [] i d =
      (record { words = refl; erasures_indexes = refl; state = refl; bits = refl }, tt)
  search_loop-Searched c (b ∷ bits) i d =
      let reg = bit_or (d.data_reg * 2) (bit_and b 0x1) % 2 ^ 16 in
      let wrong = count_bits16 (bit_and (bit_xor reg c.control_symbol_pos) 0x3FF) in
      let wrong_neg = count_bits16 (bit_and (bit_xor reg c.control_symbol_neg) 0x3FF) in
      elim (Bool-cases (wrong == 0 || wrong_neg == 0)) [
        | inl e ↦
            rw (e, search_loop)
              (
                record { words = refl; erasures_indexes = refl; state = refl; bits = refl },
                (omega arith, omega arith),
              )
        | inr e ↦
            let (s, f) = search_loop-Searched c bits (i + 1) (record d { data_reg = reg }) in
            rw (e, search_loop)
              (
                record {
                  words = s.words;
                  erasures_indexes = s.erasures_indexes;
                  state = s.state;
                  bits = s.bits;
                },
                FoundIn-suc i (length bits) _ f,
              )
      ]
