-- ===== src/AmsatDuv/Words.antt =====
-- The words that the encoder of the satellite sends for a byte are decoded to that byte.
use satnogs_gr_oot.Base.{
  ℕ, zero, suc, ◌+◌, ◌≤◌, ◌<◌, ◌^◌, bit_and, bit_xor, ◌≡◌, refl, ap, ◌∙◌, sym,
}
use satnogs_gr_oot.Base.{◌⊎◌, inl, inr, Bool, true, ◌&&◌, List, [], ◌∷◌, arith, ◌==◌}
use satnogs_gr_oot.Base.{if◌then◌else◌, Bool-cases, xor_self, All, length, get_or, set}
use satnogs_gr_oot.Base.{◌%◌, bit_and_mask, xor_mod}
use satnogs_gr_oot.Utils.Laws.{ones}
use satnogs_gr_oot.AmsatDuv.Nearest.{
  Counts, dist, dist-zero, Nearest, nearest-Nearest, Found, tables_size,
}
use satnogs_gr_oot.AmsatDuv.Tables.{lookup_negative, lookup_positive}
use satnogs_gr_oot.AmsatDuv.{Decoder, nearest, process_10b}

-- Entries with the ten bits of `word` stand at position `b` only.
matches_at : ℕ → ℕ → List ℕ → ℕ → Bool
matches_at word b [] i = true
matches_at word b (x ∷ xs) i =
    matches_at word b xs (i + 1) && (if bit_and (bit_xor word x) 0x3FF == 0 then i == b else true)

all_match : List ℕ → ℕ → List ℕ → Bool
all_match [] b table = true
all_match (word ∷ words) b table = all_match words (b + 1) table && matches_at word b table 0

negative_in_negative : all_match lookup_negative 0 lookup_negative ≡ true
unfolding all_match matches_at lookup_negative
negative_in_negative = refl

negative_in_positive : all_match lookup_negative 0 lookup_positive ≡ true
unfolding all_match matches_at lookup_negative lookup_positive
negative_in_positive = refl

positive_in_negative : all_match lookup_positive 0 lookup_negative ≡ true
unfolding all_match matches_at lookup_negative lookup_positive
positive_in_negative = refl

positive_in_positive : all_match lookup_positive 0 lookup_positive ≡ true
unfolding all_match matches_at lookup_positive
positive_in_positive = refl

matches_at_lem :
    (word b : ℕ) (xs : List ℕ) (i k : ℕ)
    → matches_at word b xs i ≡ true
    → k < length xs
    → bit_and (bit_xor word (get_or xs k 0)) 0x3FF ≡ 0
    → i + k ≡ b
unfolding matches_at
matches_at_lem word b [] i k h lt e = absurd (omega arith)
matches_at_lem word b (x ∷ xs) i zero h lt e = ground arith
matches_at_lem word b (x ∷ xs) i (suc k) h lt e = ground (arith, matches_at_lem word b xs (i + 1) k)

all_match_lem :
    (words : List ℕ) (b : ℕ) (table : List ℕ) (k : ℕ)
    → all_match words b table ≡ true
    → k < length words
    → matches_at (get_or words k 0) (b + k) table 0 ≡ true
unfolding all_match
all_match_lem [] b table k h lt = absurd (omega arith)
all_match_lem (word ∷ words) b table zero h lt =
    ap (λ n. matches_at word n table 0) (let e : b + 0 ≡ b = omega arith in e) ∙ ground arith
all_match_lem (word ∷ words) b table (suc k) h lt =
    ap (λ n. matches_at (get_or words k 0) n table 0)
      (let e : b + suc k ≡ b + 1 + k = omega arith in e)
    ∙ all_match_lem words (b + 1) table k (ground arith) (omega arith)

-- Position `b` of one table and position `p` of another, with the same ten bits.
same_position :
    (words table : List ℕ) (b p : ℕ)
    → all_match words 0 table ≡ true
    → length words ≡ 256
    → length table ≡ 256
    → b < 256
    → p < 256
    → bit_and (bit_xor (get_or words b 0) (get_or table p 0)) 0x3FF ≡ 0
    → p ≡ b
same_position words table b p match size size' lt lt' e =
    let same : 0 + p ≡ 0 + b =
      matches_at_lem (get_or words b 0) (0 + b) table 0 p
        (all_match_lem words 0 table b match (omega arith)) (omega arith) e in
    omega arith

-- The ten bits of `word` are those of a word of the tables for `b`.
abbrev pub Encodes : ℕ → ℕ → Type 0
Encodes b word =
    (word % 2 ^ 10 ≡ get_or lookup_negative b 0 % 2 ^ 10)
    ⊎ (word % 2 ^ 10 ≡ get_or lookup_positive b 0 % 2 ^ 10)

-- The bits that differ depend on the ten bits only.
low_bits : (x y : ℕ) → bit_and (bit_xor x y) 0x3FF ≡ bit_xor (x % 2 ^ 10) (y % 2 ^ 10)
low_bits x y = bit_and_mask 10 (bit_xor x y) ∙ xor_mod 10 x y

low_bits-same :
    (x x' y : ℕ)
    → x % 2 ^ 10 ≡ x' % 2 ^ 10
    → bit_and (bit_xor x y) 0x3FF ≡ bit_and (bit_xor x' y) 0x3FF
low_bits-same x x' y e = low_bits x y ∙ ap (λ t. bit_xor t (y % 2 ^ 10)) e ∙ sym (low_bits x' y)

module _ (count_bits16 : ℕ → ℕ) where
  -- `t` is `d` with the position of a nearest word written, and an erasure noted if they differ.
  abbrev pub Written : ℕ → ℕ → Decoder → Decoder → Type 0
  Written word write_pos d t =
      (m : ℕ) × (p : ℕ) × Nearest count_bits16 word m p
      × (((m ≡ 0) × (t ≡ record d { words = set d.words write_pos p }))
          ⊎ ((0 < m)
              × (t ≡ record d {
                words = set d.words write_pos p;
                erasures_indexes = set d.erasures_indexes d.erasure_cnt write_pos;
                erasure_cnt = d.erasure_cnt + 1;
              })))

  -- `process_10b` writes the position of a word of the tables to which the received one is nearest:
  -- no word of either table differs from it in fewer bits. It notes the place as an erasure
  -- exactly if the two differ. `count_bits16` counts the bits of 16 bits.
  pub process_10b-Nearest :
      Counts count_bits16
      → (word write_pos : ℕ) (d : Decoder)
      → Written word write_pos d (process_10b count_bits16 word write_pos d)
  unfolding process_10b
  process_10b-Nearest counts word write_pos d =
      let (m, p) = nearest count_bits16 word in
      (
        m,
        p,
        nearest-Nearest count_bits16 counts word,
        elim (Bool-cases (m == 0)) [
          | inl e ↦ inl (ground arith, rw (e, process_10b))
          | inr e ↦ inr (ground arith, rw (e, process_10b))
        ],
      )

  own_zero :
      Counts count_bits16
      → (word own : ℕ) → word % 2 ^ 10 ≡ own % 2 ^ 10
      → dist count_bits16 word own ≡ 0
  unfolding ones
  own_zero counts word own e =
      ap count_bits16 (low_bits-same word own own e ∙ low_bits own own ∙ xor_self (own % 2 ^ 10))
      ∙ counts 0 (omega arith)

  least_at :
      (word m k : ℕ) (xs : List ℕ)
      → All (λ e. m ≤ dist count_bits16 word e) xs
      → k < length xs
      → m ≤ dist count_bits16 word (get_or xs k 0)
  least_at word m k [] h lt = absurd (omega arith)
  least_at word m zero (x ∷ xs) h lt = h.0
  least_at word m (suc k) (x ∷ xs) h lt = least_at word m k xs h.1 (omega arith)

  own_distance :
      Counts count_bits16
      → (word m p b : ℕ) → b < 256
      → Encodes b word
      → Nearest count_bits16 word m p
      → m ≡ 0
  own_distance counts word m p b lt (inl e) n =
      let le = least_at word m b lookup_negative n.least_negative (omega (arith, tables_size.0)) in
      omega (arith, own_zero counts word (get_or lookup_negative b 0) e)
  own_distance counts word m p b lt (inr e) n =
      let le = least_at word m b lookup_positive n.least_positive (omega (arith, tables_size.1)) in
      omega (arith, own_zero counts word (get_or lookup_positive b 0) e)

  same_bits :
      Counts count_bits16
      → (word own other m : ℕ) → word % 2 ^ 10 ≡ own % 2 ^ 10
      → m ≡ 0
      → m ≡ dist count_bits16 word other
      → bit_and (bit_xor own other) 0x3FF ≡ 0
  same_bits counts word own other m e z is =
      low_bits-same own word other (sym e) ∙ dist-zero count_bits16 counts word other (sym is ∙ z)

  own_position :
      Counts count_bits16
      → (word m p b : ℕ) → b < 256
      → Encodes b word
      → Nearest count_bits16 word m p
      → p ≡ b
  own_position counts word m p b lt own n =
      position own n.found (own_distance counts word m p b lt own n) n.within
    where
      position : Encodes b word → Found count_bits16 word m p → m ≡ 0 → p < 256 → p ≡ b
      position (inl e) (inl is) z within =
          same_position lookup_negative lookup_negative b p negative_in_negative tables_size.0
            tables_size.0 lt within (same_bits counts word _ _ m e z is)
      position (inl e) (inr is) z within =
          same_position lookup_negative lookup_positive b p negative_in_positive tables_size.0
            tables_size.1 lt within (same_bits counts word _ _ m e z is)
      position (inr e) (inl is) z within =
          same_position lookup_positive lookup_negative b p positive_in_negative tables_size.1
            tables_size.0 lt within (same_bits counts word _ _ m e z is)
      position (inr e) (inr is) z within =
          same_position lookup_positive lookup_positive b p positive_in_positive tables_size.1
            tables_size.1 lt within (same_bits counts word _ _ m e z is)

  -- A word with the ten bits that stand for a byte in either table is decoded to that byte
  -- and is no erasure, if `count_bits16` counts the bits of 16 bits.
  pub process_10b-encoded :
      Counts count_bits16
      → (b word write_pos : ℕ) (d : Decoder) → b < 2 ^ 8
      → Encodes b word
      → process_10b count_bits16 word write_pos d ≡ record d { words = set d.words write_pos b }
  unfolding process_10b
  process_10b-encoded counts b word write_pos d lt own =
      let n = nearest-Nearest count_bits16 counts word in
      let (m, p) = nearest count_bits16 word in
      let z = own_distance counts word m p b lt own n in
      let at = own_position counts word m p b lt own n in
      let e : (m == 0) ≡ true = ground arith in
      rw (e, process_10b) (ap (λ q. record d { words = set d.words write_pos q }) at)
