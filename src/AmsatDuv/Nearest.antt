-- ===== src/AmsatDuv/Nearest.antt =====
-- `process_10b` of `amsat_duv_decoder` finds the nearest word of its tables.
use satnogs_gr_oot.Base.{ℕ, suc, ◌+◌, ◌≤◌, ◌<◌, ◌^◌, bit_and, bit_xor, ◌≡◌, refl, ap, ◌∙◌}
use satnogs_gr_oot.Base.{
  sym, subst, ◌⊎◌, inl, inr, true, false, List, [], ◌∷◌, arith, ltb, leb, ◌==◌,
}
use satnogs_gr_oot.Base.{if◌then◌else◌, Bool-cases, all_below, all_below_lem, All, length, get_or}
use satnogs_gr_oot.Base.{bit_and_mask}
use satnogs_gr_oot.Utils.Laws.{ones}
use satnogs_gr_oot.AmsatDuv.Tables.{lookup_negative, lookup_positive}
use satnogs_gr_oot.AmsatDuv.{nearest_loop, nearest}

-- What the code relies on of `count_bits16`: it counts the ones of a `uint16_t`.
abbrev pub Counts : (ℕ → ℕ) → Type 0
Counts count_bits16 = (x : ℕ) → x < 2 ^ 16 → count_bits16 x ≡ ones 16 x

few_ones : all_below 1024 (λ x. leb (ones 16 x) 10) ≡ true
unfolding all_below ones
few_ones = refl

no_ones : all_below 1024 (λ x. if ones 16 x == 0 then x == 0 else true) ≡ true
unfolding all_below ones
no_ones = refl

pub tables_size : (length lookup_negative ≡ 256) × (length lookup_positive ≡ 256)
unfolding lookup_negative lookup_positive
tables_size = (refl, refl)

module _ (count_bits16 : ℕ → ℕ) where
  -- The bits in which two words of ten bits differ, counted.
  abbrev pub dist : ℕ → ℕ → ℕ
  dist word entry = count_bits16 (bit_and (bit_xor word entry) 0x3FF)

  low-lt : (x : ℕ) → bit_and x 0x3FF < 1024
  low-lt x = omega (arith, bit_and_mask 10 x)

  dist-le : Counts count_bits16 → (word entry : ℕ) → dist word entry ≤ 10
  dist-le counts word entry =
      let x = bit_and (bit_xor word entry) 0x3FF in
      let lt = low-lt (bit_xor word entry) in
      let few = all_below_lem 1024 (λ x. leb (ones 16 x) 10) x few_ones lt in
      ground (arith, counts x, lt, few)

  -- At distance 0 the low ten bits are the same.
  pub dist-zero :
      Counts count_bits16
      → (word entry : ℕ) → dist word entry ≡ 0
      → bit_and (bit_xor word entry) 0x3FF ≡ 0
  dist-zero counts word entry e =
      let x = bit_and (bit_xor word entry) 0x3FF in
      let lt = low-lt (bit_xor word entry) in
      let none = all_below_lem 1024 (λ x. if ones 16 x == 0 then x == 0 else true) x no_ones lt in
      ground (arith, counts x, lt, none)

  abbrev Hit : ℕ → List ℕ → ℕ → ℕ → ℕ → Type 0
  Hit word entries i m p =
      (k : ℕ) × (k < length entries) × (p ≡ i + k) × (m ≡ dist word (get_or entries k 0))

  every_entry : (m : ℕ) → m ≡ 0 → (word : ℕ) (entries : List ℕ) → All (λ e. m ≤ dist word e) entries
  every_entry m z word [] = tt
  every_entry m z word (x ∷ xs) = (omega arith, every_entry m z word xs)

  Hit-suc :
      (word x : ℕ) (xs : List ℕ) (i m p : ℕ) → Hit word xs (i + 1) m p → Hit word (x ∷ xs) i m p
  Hit-suc word x xs i m p (k, lt, at, is) = (suc k, omega arith, omega arith, is)

  Hit-kept :
      (word x : ℕ) (xs : List ℕ) (i d m p : ℕ)
      → ((m ≡ d) × (p ≡ i)) ⊎ Hit word xs (i + 1) m p
      → d ≡ dist word x
      → Hit word (x ∷ xs) i m p
  Hit-kept word x xs i d m p (inl (e, e')) same = (0, omega arith, omega arith, e ∙ same)
  Hit-kept word x xs i d m p (inr hit) same = Hit-suc word x xs i m p hit

  Hit-further :
      (word x : ℕ) (xs : List ℕ) (i d q m p : ℕ)
      → ((m ≡ d) × (p ≡ q)) ⊎ Hit word xs (i + 1) m p
      → ((m ≡ d) × (p ≡ q)) ⊎ Hit word (x ∷ xs) i m p
  Hit-further word x xs i d q m p (inl same) = inl same
  Hit-further word x xs i d q m p (inr hit) = inr (Hit-suc word x xs i m p hit)

  -- What a loop over a table ends with: it only comes nearer, to every entry, and its result is
  -- what it started with or an entry.
  abbrev LoopEnd : ℕ → List ℕ → ℕ → ℕ → ℕ → ℕ × ℕ → Type 0
  LoopEnd word entries i m p (m', p') =
      (m' ≤ m)
      × All (λ e. m' ≤ dist word e) entries
      × (((m' ≡ m) × (p' ≡ p)) ⊎ Hit word entries i m' p')

  nearest_loop-found :
      (word x : ℕ) (xs : List ℕ) (i m p : ℕ)
      → ltb 0 m ≡ false
      → nearest_loop count_bits16 word (x ∷ xs) i m p ≡ (m, p)
  unfolding nearest_loop
  nearest_loop-found word x xs i m p e = rw e

  nearest_loop-near :
      (word x : ℕ) (xs : List ℕ) (i m p : ℕ)
      → ltb 0 m ≡ true
      → ltb (dist word x) m ≡ true
      → nearest_loop count_bits16 word (x ∷ xs) i m p
        ≡ nearest_loop count_bits16 word xs (i + 1) (dist word x) i
  unfolding nearest_loop
  nearest_loop-near word x xs i m p e e' = rw (e, e')

  nearest_loop-far :
      (word x : ℕ) (xs : List ℕ) (i m p : ℕ)
      → ltb 0 m ≡ true
      → ltb (dist word x) m ≡ false
      → nearest_loop count_bits16 word (x ∷ xs) i m p
        ≡ nearest_loop count_bits16 word xs (i + 1) m p
  unfolding nearest_loop
  nearest_loop-far word x xs i m p e e' = rw (e, e')

  nearest_loop_lem :
      (word : ℕ) (entries : List ℕ) (i m p : ℕ)
      → LoopEnd word entries i m p (nearest_loop count_bits16 word entries i m p)
  unfolding nearest_loop
  nearest_loop_lem word [] i m p = (omega arith, tt, inl (refl, refl))
  nearest_loop_lem word (x ∷ xs) i m p = elim (Bool-cases (ltb 0 m)) [
    | inr found ↦
        let z : m ≡ 0 = ground arith in
        subst (LoopEnd word (x ∷ xs) i m p) (sym (nearest_loop-found word x xs i m p found))
          (omega arith, (omega arith, every_entry m z word xs), inl (refl, refl))
    | inl more ↦ elim (Bool-cases (ltb (dist word x) m)) [
      | inl near ↦
          let (le, all, from) = nearest_loop_lem word xs (i + 1) (dist word x) i in
          subst (LoopEnd word (x ∷ xs) i m p) (sym (nearest_loop-near word x xs i m p more near))
            (ground arith, (le, all), inr (Hit-kept word x xs i (dist word x) _ _ from refl))
      | inr far ↦
          let (le, all, from) = nearest_loop_lem word xs (i + 1) m p in
          subst (LoopEnd word (x ∷ xs) i m p) (sym (nearest_loop-far word x xs i m p more far))
            (le, (ground arith, all), Hit-further word x xs i m p _ _ from)
    ]
  ]

  -- Position `p` of the tables has a word at distance `m`, and no word of either is nearer.
  abbrev pub Found : ℕ → ℕ → ℕ → Type 0
  Found word m p =
      (m ≡ dist word (get_or lookup_negative p 0)) ⊎ (m ≡ dist word (get_or lookup_positive p 0))

  pub record Nearest (word m p : ℕ) : Type 0 where
    pub within : p < 256
    pub found :
        (m ≡ dist word (get_or lookup_negative p 0)) ⊎ (m ≡ dist word (get_or lookup_positive p 0))
    pub least_negative : All (λ e. m ≤ dist word e) lookup_negative
    pub least_positive : All (λ e. m ≤ dist word e) lookup_positive

  Hit-Found_negative : (word m p : ℕ) → Hit word lookup_negative 0 m p → (p < 256) × Found word m p
  Hit-Found_negative word m p (k, lt, at, is) =
      let same : k ≡ p = omega arith in
      (
        omega (arith, tables_size.0),
        inl (is ∙ ap (λ j. dist word (get_or lookup_negative j 0)) same),
      )

  Hit-Found_positive : (word m p : ℕ) → Hit word lookup_positive 0 m p → (p < 256) × Found word m p
  Hit-Found_positive word m p (k, lt, at, is) =
      let same : k ≡ p = omega arith in
      (
        omega (arith, tables_size.1),
        inr (is ∙ ap (λ j. dist word (get_or lookup_positive j 0)) same),
      )

  -- The search over both tables ends on an entry of one of them.
  search-Found :
      (word m p m' p' : ℕ)
      → m ≤ 10
      → ((m ≡ 11) × (p ≡ 0)) ⊎ Hit word lookup_negative 0 m p
      → ((m' ≡ m) × (p' ≡ p)) ⊎ Hit word lookup_positive 0 m' p'
      → (p' < 256) × Found word m' p'
  search-Found word m p m' p' near from (inr hit) = Hit-Found_positive word m' p' hit
  search-Found word m p m' p' near (inl (far, at)) (inl same) = absurd (omega arith)
  search-Found word m p m' p' near (inr hit) (inl (e, e')) =
      let (lt, found) = Hit-Found_negative word m p hit in
      (
        omega arith,
        subst (λ q. Found word m' q) (sym e') (subst (λ n. Found word n p) (sym e) found),
      )

  All-le :
      (word m n : ℕ) (entries : List ℕ)
      → m ≤ n
      → All (λ e. n ≤ dist word e) entries
      → All (λ e. m ≤ dist word e) entries
  All-le word m n [] le h = tt
  All-le word m n (x ∷ xs) le (h, hs) = (omega arith, All-le word m n xs le hs)

  first_of :
      (word m : ℕ) (entries : List ℕ)
      → 0 < length entries
      → All (λ e. m ≤ dist word e) entries
      → m ≤ dist word (get_or entries 0 0)
  first_of word m [] some h = absurd (omega arith)
  first_of word m (x ∷ xs) some h = h.0

  pub nearest-Nearest :
      Counts count_bits16 → (word : ℕ) → let (m, p) = nearest count_bits16 word in Nearest word m p
  unfolding nearest
  nearest-Nearest counts word =
      let (m, p) = nearest_loop count_bits16 word lookup_negative 0 11 0 in
      let (le, all, from) = nearest_loop_lem word lookup_negative 0 11 0 in
      let (le', all', from') = nearest_loop_lem word lookup_positive 0 m p in
      let near : m ≤ 10 = omega (
        arith,
        first_of word m lookup_negative (omega (arith, tables_size.0)) all,
        dist-le counts word (get_or lookup_negative 0 0),
      ) in
      let (lt, hit) = search-Found word m p _ _ near from from' in
      record {
        within = lt;
        found = hit;
        least_negative = All-le word _ m lookup_negative le' all;
        least_positive = all';
      }
