-- ===== src/ShiftReg/Laws.antt =====
-- What `shift_reg` does on registers of full length: the delay of its bits, the operators and the
-- number of ones.
use satnogs_gr_oot.Base.{append-nil, ℕ, zero, suc, ◌-◌, ◌≤◌, ◌≡◌, refl, sym, ap, ◌∙◌, ◌↔◌, Bool}
use satnogs_gr_oot.Base.{true, false, ◌&&◌, ◌||◌, xor, List, [], ◌∷◌, ◌++◌, append_assoc, arith}
use satnogs_gr_oot.Base.{length, drop, length-append}
use satnogs_gr_oot.ShiftReg.{ShiftReg, fill_loop, reset, set_all, count_ones, count, combine_loop}
use satnogs_gr_oot.ShiftReg.{or_reg, and_reg, xor_reg, pop_back, pop_front, push_front, push_back}
use satnogs_gr_oot.ShiftReg.{shift_right, shift_left}

-- As many bits as memory stages.
abbrev pub IsValid : ShiftReg → Type 0
IsValid r = length r.bits ≡ r.size

length-fill_loop : (n : ℕ) (v : Bool) (xs : List Bool) → length (fill_loop n v xs) ≡ length xs
unfolding fill_loop
length-fill_loop zero v xs = refl
length-fill_loop (suc n) v [] = refl
length-fill_loop (suc n) v (x ∷ xs) = ap suc (length-fill_loop n v xs)

length-combine_loop :
    (f : Bool → Bool → Bool) (n : ℕ) (xs ys : List Bool)
    → length xs ≡ n
    → length ys ≡ n
    → length (combine_loop f n xs ys) ≡ n
unfolding combine_loop
length-combine_loop f zero xs ys h k = refl
length-combine_loop f (suc n) [] ys h k = absurd (omega arith)
length-combine_loop f (suc n) (x ∷ xs) [] h k = absurd (omega arith)
length-combine_loop f (suc n) (x ∷ xs) (y ∷ ys) h k =
    ap suc (length-combine_loop f n xs ys (omega arith) (omega arith))

length-pop_back : (xs : List Bool) → length (pop_back xs) ≡ length xs - 1
length-pop_back [] = omega arith
length-pop_back (x ∷ []) = omega arith
length-pop_back (x ∷ y ∷ xs) = omega (arith, length-pop_back (y ∷ xs))

length-pop_front : (xs : List Bool) → length (pop_front xs) ≡ length xs - 1
length-pop_front [] = omega arith
length-pop_front (x ∷ xs) = omega arith

-- Shifting either way, filling and the operators between registers of one size keep every register
-- of one stage or more at full length.
pub operations-IsValid :
    (bit : Bool) (r s : ShiftReg)
    → IsValid r
    → IsValid s
    → s.size ≡ r.size
    → 1 ≤ r.size
    → IsValid (shift_left bit r)
      × IsValid (shift_right bit r)
      × IsValid (reset r)
      × IsValid (set_all r)
      × IsValid (or_reg r s)
      × IsValid (and_reg r s)
      × IsValid (xor_reg r s)
unfolding shift_left shift_right reset set_all or_reg and_reg xor_reg push_back push_front
operations-IsValid bit r s hr hs same pos = (
  omega (arith, hr, length-append (pop_front r.bits) (bit ∷ []), length-pop_front r.bits),
  omega (arith, hr, length-pop_back r.bits),
  length-fill_loop r.size false r.bits ∙ hr,
  length-fill_loop r.size true r.bits ∙ hr,
  length-combine_loop ◌||◌ r.size r.bits s.bits hr (hs ∙ same),
  length-combine_loop ◌&&◌ r.size r.bits s.bits hr (hs ∙ same),
  length-combine_loop xor r.size r.bits s.bits hr (hs ∙ same),
)

-- Bits shifted in one after another.
unfoldable pub shift_all : List Bool → ShiftReg → ShiftReg
shift_all [] r = r
shift_all (b ∷ stream) r = shift_all stream (shift_left b r)

pop_front-append :
    (xs : List Bool) (b : Bool) (stream : List Bool)
    → 1 ≤ length xs
    → (n : ℕ) → drop n ((pop_front xs ++ (b ∷ [])) ++ stream) ≡ drop (suc n) (xs ++ (b ∷ stream))
pop_front-append [] b stream h n = absurd (omega arith)
pop_front-append (x ∷ xs) b stream h n = ap (drop n) (append_assoc xs (b ∷ []) stream)

-- A register is the last bits of what was shifted in, behind what it held: each bit comes out
-- after as many shifts as there are stages.
pub shift_all-bits :
    (stream : List Bool) (r : ShiftReg)
    → IsValid r
    → 1 ≤ r.size
    → (shift_all stream r).bits ≡ drop (length stream) (r.bits ++ stream)
unfolding shift_all shift_left push_back
shift_all-bits [] r h pos = sym (append-nil r.bits)
shift_all-bits (b ∷ stream) r h pos =
    shift_all-bits stream (shift_left b r)
      (omega (arith, h, length-append (pop_front r.bits) (b ∷ []), length-pop_front r.bits)) pos
    ∙ pop_front-append r.bits b stream (omega (arith, h)) (length stream)

combine-count :
    (n : ℕ) (xs ys : List Bool)
    → length xs ≡ n
    → length ys ≡ n
    → count_ones (combine_loop xor n xs ys) ≡ 0
    → xs ≡ ys
unfolding count_ones combine_loop xor
combine-count zero [] [] h k e = refl
combine-count zero (x ∷ xs) ys h k e = absurd (omega arith)
combine-count zero [] (y ∷ ys) h k e = absurd (omega arith)
combine-count (suc n) [] ys h k e = absurd (omega arith)
combine-count (suc n) (x ∷ xs) [] h k e = absurd (omega arith)
combine-count (suc n) (true ∷ xs) (true ∷ ys) h k e =
    ap (λ t. true ∷ t) (combine-count n xs ys (omega arith) (omega arith) e)
combine-count (suc n) (false ∷ xs) (false ∷ ys) h k e =
    ap (λ t. false ∷ t) (combine-count n xs ys (omega arith) (omega arith) e)
combine-count (suc n) (true ∷ xs) (false ∷ ys) h k e = absurd (omega arith)
combine-count (suc n) (false ∷ xs) (true ∷ ys) h k e = absurd (omega arith)

combine_self : (n : ℕ) (xs : List Bool) → count_ones (combine_loop xor n xs xs) ≡ 0
unfolding count_ones combine_loop xor
combine_self zero xs = refl
combine_self (suc n) [] = refl
combine_self (suc n) (true ∷ xs) = combine_self n xs
combine_self (suc n) (false ∷ xs) = combine_self n xs

-- The number of ones in `r ^ s`, by which the decoders measure the distance to a sync word, is 0
-- exactly if the registers hold the same bits.
pub count-xor_reg :
    (r s : ShiftReg)
    → IsValid r
    → IsValid s
    → s.size ≡ r.size
    → (count (xor_reg r s) ≡ 0) ↔ (r.bits ≡ s.bits)
unfolding count xor_reg
count-xor_reg r s hr hs same = (
  combine-count r.size r.bits s.bits hr (hs ∙ same),
  λ e. ap (λ t. count_ones (combine_loop xor r.size r.bits t)) (sym e) ∙ combine_self r.size r.bits,
)
