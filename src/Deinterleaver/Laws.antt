-- ===== src/Deinterleaver/Laws.antt =====
-- The queues of `convolutional_deinterleaver` keep their lengths, and `reset` makes a new one.
use native.Mathlib.Nat.{mod-lt}
use satnogs_gr_oot.Base.{ℕ, zero, suc, ◌+◌, ◌<◌, ◌≡◌, refl, ap, ap₂, ◌∙◌, List, [], ◌∷◌, map, arith}
use satnogs_gr_oot.Base.{length, get_or, set, length-append, length-set}
use satnogs_gr_oot.Bytes.{msb_bits}
use satnogs_gr_oot.Deinterleaver.{Deinterleaver, make_branches, new, reset, delay, decode_bit}
use satnogs_gr_oot.Deinterleaver.{decode_bits, decode_byte}

-- As long as the branches of a new deinterleaver, and the index on one of them.
pub record IsAligned (d : Deinterleaver) : Type 0 where
  pub number : length d.branches ≡ d.nbranches
  pub index : d.idx < d.nbranches
  pub delays : map length d.branches ≡ map length (make_branches d.nbranches d.m)

length-make_branches : (n m : ℕ) → length (make_branches n m) ≡ n
unfolding make_branches
length-make_branches zero m = refl
length-make_branches (suc n) m = ap suc (length-make_branches n m)

pub new-IsAligned : (branches m : ℕ) → 0 < branches → IsAligned (new branches m)
unfolding new
new-IsAligned branches m pos = record {
  number = length-make_branches branches m;
  index = pos;
  delays = refl;
}

length-delay : (queue : List ℕ) (b : ℕ) → length (delay queue b).1 ≡ length queue
length-delay [] b = refl
length-delay (x ∷ queue) b = omega (arith, length-append queue (b ∷ []))

map-set :
    (xs : List (List ℕ)) (i : ℕ) (q : List ℕ)
    → length q ≡ length (get_or xs i [])
    → map length (set xs i q) ≡ map length xs
map-set [] i q h = refl
map-set (x ∷ xs) zero q h = ap (λ n. n ∷ map length xs) h
map-set (x ∷ xs) (suc i) q h = ap (λ t. length x ∷ t) (map-set xs i q h)

-- What one deinterleaver keeps of another: the layout and the lengths of the queues.
abbrev Same : Deinterleaver → Deinterleaver → Type 0
Same d e = (e.nbranches ≡ d.nbranches) × (e.m ≡ d.m)

decode_bit-IsAligned :
    (d : Deinterleaver) (b : ℕ)
    → IsAligned d
    → IsAligned (decode_bit d b).1 × Same d (decode_bit d b).1
unfolding decode_bit
decode_bit-IsAligned d b v =
    let queue : List ℕ = (delay (get_or d.branches d.idx []) b).1 in
    let pos : d.idx < d.nbranches = v.index in
    (
      record {
        number = length-set d.branches d.idx queue ∙ v.number;
        index = mod-lt (d.idx + 1) (omega arith);
        delays =
            map-set d.branches d.idx queue (length-delay (get_or d.branches d.idx []) b) ∙ v.delays;
      },
      (refl, refl),
    )

decode_bits-IsAligned :
    (bits : List ℕ) (d : Deinterleaver)
    → IsAligned d
    → IsAligned (decode_bits d bits).1 × Same d (decode_bits d bits).1
unfolding decode_bits
decode_bits-IsAligned [] d v = (v, (refl, refl))
decode_bits-IsAligned (b ∷ bits) d v =
    let (w, (n, m)) = decode_bit-IsAligned d b v in
    let (z, (n', m')) = decode_bits-IsAligned bits (decode_bit d b).1 w in (z, (n' ∙ n, m' ∙ m))

-- Decoding a byte from a valid deinterleaver leaves a valid one, whose queues are as long as those
-- of a new one, and a reset after it makes a new one.
pub decode_byte-IsAligned :
    (d : Deinterleaver) (b : ℕ)
    → IsAligned d
    → IsAligned (decode_byte d b).1 × (reset (decode_byte d b).1 ≡ new d.nbranches d.m)
unfolding decode_byte reset new
decode_byte-IsAligned d b v =
    let (w, (n, m)) = decode_bits-IsAligned (msb_bits b) d v in (w, ap₂ (λ n m. new n m) n m)
