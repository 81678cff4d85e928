-- ===== src/Deinterleaver.antt =====
-- `class convolutional_deinterleaver` (lib/convolutional_deinterleaver.cc,
-- include/satnogs/convolutional_deinterleaver.h). A branch is the list of its queue, front first.
pub mod Laws
mod Tests
use satnogs_gr_oot.Base.{ℕ, zero, suc, ◌+◌, ◌-◌, ◌*◌, ◌/◌, ◌%◌, ◌^◌, ◌≤◌, ◌<◌, min, max, bit_and}
use satnogs_gr_oot.Base.{bit_or, bit_xor, ◌≡◌, refl, sym, ap, ap₂, ◌∙◌, subst, ◌≢◌, ◌↔◌, ◌⊎◌, inl}
use satnogs_gr_oot.Base.{inr, Bool, true, false, ◌&&◌, ◌||◌, not, xor, Option, none, some, List, []}
use satnogs_gr_oot.Base.{◌∷◌, ◌++◌, map, reverse, append-nil, append_assoc, map-append, arith, ltb}
use satnogs_gr_oot.Base.{leb, ◌==◌, ==_iff, if◌then◌else◌, eq_refl, Bool-cases, Option-cases}
use satnogs_gr_oot.Base.{all_below, all_below_lem, All, IsBytes, All-append, length, get_elem?}
use satnogs_gr_oot.Base.{get_or, set, take, drop, replicate, length-append, length-replicate}
use satnogs_gr_oot.Base.{length-set, length-map, get_or-map}
use satnogs_gr_oot.Bytes.{msb_bits, join_msb, or_falling}

pub record Deinterleaver : Type 0 where
  pub nbranches : ℕ
  pub m : ℕ
  pub idx : ℕ
  pub branches : List (List ℕ)

-- The loop of the constructor and of `reset`, on the branches to go: zeros for the delay.
unfoldable pub make_branches : ℕ → ℕ → List (List ℕ)
make_branches zero m = []
make_branches (suc left) m = replicate (left * m) 0 ∷ make_branches left m

unfoldable pub new : ℕ → ℕ → Deinterleaver
unfolding make_branches
new branches m = record {
  nbranches = branches;
  m = m;
  idx = 0;
  branches = make_branches branches m;
}

unfoldable pub reset : Deinterleaver → Deinterleaver
unfolding make_branches
reset d = record d { branches = make_branches d.nbranches d.m; idx = 0 }

-- `push_back(b)`, `front()` and `pop_front()` of one branch.
abbrev pub delay : List ℕ → ℕ → ℕ × List ℕ
delay [] b = (b, [])
delay (x ∷ queue) b = (x, queue ++ (b ∷ []))

unfoldable pub decode_bit : Deinterleaver → ℕ → ℕ × Deinterleaver
decode_bit d b =
    let (o, queue) = delay (get_or d.branches d.idx []) b in
    (o, record d { branches = set d.branches d.idx queue; idx = (d.idx + 1) % d.nbranches })

-- One call of `decode_bit` for each bit, in order.
unfoldable pub decode_bits : Deinterleaver → List ℕ → List ℕ × Deinterleaver
unfolding decode_bit
decode_bits d [] = ([], d)
decode_bits d (b ∷ bits) =
    let (o, e) = decode_bit d b in let (os, t) = decode_bits e bits in (o ∷ os, t)

unfoldable pub decode_byte : Deinterleaver → ℕ → ℕ × Deinterleaver
unfolding decode_bits
decode_byte d b = let (os, t) = decode_bits d (msb_bits b) in (join_msb os, t)
