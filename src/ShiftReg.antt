-- ===== src/ShiftReg.antt =====
-- `class shift_reg` (lib/shift_reg.cc, include/satnogs/shift_reg.h). `d_reg` is the list of its
-- bits, front first. Popping an empty `std::deque`, which the language leaves undefined, is not
-- modelled: the laws are on registers of one bit or more.
pub mod Laws
mod Tests
use satnogs_gr_oot.Base.{ℕ, zero, suc, ◌+◌, ◌-◌, ◌*◌, ◌/◌, ◌%◌, ◌^◌, ◌≤◌, ◌<◌, min, max, bit_and}
use satnogs_gr_oot.Base.{bit_or, bit_xor, ◌≡◌, refl, sym, ap, ap₂, ◌∙◌, subst, ◌≢◌, ◌↔◌, ◌⊎◌, inl}
use satnogs_gr_oot.Base.{inr, Bool, true, false, ◌&&◌, ◌||◌, not, xor, Option, none, some, List, []}
use satnogs_gr_oot.Base.{◌∷◌, ◌++◌, map, reverse, append-nil, append_assoc, map-append, arith, ltb}
use satnogs_gr_oot.Base.{leb, ◌==◌, ==_iff, if◌then◌else◌, eq_refl, Bool-cases, Option-cases}
use satnogs_gr_oot.Base.{all_below, all_below_lem, All, IsBytes, All-append, length, get_elem?}
use satnogs_gr_oot.Base.{get_or, set, take, drop, replicate, length-append, length-replicate}
use satnogs_gr_oot.Base.{length-set, length-map, get_or-map}

pub record ShiftReg : Type 0 where
  pub size : ℕ
  pub bits : List Bool

unfoldable pub new : ℕ → ShiftReg
new len = record { size = len; bits = replicate len false }

-- The loop `d_reg[i] = v` for `i` up to `d_len`.
unfoldable pub fill_loop : ℕ → Bool → List Bool → List Bool
fill_loop zero v xs = xs
fill_loop (suc n) v [] = []
fill_loop (suc n) v (x ∷ xs) = v ∷ fill_loop n v xs

unfoldable pub reset : ShiftReg → ShiftReg
unfolding fill_loop
reset r = record r { bits = fill_loop r.size false r.bits }

-- `shift_reg::set`
unfoldable pub set_all : ShiftReg → ShiftReg
unfolding fill_loop
set_all r = record r { bits = fill_loop r.size true r.bits }

abbrev pub len : ShiftReg → ℕ
len r = r.size

unfoldable pub count_ones : List Bool → ℕ
count_ones [] = 0
count_ones (true ∷ bits) = suc (count_ones bits)
count_ones (false ∷ bits) = count_ones bits

unfoldable pub count : ShiftReg → ℕ
count r = count_ones r.bits

-- The loop of `|`, `&` and `^`: `ret[i]` for `i` up to `d_len`, written over the zeros of `ret`.
unfoldable pub combine_loop : (Bool → Bool → Bool) → ℕ → List Bool → List Bool → List Bool
combine_loop f zero xs ys = []
combine_loop f (suc n) [] ys = []
combine_loop f (suc n) (x ∷ xs) [] = []
combine_loop f (suc n) (x ∷ xs) (y ∷ ys) = f x y ∷ combine_loop f n xs ys

unfoldable pub or_reg : ShiftReg → ShiftReg → ShiftReg
unfolding combine_loop
or_reg r rhs = record { size = r.size; bits = combine_loop ◌||◌ r.size r.bits rhs.bits }

unfoldable pub and_reg : ShiftReg → ShiftReg → ShiftReg
unfolding combine_loop
and_reg r rhs = record { size = r.size; bits = combine_loop ◌&&◌ r.size r.bits rhs.bits }

unfoldable pub xor_reg : ShiftReg → ShiftReg → ShiftReg
unfolding combine_loop
xor_reg r rhs = record { size = r.size; bits = combine_loop xor r.size r.bits rhs.bits }

abbrev pub pop_back : List Bool → List Bool
pop_back [] = []
pop_back (x ∷ []) = []
pop_back (x ∷ y ∷ xs) = x ∷ pop_back (y ∷ xs)

abbrev pub pop_front : List Bool → List Bool
pop_front [] = []
pop_front (x ∷ xs) = xs

unfoldable pub push_front : Bool → ShiftReg → ShiftReg
push_front bit r = record r { bits = bit ∷ pop_back r.bits }

unfoldable pub push_back : Bool → ShiftReg → ShiftReg
push_back bit r = record r { bits = pop_front r.bits ++ (bit ∷ []) }

-- `operator >>=` and `operator <<=`
unfoldable pub shift_right : Bool → ShiftReg → ShiftReg
unfolding push_front
shift_right bit r = push_front bit r

unfoldable pub shift_left : Bool → ShiftReg → ShiftReg
unfolding push_back
shift_left bit r = push_back bit r

abbrev pub at : ShiftReg → ℕ → Bool
at r pos = get_or r.bits pos false

abbrev pub front : ShiftReg → Bool
front r = get_or r.bits 0 false

abbrev pub back : ShiftReg → Bool
back r = get_or r.bits (length r.bits - 1) false
