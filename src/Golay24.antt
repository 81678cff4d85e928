-- ===== src/Golay24.antt =====
-- `class golay24` (lib/golay24.cc, include/satnogs/golay24.h). A `uint16_t` and a `uint32_t` are
-- numbers; what is left of a `uint32_t` that a loop shifts is cut by `%`.
pub mod Laws
mod Tests
use satnogs_gr_oot.Base.{ℕ, zero, suc, ◌+◌, ◌-◌, ◌*◌, ◌/◌, ◌%◌, ◌^◌, ◌≤◌, ◌<◌, min, max, bit_and}
use satnogs_gr_oot.Base.{bit_or, bit_xor, ◌≡◌, refl, sym, ap, ap₂, ◌∙◌, subst, ◌≢◌, ◌↔◌, ◌⊎◌, inl}
use satnogs_gr_oot.Base.{inr, Bool, true, false, ◌&&◌, ◌||◌, not, xor, Option, none, some, List, []}
use satnogs_gr_oot.Base.{◌∷◌, ◌++◌, map, reverse, append-nil, append_assoc, map-append, arith, ltb}
use satnogs_gr_oot.Base.{leb, ◌==◌, ==_iff, if◌then◌else◌, eq_refl, Bool-cases, Option-cases}
use satnogs_gr_oot.Base.{all_below, all_below_lem, All, IsBytes, All-append, length, get_elem?}
use satnogs_gr_oot.Base.{get_or, set, take, drop, replicate, length-append, length-replicate}
use satnogs_gr_oot.Base.{length-set, length-map, get_or-map}
use satnogs_gr_oot.Utils.{bit_count}

-- `G_P` and `G_I`
unfoldable pub g_p : List ℕ
g_p =
    0x8ed ∷ 0x1db ∷ 0x3b5 ∷ 0x769 ∷ 0xed1 ∷ 0xda3 ∷ 0xb47 ∷ 0x68f ∷ 0xd1d ∷ 0xa3b ∷ 0x477 ∷ 0xffe
    ∷ []

unfoldable pub g_i : List ℕ
g_i =
    0x800 ∷ 0x400 ∷ 0x200 ∷ 0x100 ∷ 0x080 ∷ 0x040 ∷ 0x020 ∷ 0x010 ∷ 0x008 ∷ 0x004 ∷ 0x002 ∷ 0x001
    ∷ []

unfoldable pub weight : ℕ → ℕ
weight x = bit_count (bit_and x 0xfff)

-- `s = (s << 1) | (weight(y & row) % 2)` for the rows in order.
unfoldable pub parity_loop : List ℕ → ℕ → ℕ → ℕ
unfolding weight
parity_loop [] y s = s
parity_loop (row ∷ rows) y s =
    parity_loop rows y (bit_or (s * 2 % 2 ^ 32) (weight (bit_and y row) % 2))

unfoldable pub syndrome : ℕ → ℕ → ℕ
unfolding parity_loop
syndrome x y = bit_xor (parity_loop g_p y 0) x

-- `tmp ^= (v >> j) & 0x01` for `n` more values of `j`.
unfoldable pub xor_bits : ℕ → ℕ → ℕ → ℕ → ℕ
xor_bits zero j v tmp = tmp
xor_bits (suc n) j v tmp = xor_bits n (j + 1) v (bit_xor tmp (bit_and (v / 2 ^ j) 0x01))

-- The loop of `encode12` over the rows: `c[1]`.
unfoldable pub encode_loop : List ℕ → ℕ → ℕ → ℕ
unfolding xor_bits
encode_loop [] c0 c1 = c1
encode_loop (row ∷ rows) c0 c1 =
    encode_loop rows c0 (bit_xor (c1 * 2 % 2 ^ 32) (xor_bits 12 0 (bit_and c0 row) 0))

unfoldable pub encode12 : ℕ → Bool → ℕ
unfolding encode_loop g_p
encode12 input lsb_parity =
    let c0 = bit_and input 0xfff in
    let c1 = encode_loop g_p c0 0 in
    if lsb_parity
    then bit_or (bit_and c0 0xfff * 2 ^ 12) (bit_and c1 0xfff)
    else bit_or (bit_and c1 0xfff * 2 ^ 12) (bit_and c0 0xfff)

-- The first loop of `decode24`: `*out` at the row that fits the syndrome.
unfoldable pub message_loop : List ℕ → List ℕ → ℕ → ℕ → ℕ → Option ℕ
unfolding weight
message_loop [] units s r0 r1 = none
message_loop (row ∷ rows) [] s r0 r1 = none
message_loop (row ∷ rows) (unit ∷ units) s r0 r1 =
    let tmp = bit_xor s row % 2 ^ 16 in
    let rest = message_loop rows units s r0 r1 in
    if leb (weight tmp) 2
    then some (bit_or (bit_xor r0 tmp * 2 ^ 12 % 2 ^ 32) (bit_xor r1 unit))
    else rest

-- The last loop of `decode24`.
unfoldable pub parity_part_loop : List ℕ → List ℕ → ℕ → ℕ → ℕ → Option ℕ
unfolding weight
parity_part_loop [] units sp r0 r1 = none
parity_part_loop (row ∷ rows) [] sp r0 r1 = none
parity_part_loop (row ∷ rows) (unit ∷ units) sp r0 r1 =
    let tmp = bit_xor sp row % 2 ^ 16 in
    let rest = parity_part_loop rows units sp r0 r1 in
    if weight tmp == 2
    then some (bit_or (bit_xor r0 unit * 2 ^ 12 % 2 ^ 32) (bit_xor r1 tmp))
    else rest

-- `*out`; `none` is `false`, which leaves `*out` as it was.
unfoldable pub decode24 : ℕ → Option ℕ
unfolding syndrome message_loop parity_part_loop g_p g_i
decode24 input =
    let r0 = bit_and (input / 2 ^ 12) 0xfff in
    let r1 = bit_and input 0xfff in
    let s = syndrome r0 r1 in
    let sp = parity_loop g_p s 0 in
    if leb (weight s) 3
    then some (bit_or (bit_xor r0 s * 2 ^ 12 % 2 ^ 32) r1)
    else elim (message_loop g_p g_i s r0 r1) [
      | some out ↦ some out
      | none ↦
          if weight sp == 2 || weight sp == 3
          then some (bit_or (r0 * 2 ^ 12 % 2 ^ 32) (bit_xor r1 sp))
          else parity_part_loop g_p g_i sp r0 r1
    ]
