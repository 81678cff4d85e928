-- ===== src/Crc/Append.antt =====
-- `crc::append` and `crc::crc_size`.
use mathlib.Core.Option
use satnogs_gr_oot.Base.{get_or, zero, suc, ◌==◌, sym, subst, all_below_lem, ==_iff, ap, bit_xor-lt}
use satnogs_gr_oot.Base.{◌≢◌, all_below, IsBytes, bit_xor, ℕ, ◌+◌, ◌*◌, ◌/◌, ◌%◌, ◌^◌, ◌<◌, Bool}
use satnogs_gr_oot.Base.{true, Option, none, some, List, [], ◌∷◌, ◌≡◌, refl, arith, length}
use satnogs_gr_oot.Crc.Check.{ccitt_loop-lt}
use satnogs_gr_oot.Crc.Register.{loop_x25-lt}
use satnogs_gr_oot.Crc.Laws.{index-right}
use satnogs_gr_oot.Crc.Tables.{c_table}
use satnogs_gr_oot.Crc.{crc_none, crc16_ccitt_t, crc16_aug_ccitt_t, crc16_ccitt_reversed_t}
use satnogs_gr_oot.Crc.{crc16_ax25_t, crc16_ibm_t, crc32_c_t, crc_methods_num, reflected_step}
use satnogs_gr_oot.Crc.{reflected_loop, ibm_bits, ibm_loop, update_crc16_ibm, crc16_aug_ccitt}
use satnogs_gr_oot.Crc.{CrcType, crc_size, Endian, big, bytes16, bytes32, stored16, stored32}
use satnogs_gr_oot.Crc.{append, crc16_ccitt, crc16_ccitt_reversed, crc16_ax25, crc16_ibm, crc32_c}

-- `append` throws exactly when `crc_size` does, and otherwise writes as many bytes as it says, on
-- every host and in both byte orders.
pub crc_size-append :
    (host : Endian) (t : CrcType) (bytes : List ℕ) (nbo : Bool)
    → Option.map length (append host t bytes nbo) ≡ crc_size t
unfolding append crc_size stored16 stored32 bytes16 bytes32
crc_size-append host t bytes nbo = ground arith

-- The number that bytes in network order stand for.
value_from : ℕ → List ℕ → ℕ
value_from acc [] = acc
value_from acc (x ∷ xs) = value_from (acc * 2 ^ 8 + x) xs

unfoldable pub network_value : List ℕ → ℕ
unfolding value_from
network_value xs = value_from 0 xs

-- The checksum that the name of a CRC method stands for.
unfoldable pub named_checksum : CrcType → List ℕ → Option ℕ
named_checksum crc_none bytes = some 0
named_checksum crc16_ccitt_t bytes = some (crc16_ccitt bytes)
named_checksum crc16_aug_ccitt_t bytes = some (crc16_aug_ccitt bytes)
named_checksum crc16_ccitt_reversed_t bytes = some (crc16_ccitt_reversed bytes)
named_checksum crc16_ax25_t bytes = some (crc16_ax25 bytes)
named_checksum crc16_ibm_t bytes = some (crc16_ibm bytes)
named_checksum crc32_c_t bytes = some (crc32_c bytes)
named_checksum crc_methods_num bytes = none

pub value_bytes16 : (x : ℕ) → x < 2 ^ 16 → network_value (bytes16 big x) ≡ x
unfolding network_value bytes16
value_bytes16 x h = omega arith

pub value_bytes32 : (x : ℕ) → x < 2 ^ 32 → network_value (bytes32 big x) ≡ x
unfolding network_value bytes32
value_bytes32 x h = omega arith

c_entry-lt : all_below 256 (λ i. get_or c_table i 0 / 2 ^ 32 == 0) ≡ true
unfolding all_below c_table
c_entry-lt = refl

step_c-lt : (r d : ℕ) → r < 2 ^ 32 → d < 2 ^ 8 → reflected_step c_table r d < 2 ^ 32
unfolding reflected_step
step_c-lt r d hr hd =
    let i : ℕ = bit_xor (r % 2 ^ 8) d in
    let entry : get_or c_table i 0 / 2 ^ 32 ≡ 0 =
      (==_iff _ _).0
        (all_below_lem 256 _ i c_entry-lt (bit_xor-lt 8 (r % 2 ^ 8) d (omega arith) hd)) in
    subst (λ t. bit_xor (r / 2 ^ 8) (get_or c_table t 0) < 2 ^ 32) (sym (index-right r d hd))
      (bit_xor-lt 32 (r / 2 ^ 8) (get_or c_table i 0) (omega arith) (omega arith))

pub loop_c-lt :
    (r : ℕ) (xs : List ℕ) → r < 2 ^ 32 → IsBytes xs → reflected_loop c_table r xs < 2 ^ 32
unfolding reflected_loop
loop_c-lt r [] hr h = hr
loop_c-lt r (x ∷ xs) hr (p, h) = loop_c-lt (reflected_step c_table r x) xs (step_c-lt r x hr p) h

ibm_bits-lt : (n c r : ℕ) → r < 2 ^ 16 → ibm_bits n c r < 2 ^ 16
unfolding ibm_bits
ibm_bits-lt zero c r h = h
ibm_bits-lt (suc n) c r h = ibm_bits-lt n (c * 2 % 2 ^ 8) _ (ground arith)

pub ibm_loop-lt : (r : ℕ) (xs : List ℕ) → r < 2 ^ 16 → ibm_loop r xs < 2 ^ 16
unfolding ibm_loop update_crc16_ibm
ibm_loop-lt r [] h = h
ibm_loop-lt r (x ∷ xs) h = ibm_loop-lt (update_crc16_ibm x r) xs (ibm_bits-lt 8 x r h)

pub ccitt-lt : (bytes : List ℕ) → crc16_ccitt bytes < 2 ^ 16
unfolding crc16_ccitt
ccitt-lt bytes = ccitt_loop-lt 0 bytes (omega arith)

pub x25-lt : (bytes : List ℕ) → IsBytes bytes → crc16_ax25 bytes < 2 ^ 16
unfolding crc16_ax25
x25-lt bytes h = bit_xor-lt 16 _ 0xffff (loop_x25-lt 0xffff bytes (omega arith) h) (omega arith)

-- In network byte order, `append` writes the checksum that its method names, most significant byte
-- first, for every method but `CRC16_AUG_CCITT`.
pub append_network :
    (host : Endian) (t : CrcType) (bytes : List ℕ)
    → IsBytes bytes
    → t ≢ crc16_aug_ccitt_t
    → Option.map network_value (append host t bytes true) ≡ named_checksum t bytes
unfolding append named_checksum stored16 stored32 network_value crc16_ccitt_reversed crc16_ax25
    crc16_ibm crc32_c
append_network host crc_none bytes h ne = refl
append_network host crc16_ccitt_t bytes h ne =
    ap some (value_bytes16 (crc16_ccitt bytes) (ccitt-lt bytes))
append_network host crc16_aug_ccitt_t bytes h ne = absurd (ne refl)
append_network host crc16_ccitt_reversed_t bytes h ne =
    ap some (value_bytes16 (crc16_ccitt_reversed bytes) (x25-lt bytes h))
append_network host crc16_ax25_t bytes h ne =
    ap some (value_bytes16 (crc16_ax25 bytes) (x25-lt bytes h))
append_network host crc16_ibm_t bytes h ne =
    ap some (value_bytes16 (crc16_ibm bytes) (ibm_loop-lt 0xffff bytes (omega arith)))
append_network host crc32_c_t bytes h ne = ap some (
    value_bytes32 (crc32_c bytes)
      (bit_xor-lt 32 _ 0xffffffff (loop_c-lt 0xffffffff bytes (omega arith) h) (omega arith)))
append_network host crc_methods_num bytes h ne = refl
