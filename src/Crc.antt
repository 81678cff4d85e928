-- ===== src/Crc.antt =====
-- `class crc` (lib/crc.cc, include/satnogs/crc.h). A buffer and its length are a list of bytes; a
-- `uint16_t` or `uint32_t` register is a number whose left shift is cut by `%`.
-- The byte order of the host, which `htons`, `htonl` and `memcpy` depend on, is the argument `host`.
pub mod Tables
pub mod Reference
pub mod Laws
pub mod Refine
pub mod Register
pub mod Check
pub mod ByteError
pub mod Append
mod Tests
use Tables.{ccitt_table_reverse, ccitt_table, c_table}
use satnogs_gr_oot.Base.{ℕ, zero, suc, ◌*◌, ◌/◌, ◌%◌, ◌^◌, bit_and, bit_xor, Bool, true, false}
use satnogs_gr_oot.Base.{Option, none, some, List, [], ◌∷◌, ◌==◌, if◌then◌else◌, get_or}

-- The body of the loops that take the register to the right, through a table.
unfoldable pub reflected_step : List ℕ → ℕ → ℕ → ℕ
reflected_step table crc d = bit_xor (crc / 2 ^ 8) (get_or table (bit_and (bit_xor crc d) 0xff) 0)

unfoldable pub reflected_loop : List ℕ → ℕ → List ℕ → ℕ
reflected_loop table crc [] = crc
reflected_loop table crc (d ∷ data_rest) =
    reflected_loop table (reflected_step table crc d) data_rest

unfoldable pub crc16_ccitt_reversed : List ℕ → ℕ
crc16_ccitt_reversed bytes = bit_xor (reflected_loop ccitt_table_reverse 0xffff bytes) 0xffff

-- The body of the loops of `crc16_ccitt` and `crc16_aug_ccitt`: the register moves to the left.
unfoldable pub ccitt_step : ℕ → ℕ → ℕ
ccitt_step crc d =
    bit_xor (get_or ccitt_table (bit_and (bit_xor (crc / 2 ^ 8) d) 0xff) 0) (crc * 2 ^ 8) % 2 ^ 16

unfoldable pub ccitt_loop : ℕ → List ℕ → ℕ
ccitt_loop crc [] = crc
ccitt_loop crc (d ∷ data_rest) = ccitt_loop (ccitt_step crc d) data_rest

unfoldable pub crc16_ccitt : List ℕ → ℕ
crc16_ccitt bytes = ccitt_loop 0 bytes

unfoldable pub crc16_aug_ccitt : List ℕ → ℕ
crc16_aug_ccitt bytes = bit_xor (ccitt_loop 0x1d0f bytes) 0xffff

unfoldable pub crc16_ax25 : List ℕ → ℕ
crc16_ax25 bytes = bit_xor (reflected_loop ccitt_table_reverse 0xffff bytes) 0xffff

-- The loop of `update_crc16_ibm`, on the rounds left; `crc` is the `uint8_t` argument.
unfoldable pub ibm_bits : ℕ → ℕ → ℕ → ℕ
ibm_bits zero crc reg = reg
ibm_bits (suc rounds) crc reg = ibm_bits rounds (crc * 2 % 2 ^ 8) (
    if bit_xor (bit_and reg 0x8000 / 2 ^ 8) (bit_and crc 0x80) == 0
    then reg * 2 % 2 ^ 16
    else bit_xor (reg * 2) 0x8005 % 2 ^ 16)

unfoldable pub update_crc16_ibm : ℕ → ℕ → ℕ
unfolding ibm_bits
update_crc16_ibm crc reg = ibm_bits 8 crc reg

unfoldable pub ibm_loop : ℕ → List ℕ → ℕ
ibm_loop crc [] = crc
ibm_loop crc (d ∷ data_rest) = ibm_loop (update_crc16_ibm d crc) data_rest

unfoldable pub crc16_ibm : List ℕ → ℕ
crc16_ibm bytes = ibm_loop 0xffff bytes

unfoldable pub crc32_c : List ℕ → ℕ
crc32_c bytes = bit_xor (reflected_loop c_table 0xffffffff bytes) 0xffffffff

-- `crc_t`
pub data CrcType : Type 0 where
  crc_none crc16_ccitt_t crc16_aug_ccitt_t crc16_ccitt_reversed_t : CrcType
  crc16_ax25_t crc16_ibm_t crc32_c_t crc_methods_num : CrcType

-- `none` is the exception `std::invalid_argument`.
unfoldable pub crc_size : CrcType → Option ℕ
crc_size crc_none = some 0
crc_size crc16_ccitt_t = some 2
crc_size crc16_aug_ccitt_t = some 2
crc_size crc16_ccitt_reversed_t = some 2
crc_size crc16_ax25_t = some 2
crc_size crc16_ibm_t = some 2
crc_size crc32_c_t = some 4
crc_size crc_methods_num = none

-- The byte order of the host.
pub data Endian : Type 0 where
  little big : Endian

-- The bytes of a `uint16_t` or a `uint32_t` in memory, in the order of their addresses.
unfoldable pub bytes16 : Endian → ℕ → List ℕ
bytes16 little x = x % 2 ^ 8 ∷ x / 2 ^ 8 % 2 ^ 8 ∷ []
bytes16 big x = x / 2 ^ 8 % 2 ^ 8 ∷ x % 2 ^ 8 ∷ []

unfoldable pub bytes32 : Endian → ℕ → List ℕ
bytes32 little x = x % 2 ^ 8 ∷ x / 2 ^ 8 % 2 ^ 8 ∷ x / 2 ^ 16 % 2 ^ 8 ∷ x / 2 ^ 24 % 2 ^ 8 ∷ []
bytes32 big x = x / 2 ^ 24 % 2 ^ 8 ∷ x / 2 ^ 16 % 2 ^ 8 ∷ x / 2 ^ 8 % 2 ^ 8 ∷ x % 2 ^ 8 ∷ []

-- What `memcpy(out, &x, sizeof(x))` writes after the conversion that `nbo` asks for: `htons` and
-- `htonl` give the value whose bytes in memory are in network order.
unfoldable pub stored16 : Endian → Bool → ℕ → List ℕ
stored16 host true x = bytes16 big x
stored16 host false x = bytes16 host x

unfoldable pub stored32 : Endian → Bool → ℕ → List ℕ
stored32 host true x = bytes32 big x
stored32 host false x = bytes32 host x

-- The bytes written to `out`, whose number is the value returned; `none` is the exception.
unfoldable pub append : Endian → CrcType → List ℕ → Bool → Option (List ℕ)
append host crc_none bytes nbo = some []
append host crc16_ccitt_t bytes nbo = some (stored16 host nbo (crc16_ccitt bytes))
append host crc16_aug_ccitt_t bytes nbo = some (stored16 host nbo (crc16_ccitt bytes))
append host crc16_ccitt_reversed_t bytes nbo = some (stored16 host nbo (crc16_ccitt_reversed bytes))
append host crc16_ax25_t bytes nbo = some (stored16 host nbo (crc16_ax25 bytes))
append host crc16_ibm_t bytes nbo = some (stored16 host nbo (crc16_ibm bytes))
append host crc32_c_t bytes nbo = some (stored32 host nbo (crc32_c bytes))
append host crc_methods_num bytes nbo = none
