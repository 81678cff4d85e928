-- ===== src/Crc/Tests.antt =====
-- Runs of lib/crc.cc on "123456789", the values that lib/qa_crc.cc and the CRC catalogues give, and
-- the theorems at concrete frames.
use mathlib.Core.Option
use satnogs_gr_oot.Base.{◌≢◌, ℕ, bit_xor, ◌≡◌, refl, true, some, List, [], ◌∷◌, ◌++◌, arith}
use satnogs_gr_oot.Base.{IsBytes, length}
use satnogs_gr_oot.Crc.{crc_size, little, big, bytes16, stored16, append, crc16_ccitt}
use satnogs_gr_oot.Crc.{crc16_ccitt_reversed, crc16_ax25, crc16_ibm, crc32_c, crc16_aug_ccitt}
use satnogs_gr_oot.Crc.{crc32_c_t, crc16_ax25_t, crc16_aug_ccitt_t, reflected_loop, reflected_step}
use satnogs_gr_oot.Crc.{ccitt_loop, ccitt_step, ibm_loop, update_crc16_ibm}
use satnogs_gr_oot.Crc.Tables.{ccitt_table_reverse, ccitt_table, c_table}
use satnogs_gr_oot.Crc.Reference.{remainder, left_byte, right_byte}
use satnogs_gr_oot.Crc.Refine.{crc16_ax25-remainder, crc32_c-remainder, crc16_ccitt-remainder}
use satnogs_gr_oot.Crc.Check.{crc16_ax25_residue}
use satnogs_gr_oot.Crc.ByteError.{crc16_ax25_byte_error}
use satnogs_gr_oot.Crc.Append.{crc_size-append, append_network, network_value, named_checksum}

abbrev digits_text : List ℕ
digits_text = 0x31 ∷ 0x32 ∷ 0x33 ∷ 0x34 ∷ 0x35 ∷ 0x36 ∷ 0x37 ∷ 0x38 ∷ 0x39 ∷ []

crc16_ax25_digits : crc16_ax25 digits_text ≡ 0x906e
unfolding crc16_ax25 reflected_loop reflected_step ccitt_table_reverse
crc16_ax25_digits = refl

crc16_ccitt_digits : crc16_ccitt digits_text ≡ 0x31c3
unfolding crc16_ccitt ccitt_loop ccitt_step ccitt_table
crc16_ccitt_digits = refl

crc16_aug_digits : crc16_aug_ccitt digits_text ≡ bit_xor 0xe5cc 0xffff
unfolding crc16_aug_ccitt ccitt_loop ccitt_step ccitt_table
crc16_aug_digits = refl

crc16_ibm_digits : crc16_ibm digits_text ≡ 0xaee7
unfolding crc16_ibm ibm_loop update_crc16_ibm
crc16_ibm_digits = refl

crc32_c_digits : crc32_c digits_text ≡ 0xe3069283
unfolding crc32_c reflected_loop reflected_step c_table
crc32_c_digits = refl

-- The bytes that `append` writes for `CRC16_AUG_CCITT` are those of `crc16_ccitt`.
append-aug : append little crc16_aug_ccitt_t digits_text true ≡ some (0x31 ∷ 0xc3 ∷ [])
unfolding append stored16 bytes16 crc16_ccitt ccitt_loop ccitt_step ccitt_table
append-aug = refl

digits_text-IsBytes : IsBytes digits_text
digits_text-IsBytes = omega arith

crc16_ax25-remainder_example :
    (crc16_ax25 digits_text ≡ bit_xor (remainder (right_byte 0x8408) 0xffff digits_text) 0xffff)
    × (crc16_ccitt_reversed digits_text ≡ crc16_ax25 digits_text)
crc16_ax25-remainder_example = crc16_ax25-remainder digits_text digits_text-IsBytes

crc32_c-remainder_example :
    crc32_c digits_text
    ≡ bit_xor (remainder (right_byte 0x82f63b78) 0xffffffff digits_text) 0xffffffff
crc32_c-remainder_example = crc32_c-remainder digits_text digits_text-IsBytes

crc16_ccitt-remainder_example :
    (crc16_ccitt digits_text ≡ remainder (left_byte 0x1021) 0 digits_text)
    × (crc16_aug_ccitt digits_text
        ≡ bit_xor (remainder (left_byte 0x1021) 0x1d0f digits_text) 0xffff)
crc16_ccitt-remainder_example = crc16_ccitt-remainder digits_text digits_text-IsBytes

crc16_ax25_residue_example :
    crc16_ax25 (digits_text ++ bytes16 little (crc16_ax25 digits_text)) ≡ 0x0f47
crc16_ax25_residue_example = crc16_ax25_residue digits_text digits_text-IsBytes

crc16_ax25_byte_error_example : crc16_ax25 (1 ∷ 2 ∷ 3 ∷ []) ≢ crc16_ax25 (1 ∷ 7 ∷ 3 ∷ [])
crc16_ax25_byte_error_example =
    crc16_ax25_byte_error (1 ∷ []) (3 ∷ []) 2 7 (omega arith) (omega arith) (omega arith)
      (omega arith) (omega arith)

crc_size-append_example :
    Option.map length (append big crc32_c_t digits_text true) ≡ crc_size crc32_c_t
crc_size-append_example = crc_size-append big crc32_c_t digits_text true

append_network_example :
    Option.map network_value (append little crc16_ax25_t digits_text true)
    ≡ named_checksum crc16_ax25_t digits_text
append_network_example =
    append_network little crc16_ax25_t digits_text digits_text-IsBytes (λ e. cc)
