-- ===== src/CrcAsync.antt =====
-- `class crc_async_impl` (lib/crc_async_impl.cc): the handlers of messages, one of which is chosen by
-- the constructor. For a PDU shorter than its checksum `check` reads outside of it; the model then
-- reads nothing, and the laws are on longer ones.
pub mod Laws
mod Tests
use satnogs_gr_oot.Base.{ℕ, ◌+◌, ◌-◌, ◌*◌, ◌^◌, ◌≡◌, Bool, true, false, Option, none, some, List}
use satnogs_gr_oot.Base.{◌++◌, ◌==◌, if◌then◌else◌, length, get_or, take}
use satnogs_gr_oot.Crc.{CrcType, crc_none, crc16_ccitt_t, crc16_aug_ccitt_t, crc16_ccitt_reversed_t}
use satnogs_gr_oot.Crc.{crc16_ax25_t, crc16_ibm_t, crc32_c_t, crc_methods_num, crc_size, Endian}
use satnogs_gr_oot.Crc.{crc16_ccitt, crc16_aug_ccitt, crc16_ccitt_reversed, crc16_ibm, crc32_c}
use satnogs_gr_oot.Crc

-- What the handlers call of GNU Radio's `pmt`, with what its documentation says of pairs and blobs.
pub record Pdus : Type 1 where
  pub Message : Type 0
  pub nil : Message
  pub is_blob : Message → Bool
  pub is_pair : Message → Bool
  pub car : Message → Message
  pub cdr : Message → Message
  pub cons : Message → Message → Message
  pub make_blob : List ℕ → Message
  pub uniform_vector_elements : Message → List ℕ
  pub is_blob_cons : (a b : Message) → is_blob (cons a b) ≡ false
  pub is_pair_cons : (a b : Message) → is_pair (cons a b) ≡ true
  pub car_cons : (a b : Message) → car (cons a b) ≡ a
  pub cdr_cons : (a b : Message) → cdr (cons a b) ≡ b
  pub elements_blob : (xs : List ℕ) → uniform_vector_elements (make_blob xs) ≡ xs

-- How a handler ends: with a message published, with none, or with an exception.
pub data Outcome (M : Type 0) : Type 0 where
  published : M → Outcome M
  dropped failed : Outcome M

-- The value of the two or four bytes from index `i` on: `memcpy`, then `ntohs` or `ntohl`.
abbrev pub received16 : List ℕ → ℕ → ℕ
received16 pdu i = get_or pdu i 0 * 2 ^ 8 + get_or pdu (i + 1) 0

abbrev pub received32 : List ℕ → ℕ → ℕ
received32 pdu i = received16 pdu i * 2 ^ 16 + received16 pdu (i + 2)

-- The `switch` of `check`: whether the checksum is right; `none` is the exception.
unfoldable pub passes : CrcType → List ℕ → ℕ → Option Bool
passes crc_none pdu n = some true
passes crc16_ccitt_t pdu n = some (crc16_ccitt (take (n - 2) pdu) == received16 pdu (n - 2))
passes crc16_aug_ccitt_t pdu n = some (crc16_aug_ccitt (take (n - 2) pdu) == received16 pdu (n - 2))
passes crc16_ccitt_reversed_t pdu n =
    some (crc16_ccitt_reversed (take (n - 2) pdu) == received16 pdu (n - 2))
passes crc16_ax25_t pdu n = none
passes crc16_ibm_t pdu n = some (crc16_ibm (take (n - 2) pdu) == received16 pdu (n - 2))
passes crc32_c_t pdu n = some (crc32_c (take (n - 4) pdu) == received32 pdu (n - 4))
passes crc_methods_num pdu n = none

module _ (pdus : Pdus) where
  open pdus use {Message, nil, is_blob, is_pair, car, cdr, cons, make_blob, uniform_vector_elements}

  -- `meta` and `b`; `none` is the exception for a malformed message.
  unfoldable pub parts : Message → Option (Message × Message)
  parts msg =
      if is_blob msg then some (nil, msg) else if is_pair msg then some (car msg, cdr msg) else none

  -- `append` and `check` from the octets of the message on.
  unfoldable pub appended : Endian → CrcType → Message → List ℕ → Outcome Message
  appended host crc meta pdu = elim (Crc.append host crc pdu true) [
    | none ↦ failed
    | some fcs ↦ published (cons meta (make_blob (pdu ++ fcs)))
  ]

  unfoldable pub checked : CrcType → Message → List ℕ → Outcome Message
  unfolding passes
  checked crc meta pdu = elim (passes crc pdu (length pdu)) [
    | none ↦ failed
    | some false ↦ dropped
    | some true ↦ elim (crc_size crc) [
      | none ↦ failed
      | some n ↦ published (cons meta (make_blob (take (length pdu - n) pdu)))
    ]
  ]

  unfoldable pub append : Endian → CrcType → Message → Outcome Message
  unfolding parts appended
  append host crc msg = elim (parts msg) [
    | none ↦ failed
    | some (meta, b) ↦ appended host crc meta (uniform_vector_elements b)
  ]

  unfoldable pub check : CrcType → Message → Outcome Message
  unfolding parts checked
  check crc msg = elim (parts msg) [
    | none ↦ failed
    | some (meta, b) ↦ checked crc meta (uniform_vector_elements b)
  ]
