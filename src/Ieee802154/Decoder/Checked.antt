-- ===== src/Ieee802154/Decoder/Checked.antt =====
-- `check_crc` on what `crc::append` wrote.
use satnogs_gr_oot.Base.{ℕ, ◌+◌, ◌-◌, ◌*◌, ◌/◌, ◌%◌, ◌^◌, ◌<◌, ◌≡◌, ◌≢◌, refl, ap, ap₂, ◌∙◌, subst}
use satnogs_gr_oot.Base.{true, some, List, [], ◌∷◌, ◌++◌, arith, ◌==◌, eq_refl, length, get_or}
use satnogs_gr_oot.Base.{take, take-append_length, IsBytes, suc, bit_xor-lt}
use satnogs_gr_oot.Crc.{reflected_loop, CrcType, crc_none, crc16_ccitt_t, crc16_aug_ccitt_t}
use satnogs_gr_oot.Crc.{crc16_ccitt_reversed_t, crc16_ax25_t, crc16_ibm_t, crc32_c_t}
use satnogs_gr_oot.Crc.{crc_methods_num, append, Endian, crc16_ccitt, crc16_ccitt_reversed}
use satnogs_gr_oot.Crc.{crc16_ibm, crc32_c, stored16, stored32, bytes16, bytes32, big, crc16_ax25}
use satnogs_gr_oot.Crc.Append.{ccitt-lt, x25-lt, ibm_loop-lt, loop_c-lt}
use satnogs_gr_oot.Ieee802154.Decoder.Run.{check_crc_of, network16, network32}

get_or-append : (xs ys : List ℕ) (i : ℕ) → get_or (xs ++ ys) (length xs + i) 0 ≡ get_or ys i 0
get_or-append [] ys i = ap (λ j. get_or ys j 0) (let e : 0 + i ≡ i = omega arith in e)
get_or-append (x ∷ xs) ys i =
    ap (λ j. get_or (x ∷ (xs ++ ys)) j 0)
      (let e : suc (length xs) + i ≡ suc (length xs + i) = omega arith in e)
    ∙ get_or-append xs ys i

module _ (body rest : List ℕ) where
  pub written16 :
      (x : ℕ)
      → x < 2 ^ 16
      → (take (length body + 2 - 2) (body ++ (bytes16 big x ++ rest)) ≡ body)
        × (network16 (body ++ (bytes16 big x ++ rest)) (length body + 2 - 2) ≡ x)
  unfolding bytes16
  written16 x h =
      let n : length body + 2 - 2 ≡ length body + 0 = omega arith in
      let full : List ℕ = body ++ (x / 2 ^ 8 % 2 ^ 8 ∷ x % 2 ^ 8 ∷ rest) in
      let front : length body + 2 - 2 ≡ length body = omega arith in
      let next : length body + 2 - 2 + 1 ≡ length body + 1 = omega arith in
      (
        ap (λ k. take k full) front ∙ take-append_length body _,
        ap₂ (λ (a b : ℕ). a * 2 ^ 8 + b) (ap (λ k. get_or full k 0) n ∙ get_or-append body _ 0)
              (ap (λ k. get_or full k 0) next ∙ get_or-append body _ 1)
            ∙ (let e : x / 2 ^ 8 % 2 ^ 8 * 2 ^ 8 + x % 2 ^ 8 ≡ x = omega arith in e),
      )

  written32 :
      (x : ℕ)
      → x < 2 ^ 32
      → (take (length body + 4 - 4) (body ++ (bytes32 big x ++ rest)) ≡ body)
        × (network32 (body ++ (bytes32 big x ++ rest)) (length body + 4 - 4) ≡ x)
  unfolding bytes32
  written32 x h =
      let at : (j : ℕ) → length body + 4 - 4 + j ≡ length body + j = λ j. omega arith in
      let full : List ℕ =
        body ++ (x / 2 ^ 24 % 2 ^ 8 ∷ x / 2 ^ 16 % 2 ^ 8 ∷ x / 2 ^ 8 % 2 ^ 8 ∷ x % 2 ^ 8 ∷ rest) in
      let front : length body + 4 - 4 ≡ length body = omega arith in
      let zeroth : length body + 4 - 4 ≡ length body + 0 = omega arith in
      let third : length body + 4 - 4 + 2 + 1 ≡ length body + 3 = omega arith in
      (
        ap (λ k. take k full) front ∙ take-append_length body _,
        ap₂ (λ (a b : ℕ). a * 2 ^ 16 + b)
              (ap₂ (λ (a b : ℕ). a * 2 ^ 8 + b)
                (ap (λ k. get_or full k 0) zeroth ∙ get_or-append body _ 0)
                (ap (λ k. get_or full k 0) (at 1) ∙ get_or-append body _ 1))
              (ap₂ (λ (a b : ℕ). a * 2 ^ 8 + b)
                (ap (λ k. get_or full k 0) (at 2) ∙ get_or-append body _ 2)
                (ap (λ k. get_or full k 0) third ∙ get_or-append body _ 3))
            ∙ (let e : (x / 2 ^ 24 % 2 ^ 8 * 2 ^ 8 + x / 2 ^ 16 % 2 ^ 8) * 2 ^ 16
                      + (x / 2 ^ 8 % 2 ^ 8 * 2 ^ 8 + x % 2 ^ 8)
                    ≡ x =
                  omega arith in
                e),
      )

passes16 :
    (sum : List ℕ → ℕ) (body fcs rest : List ℕ)
    → sum body < 2 ^ 16
    → some (bytes16 big (sum body)) ≡ some fcs
    → let n : ℕ = length body + length fcs in
      let pdu : List ℕ = body ++ (fcs ++ rest) in
      some (sum (take (n - 2) pdu) == network16 pdu (n - 2)) ≡ some true
unfolding bytes16
passes16 sum body fcs rest h e =
    let same : bytes16 big (sum body) ≡ fcs = cc in
    subst
      (λ w.
        some (
          sum (take (length body + length w - 2) (body ++ (w ++ rest)))
          == network16 (body ++ (w ++ rest)) (length body + length w - 2))
        ≡ some true)
      same
      (let (p, q) = written16 body rest (sum body) h in
        ap some (ap₂ (λ (a : List ℕ) (b : ℕ). sum a == b) p q ∙ eq_refl (sum body)))

passes32 :
    (sum : List ℕ → ℕ) (body fcs rest : List ℕ)
    → sum body < 2 ^ 32
    → some (bytes32 big (sum body)) ≡ some fcs
    → let n : ℕ = length body + length fcs in
      let pdu : List ℕ = body ++ (fcs ++ rest) in
      some (sum (take (n - 4) pdu) == network32 pdu (n - 4)) ≡ some true
unfolding bytes32
passes32 sum body fcs rest h e =
    let same : bytes32 big (sum body) ≡ fcs = cc in
    subst
      (λ w.
        some (
          sum (take (length body + length w - 4) (body ++ (w ++ rest)))
          == network32 (body ++ (w ++ rest)) (length body + length w - 4))
        ≡ some true)
      same
      (let (p, q) = written32 body rest (sum body) h in
        ap some (ap₂ (λ (a : List ℕ) (b : ℕ). sum a == b) p q ∙ eq_refl (sum body)))

-- A checksum that `append` wrote behind the bytes passes `check_crc`, but for the methods that it
-- does not know and `CRC16_AUG_CCITT`.
pub check_crc_of-append :
    (host : Endian) (t : CrcType) (body fcs rest : List ℕ)
    → append host t body true ≡ some fcs
    → IsBytes body
    → t ≢ crc16_aug_ccitt_t
    → t ≢ crc16_ax25_t
    → check_crc_of t (body ++ (fcs ++ rest)) (length body + length fcs) ≡ some true
unfolding check_crc_of append stored16 stored32 reflected_loop crc16_ax25 crc16_ccitt_reversed
check_crc_of-append host crc_none body fcs rest e h na nx = refl
check_crc_of-append host crc16_ccitt_t body fcs rest e h na nx =
    passes16 crc16_ccitt body fcs rest (ccitt-lt body) e
check_crc_of-append host crc16_aug_ccitt_t body fcs rest e h na nx = absurd (na refl)
check_crc_of-append host crc16_ccitt_reversed_t body fcs rest e h na nx =
    passes16 crc16_ccitt_reversed body fcs rest (x25-lt body h) e
check_crc_of-append host crc16_ax25_t body fcs rest e h na nx = absurd (nx refl)
check_crc_of-append host crc16_ibm_t body fcs rest e h na nx =
    passes16 crc16_ibm body fcs rest (unfold crc16_ibm in ibm_loop-lt 0xffff body (omega arith)) e
check_crc_of-append host crc32_c_t body fcs rest e h na nx =
    passes32 crc32_c body fcs rest
      (unfold crc32_c in
        bit_xor-lt 32 _ 0xffffffff (loop_c-lt 0xffffffff body (omega arith) h) (omega arith))
      e
check_crc_of-append host crc_methods_num body fcs rest e h na nx = cc

bytes_in : {xs fcs : List ℕ} → some xs ≡ some fcs → IsBytes xs → IsBytes fcs
bytes_in {xs} {fcs} e h = let z : xs ≡ fcs = cc in subst IsBytes z h

pub append-IsBytes :
    (host : Endian) (t : CrcType) (body fcs : List ℕ)
    → append host t body true ≡ some fcs
    → IsBytes fcs
unfolding append stored16 stored32 bytes16 bytes32
append-IsBytes host crc_none body fcs e = let z : [] ≡ fcs = cc in subst IsBytes z tt
append-IsBytes host crc16_ccitt_t body fcs e = bytes_in e (omega arith)
append-IsBytes host crc16_aug_ccitt_t body fcs e = bytes_in e (omega arith)
append-IsBytes host crc16_ccitt_reversed_t body fcs e = bytes_in e (omega arith)
append-IsBytes host crc16_ax25_t body fcs e = bytes_in e (omega arith)
append-IsBytes host crc16_ibm_t body fcs e = bytes_in e (omega arith)
append-IsBytes host crc32_c_t body fcs e = bytes_in e (omega arith)
append-IsBytes host crc_methods_num body fcs e = cc
