-- ===== src/CrcAsync/Laws.antt =====
-- What `check` makes of what `append` published.
use satnogs_gr_oot.Base.{ℕ, ◌+◌, ◌-◌, ◌^◌, ◌<◌, ◌≡◌, ◌≢◌, refl, sym, ap, ap₂, ◌∙◌, true, false}
use satnogs_gr_oot.Base.{Option, none, some, List, [], ◌∷◌, ◌++◌, append-nil, arith, ◌==◌, length}
use satnogs_gr_oot.Base.{take, take-append_length, length-append, IsBytes, All-append, inl, inr}
use satnogs_gr_oot.Base.{Bool-cases, ==_iff}
use satnogs_gr_oot.Crc.{CrcType, crc_none, crc16_ccitt_t, crc16_aug_ccitt_t, crc16_ccitt_reversed_t}
use satnogs_gr_oot.Crc.{crc16_ax25_t, crc16_ibm_t, crc32_c_t, crc_methods_num, crc_size, Endian}
use satnogs_gr_oot.Crc.{bytes16, big, stored16, crc16_ccitt_reversed, crc16_ax25}
use satnogs_gr_oot.Ieee802154.Decoder.Run.{check_crc_of}
use satnogs_gr_oot.Ieee802154.Decoder.Checked.{check_crc_of-append, written16}
use satnogs_gr_oot.Ieee802154.Decoder.Delivery.{fcs_size}
use satnogs_gr_oot.Crc.ByteError.{crc16_ax25_byte_error}
use satnogs_gr_oot.Crc.Append.{x25-lt}
use satnogs_gr_oot.CrcAsync.{checked, appended, failed, Pdus, published, dropped, passes, parts}
use satnogs_gr_oot.CrcAsync.{append, check}
use satnogs_gr_oot.Crc

-- Both checks of a checksum in the repository are one.
pub passes-check_crc_of :
    (t : CrcType) (pdu : List ℕ) (n : ℕ) → passes t pdu n ≡ check_crc_of t pdu n
unfolding passes check_crc_of
passes-check_crc_of crc_none pdu n = refl
passes-check_crc_of crc16_ccitt_t pdu n = refl
passes-check_crc_of crc16_aug_ccitt_t pdu n = refl
passes-check_crc_of crc16_ccitt_reversed_t pdu n = refl
passes-check_crc_of crc16_ax25_t pdu n = refl
passes-check_crc_of crc16_ibm_t pdu n = refl
passes-check_crc_of crc32_c_t pdu n = refl
passes-check_crc_of crc_methods_num pdu n = refl

sum_exists :
    (host : Endian) (t : CrcType) (body : List ℕ)
    → t ≢ crc_methods_num
    → (n : ℕ) × (fcs : List ℕ) × (crc_size t ≡ some n) × (Crc.append host t body true ≡ some fcs)
unfolding Crc.append crc_size
sum_exists host crc_none body ne = (_, _, refl, refl)
sum_exists host crc16_ccitt_t body ne = (_, _, refl, refl)
sum_exists host crc16_aug_ccitt_t body ne = (_, _, refl, refl)
sum_exists host crc16_ccitt_reversed_t body ne = (_, _, refl, refl)
sum_exists host crc16_ax25_t body ne = (_, _, refl, refl)
sum_exists host crc16_ibm_t body ne = (_, _, refl, refl)
sum_exists host crc32_c_t body ne = (_, _, refl, refl)
sum_exists host crc_methods_num body ne = absurd (ne refl)

passes-wrong :
    (body : List ℕ) (sum : ℕ)
    → sum < 2 ^ 16
    → crc16_ccitt_reversed body ≢ sum
    → passes crc16_ccitt_reversed_t (body ++ bytes16 big sum) (length (body ++ bytes16 big sum))
      ≡ some false
unfolding passes bytes16
passes-wrong body sum small ne =
    let (p, q) = written16 body [] sum small in
    let n : length (body ++ bytes16 big sum) ≡ length body + 2 =
      length-append body (bytes16 big sum) in
    let other : (crc16_ccitt_reversed body == sum) ≡ false =
      elim (Bool-cases (crc16_ccitt_reversed body == sum)) [
        | inl e ↦ absurd (ne ((==_iff _ sum).0 e))
        | inr e ↦ e
      ] in
    ap (λ k. passes crc16_ccitt_reversed_t (body ++ bytes16 big sum) k) n
    ∙ ap₂ (λ (a : List ℕ) (b : ℕ). some (crc16_ccitt_reversed a == b)) p q
    ∙ ap some other

module _ (pdus : Pdus) where
  open pdus use {
    Message, cons, make_blob, uniform_vector_elements, is_blob_cons, is_pair_cons, car_cons,
    cdr_cons, elements_blob,
  }

  parts-cons : (a b : Message) → parts pdus (cons a b) ≡ some (a, b)
  unfolding parts
  parts-cons a b =
      rw (is_blob_cons a b, is_pair_cons a b)
        (ap₂ (λ x y. some (x, y)) (car_cons a b) (cdr_cons a b))

  -- What `check` makes of a message with a blob is what it makes of the bytes in the blob.
  check-cons :
      (t : CrcType) (meta : Message) (xs : List ℕ)
      → check pdus t (cons meta (make_blob xs)) ≡ checked pdus t meta xs
  unfolding check
  check-cons t meta xs =
      ap
        (λ (o : Option (Message × Message)). elim o [
          | none ↦ failed
          | some (m, b) ↦ checked pdus t m (uniform_vector_elements b)
        ])
        (parts-cons meta (make_blob xs))
      ∙ ap (checked pdus t meta) (elements_blob xs)

  checked-sum :
      (host : Endian) (t : CrcType) (meta : Message) (body fcs : List ℕ) (n : ℕ)
      → Crc.append host t body true ≡ some fcs
      → crc_size t ≡ some n
      → IsBytes body
      → t ≢ crc16_aug_ccitt_t
      → t ≢ crc16_ax25_t
      → checked pdus t meta (body ++ fcs) ≡ published (cons meta (make_blob body))
  unfolding checked
  checked-sum host t meta body fcs n sum known h na nx =
      let ok : passes t (body ++ fcs) (length (body ++ fcs)) ≡ some true =
        passes-check_crc_of t (body ++ fcs) (length (body ++ fcs))
        ∙ ap₂ (check_crc_of t) (ap (λ w. body ++ w) (sym (append-nil fcs))) (length-append body fcs)
        ∙ check_crc_of-append host t body fcs [] sum h na nx in
      let front : length (body ++ fcs) - n ≡ length body =
        omega (arith, length-append body fcs, fcs_size host t body fcs n sum known) in
      rw (ok, known, checked)
        (ap (λ w. published (cons meta (make_blob w)))
          (ap (λ m. take m (body ++ fcs)) front ∙ take-append_length body fcs))

  -- What `append` publishes for a message, `check` with the same checksum turns into the octets of
  -- that message again, with its metadata; the octets are bytes, and the checksum is none of
  -- `CRC16_AUG_CCITT`, `CRC16_AX25` and the number of methods.
  pub check-append :
      (host : Endian) (t : CrcType) (msg meta b : Message)
      → parts pdus msg ≡ some (meta, b)
      → IsBytes (uniform_vector_elements b)
      → t ≢ crc16_aug_ccitt_t
      → t ≢ crc16_ax25_t
      → t ≢ crc_methods_num
      → (sent : Message) × (append pdus host t msg ≡ published sent)
        × (check pdus t sent ≡ published (cons meta (make_blob (uniform_vector_elements b))))
  unfolding append appended
  check-append host t msg meta b split h na nx nn =
      let body : List ℕ = uniform_vector_elements b in
      let (n, fcs, known, sum) = sum_exists host t body nn in
      (
        cons meta (make_blob (body ++ fcs)),
        ap
              (λ (o : Option (Message × Message)). elim o [
                | none ↦ failed
                | some (m, a) ↦ appended pdus host t m (uniform_vector_elements a)
              ])
              split
            ∙ ap
                (λ (o : Option (List ℕ)). elim o [
                  | none ↦ failed
                  | some w ↦ published (cons meta (make_blob (body ++ w)))
                ])
                sum,
        check-cons t meta (body ++ fcs) ∙ checked-sum host t meta body fcs n sum known h na nx,
      )

  checked-dropped :
      (t : CrcType) (meta : Message) (xs : List ℕ)
      → passes t xs (length xs) ≡ some false
      → checked pdus t meta xs ≡ dropped
  unfolding checked
  checked-dropped t meta xs wrong = rw (wrong, checked) refl

  -- With `CRC16_CCITT_REVERSED`, a PDU with its checksum of which one byte before the checksum has
  -- changed is dropped.
  pub check_byte_error :
      (host : Endian) (meta : Message) (before rest : List ℕ) (x y : ℕ)
      → IsBytes before
      → IsBytes rest
      → x < 2 ^ 8
      → y < 2 ^ 8
      → x ≢ y
      → (fcs : List ℕ) × (Crc.append host crc16_ccitt_reversed_t (before ++ (x ∷ rest)) true
          ≡ some fcs)
        × (check pdus crc16_ccitt_reversed_t (cons meta (make_blob ((before ++ (y ∷ rest)) ++ fcs)))
            ≡ dropped)
  unfolding crc16_ccitt_reversed crc16_ax25 Crc.append stored16
  check_byte_error host meta before rest x y hb hr hx hy ne =
      let body : List ℕ = before ++ (x ∷ rest) in
      let other : List ℕ = before ++ (y ∷ rest) in
      let sum : ℕ = crc16_ccitt_reversed body in
      let small : sum < 2 ^ 16 =
        x25-lt body (All-append (λ d. d < 2 ^ 8) before (x ∷ rest) hb (hx, hr)) in
      let differ : crc16_ax25 other ≢ crc16_ax25 body =
        λ e. crc16_ax25_byte_error before rest x y hb hr hx hy ne (sym e) in
      (
        bytes16 big sum,
        refl,
        check-cons crc16_ccitt_reversed_t meta (other ++ bytes16 big sum)
            ∙ checked-dropped crc16_ccitt_reversed_t meta (other ++ bytes16 big sum)
                (passes-wrong other sum small differ),
      )
