-- ===== src/Ieee802154/Decoder/Delivery.antt =====
-- `decode_payload` at the end of a payload with its checksum: it delivers the frame.
use mathlib.Core.Option
use satnogs_gr_oot.Base.{ℕ, zero, suc, ◌+◌, ◌-◌, ◌*◌, ◌≡◌, ◌≢◌, refl, sym, ap, ap₂, ◌∙◌, true}
use satnogs_gr_oot.Base.{Option, none, some, List, [], ◌∷◌, ◌++◌, append_assoc, arith, length, take}
use satnogs_gr_oot.Base.{drop, length-append, drop-append_length, take-append_length, IsBytes}
use satnogs_gr_oot.Crc.{CrcType, crc16_aug_ccitt_t, crc16_ax25_t, crc_size, append, Endian}
use satnogs_gr_oot.Crc.Append.{crc_size-append}
use satnogs_gr_oot.Whitening.{Lfsr, Whitening}
use satnogs_gr_oot.Ieee802154.Decoder.{Config, Frame, Status, Decoder, reset}
use satnogs_gr_oot.Ieee802154.Decoder.Run.{descrambled, check_crc_of, payload_done, reported}
use satnogs_gr_oot.Ieee802154.Decoder.Run.{frame_of, check_crc}
use satnogs_gr_oot.Ieee802154.Decoder.Checked.{check_crc_of-append}

split_at :
    (xs front wire : List ℕ) (k m : ℕ)
    → length front ≡ k
    → length wire ≡ m
    → take (k + m) xs ≡ front ++ wire
    → (take k xs ≡ front) × (take m (drop k xs) ≡ wire)
split_at xs [] wire zero m ek em e =
    (refl, ap (λ n. take n xs) (let z : m ≡ 0 + m = omega arith in z) ∙ e)
split_at xs [] wire (suc k) m ek em e = absurd (omega arith)
split_at xs (y ∷ front) wire zero m ek em e = absurd (omega arith)
split_at [] (y ∷ front) wire (suc k) m ek em e =
    let z : take (suc (k + m)) [] ≡ y ∷ (front ++ wire) =
      ap (λ n. take n []) (let z : suc (k + m) ≡ suc k + m = omega arith in z) ∙ e in
    cc
split_at (x ∷ xs) (y ∷ front) wire (suc k) m ek em e =
    let z : x ∷ take (k + m) xs ≡ y ∷ (front ++ wire) =
      ap (λ n. take n (x ∷ xs)) (let z : suc (k + m) ≡ suc k + m = omega arith in z) ∙ e in
    let head : x ≡ y = cc in
    let tail : take (k + m) xs ≡ front ++ wire = cc in
    let (p, q) = split_at xs front wire k m (omega arith) em tail in (ap₂ ◌∷◌ head p, q)

pub fcs_size :
    (host : Endian) (t : CrcType) (body fcs : List ℕ) (n : ℕ)
    → append host t body true ≡ some fcs
    → crc_size t ≡ some n
    → length fcs ≡ n
fcs_size host t body fcs n e known =
    let z : some (length fcs) ≡ some n =
      ap (Option.map length) (sym e) ∙ crc_size-append host t body true ∙ known in
    cc

module _ (lfsr : Lfsr) where
  -- A call that returns the frame of `pdu`.
  abbrev pub Delivers : List ℕ → ℕ → Option (Decoder lfsr × Status) → Type 0
  Delivers pdu n r =
      (u : Decoder lfsr) × (f : Frame) × (r ≡ some (u, record { consumed = n; frame = some f }))
      × (f.pdu ≡ pdu)
      × (f.crc_valid ≡ true)

  pub payload_done-Delivers :
      (host : Endian) (c : Config) (i n : ℕ) (t : Decoder lfsr) (front pdu fcs wire : List ℕ)
      (s : Option (Whitening lfsr))
      → length front ≡ c.length_field_len
      → length wire ≡ t.len
      → take (c.length_field_len + t.len) t.pdu ≡ front ++ wire
      → descrambled lfsr t.descrambler wire ≡ (pdu ++ fcs, s)
      → append host c.crc (front ++ pdu) true ≡ some fcs
      → crc_size c.crc ≡ some n
      → IsBytes (front ++ pdu)
      → c.crc ≢ crc16_aug_ccitt_t
      → c.crc ≢ crc16_ax25_t
      → t.len ≡ length pdu + length fcs
      → Delivers pdu ((i + 1) * 8) (payload_done lfsr c i t)
  unfolding payload_done reported
  payload_done-Delivers host c i n t front pdu fcs wire s ef ew same undone sum known h na nx el =
      let k : ℕ = c.length_field_len in
      let (first, second) = split_at t.pdu front wire k t.len ef ew same in
      let back : List ℕ = drop (k + t.len) t.pdu in
      let read : descrambled lfsr t.descrambler (take t.len (drop k t.pdu)) ≡ (pdu ++ fcs, s) =
        ap (descrambled lfsr t.descrambler) second ∙ undone in
      let whole : take k t.pdu ++ ((pdu ++ fcs) ++ back) ≡ (front ++ pdu) ++ (fcs ++ back) =
        ap₂ (λ (x y : List ℕ). x ++ y) first (append_assoc pdu fcs back)
        ∙ sym (append_assoc front pdu (fcs ++ back)) in
      let size : t.len + k ≡ length (front ++ pdu) + length fcs =
        omega (arith, length-append front pdu) in
      let checked : check_crc_of c.crc (take k t.pdu ++ ((pdu ++ fcs) ++ back)) (t.len + k)
          ≡ some true =
        ap₂ (check_crc_of c.crc) whole size
        ∙ check_crc_of-append host c.crc (front ++ pdu) fcs back sum h na nx in
      let counted_is : length fcs ≡ n = fcs_size host c.crc (front ++ pdu) fcs n sum known in
      let u : Decoder lfsr = record t {
        descrambler = s;
        pdu = take k t.pdu ++ ((pdu ++ fcs) ++ back);
      } in
      let f : Frame = frame_of lfsr c u (t.len - n) i true in
      (
        reset lfsr c u,
        f,
        ap
              (λ (r : List ℕ × Option (Whitening lfsr)).
                let v = record t { descrambler = r.1; pdu = take k t.pdu ++ (r.0 ++ back) } in
                elim (check_crc lfsr c v) [
                  | none ↦ none
                  | some valid ↦ elim (crc_size c.crc) [
                    | none ↦ none
                    | some m ↦ some (
                      reset lfsr c v,
                      record { consumed = (i + 1) * 8; frame = reported lfsr c v m i valid },
                    )
                  ]
                ])
              read
            ∙ rw (checked, known, reported) refl,
        ap₂ (λ (x y : List ℕ). take (t.len - n) (drop k (x ++ y))) first (append_assoc pdu fcs back)
            ∙ ap₂ (λ (m j : ℕ). take m (drop j (front ++ (pdu ++ (fcs ++ back)))))
                (let e : t.len - n ≡ length pdu = omega arith in e) (sym ef)
            ∙ ap (take (length pdu)) (drop-append_length front (pdu ++ (fcs ++ back)))
            ∙ take-append_length pdu (fcs ++ back),
        refl,
      )
