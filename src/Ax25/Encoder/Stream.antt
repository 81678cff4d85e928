-- ===== src/Ax25/Encoder/Stream.antt =====
-- The stuffing loops of `encode` as a stream of bits: the bytes written, most significant bit first,
-- and behind them the `enc_bits` low bits of `sr`.
use native.Mathlib.Nat.{pow-suc}
use satnogs_gr_oot.Base.{◌+◌, ◌*◌, ◌≤◌, ap₂, scale, split_mod, split_at, ℕ, zero, suc, ◌/◌, ◌%◌}
use satnogs_gr_oot.Base.{◌^◌, ◌<◌, ◌≡◌, refl, sym, ap, ◌∙◌, true, List, [], ◌∷◌, ◌++◌, append_assoc}
use satnogs_gr_oot.Base.{arith, bit_and_mask, bit_or_fields, bit_or, append-nil, Bool-cases, ◌==◌}
use satnogs_gr_oot.Base.{inl, inr}
use satnogs_gr_oot.Bytes.{msb_bits}
use satnogs_gr_oot.Whitening.Laws.{frame_bits}
use satnogs_gr_oot.Ax25.Encoder.{shift_in, emit, Shifter}

-- The `k` low bits of `sr`, the highest first.
abbrev pub low_bits : ℕ → ℕ → List ℕ
low_bits zero sr = []
low_bits (suc k) sr = low_bits k (sr / 2) ++ (sr % 2 ∷ [])

abbrev pub stream : Shifter → List ℕ
stream s = frame_bits true s.out ++ low_bits s.enc_bits s.sr

pub frame_bits-append :
    (xs ys : List ℕ) → frame_bits true (xs ++ ys) ≡ frame_bits true xs ++ frame_bits true ys
frame_bits-append [] ys = refl
frame_bits-append (x ∷ xs) ys =
    ap (λ t. msb_bits x ++ t) (frame_bits-append xs ys)
    ∙ sym (append_assoc (msb_bits x) (frame_bits true xs) (frame_bits true ys))

pub msb_bits-low_bits : (sr : ℕ) → sr < 2 ^ 8 → low_bits 8 sr ≡ msb_bits sr
msb_bits-low_bits sr h = ground (
  arith,
  bit_and_mask 1 (sr / 2 ^ 6),
  bit_and_mask 1 (sr / 2 ^ 5),
  bit_and_mask 1 (sr / 2 ^ 4),
  bit_and_mask 1 (sr / 2 ^ 3),
  bit_and_mask 1 (sr / 2 ^ 2),
  bit_and_mask 1 (sr / 2 ^ 1),
  bit_and_mask 1 sr,
)

-- Low bits see only the bits that are shifted in.
pub low_bits-shift :
    (k sr b : ℕ) → b < 2 → low_bits (suc k) (sr * 2 + b) ≡ low_bits k sr ++ (b ∷ [])
low_bits-shift k sr b h =
    ap₂ (λ q r. low_bits k q ++ (r ∷ [])) (let e : (sr * 2 + b) / 2 ≡ sr = omega arith in e)
      (let e : (sr * 2 + b) % 2 ≡ b = omega arith in e)

half_cut : (k x : ℕ) → (x % 2 ^ suc k / 2 ≡ x / 2 % 2 ^ k) × (x % 2 ^ suc k % 2 ≡ x % 2)
half_cut k x =
    let q : ℕ = x / 2 ^ suc k in
    let r : ℕ = x % 2 ^ suc k in
    let whole : x ≡ q * 2 ^ k * 2 + r = omega (arith, scale q k, split_at (suc k) x) in
    let small : r / 2 < 2 ^ k = omega (arith, pow-suc 2 k, split_at (suc k) x) in
    (
      omega (
        arith,
        split_mod (2 ^ k) q (r / 2) small,
        ap (λ t. t % 2 ^ k) (let e : x / 2 ≡ q * 2 ^ k + r / 2 = omega arith in e),
      ),
      omega arith,
    )

pub low_bits-cut : (k m sr : ℕ) → k ≤ m → low_bits k (sr % 2 ^ m) ≡ low_bits k sr
low_bits-cut zero m sr h = refl
low_bits-cut (suc k) zero sr h = absurd (omega arith)
low_bits-cut (suc k) (suc m) sr h =
    ap₂ (λ q r. q ++ (r ∷ []))
      (ap (low_bits k) (half_cut m sr).0 ∙ low_bits-cut k m (sr / 2) (omega arith))
      (half_cut m sr).1

-- A shift of the register adds the bit to the stream.
pub stream-shift_in :
    (s : Shifter) (b : ℕ)
    → b < 2
    → s.enc_bits < 8
    → (stream (shift_in b s) ≡ stream s ++ (b ∷ []))
      × ((shift_in b s).enc_bits ≡ s.enc_bits + 1)
      × ((shift_in b s).sr ≡ (s.sr * 2 + b) % 2 ^ 8)
unfolding shift_in
stream-shift_in s b hb h =
    let sum : bit_or (s.sr * 2) b ≡ s.sr * 2 + b = bit_or_fields 1 s.sr b hb in
    (
      ap (λ t. frame_bits true s.out ++ t)
            (ap₂ low_bits (let e : (s.enc_bits + 1) % 2 ^ 8 ≡ suc s.enc_bits = omega arith in e)
                (ap (λ t. t % 2 ^ 8) sum)
              ∙ low_bits-cut (suc s.enc_bits) 8 (s.sr * 2 + b) (omega arith)
              ∙ low_bits-shift s.enc_bits s.sr b hb)
          ∙ sym (append_assoc (frame_bits true s.out) (low_bits s.enc_bits s.sr) (b ∷ [])),
      omega arith,
      ap (λ t. t % 2 ^ 8) sum,
    )

-- Writing a full byte leaves the stream as it is.
pub stream-emit :
    (s : Shifter)
    → s.enc_bits ≤ 8
    → s.sr < 2 ^ 8
    → (stream (emit s) ≡ stream s) × ((emit s).enc_bits < 8) × ((emit s).sr ≡ s.sr)
unfolding emit
stream-emit s h hs = elim (Bool-cases (s.enc_bits == 8)) [
  | inl e ↦
      let full : s.enc_bits ≡ 8 = ground arith in
      rw e (
        append-nil _
            ∙ frame_bits-append s.out (s.sr ∷ [])
            ∙ ap (λ t. frame_bits true s.out ++ t)
                (append-nil _
                  ∙ sym (msb_bits-low_bits s.sr hs)
                  ∙ ap (λ k. low_bits k s.sr) (sym full)),
        omega arith,
        refl,
      )
  | inr e ↦ rw e (refl, ground arith, refl)
]
