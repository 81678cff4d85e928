-- ===== src/Ax25/Stuffing.antt =====
-- The rule of HDLC that lib/ax25_encoder.cc and lib/ax25_decoder.cc keep: after five ones in a row
-- the sender puts a zero in, which the receiver takes out, so that only a flag has six.
use satnogs_gr_oot.Base.{ℕ, zero, suc, ◌+◌, ◌*◌, ◌≤◌, ◌<◌, ◌≡◌, refl, ap, ◌∙◌, subst, inl, inr}
use satnogs_gr_oot.Base.{List, [], ◌∷◌, arith, ◌==◌, if◌then◌else◌, Bool-cases, length}
use satnogs_gr_oot.Bytes.Laws.{IsBits}

-- The sender, with the number of ones that it has just sent.
unfoldable pub stuff : ℕ → List ℕ → List ℕ
stuff ones [] = []
stuff ones (zero ∷ bits) = 0 ∷ stuff 0 bits
stuff ones (suc b ∷ bits) =
    let stuffed = 0 ∷ stuff 0 bits in
    let plain = stuff (ones + 1) bits in 1 ∷ (if ones == 4 then stuffed else plain)

-- The receiver, with the number of ones that it has just seen.
unfoldable pub unstuff : ℕ → List ℕ → List ℕ
unstuff ones [] = []
unstuff ones (zero ∷ bits) = let rest = unstuff 0 bits in if ones == 5 then rest else 0 ∷ rest
unstuff ones (suc b ∷ bits) = 1 ∷ unstuff (ones + 1) bits

-- The longest run of ones in a stream that follows `ones` ones is at most `most`.
abbrev pub RunsAtMost : ℕ → ℕ → List ℕ → Type 0
RunsAtMost most ones [] = ones ≤ most
RunsAtMost most ones (zero ∷ bits) = (ones ≤ most) × RunsAtMost most 0 bits
RunsAtMost most ones (suc b ∷ bits) = RunsAtMost most (suc ones) bits

unstuff-stuff_from :
    (ones : ℕ) (bits : List ℕ) → ones < 5 → IsBits bits → unstuff ones (stuff ones bits) ≡ bits
unfolding unstuff stuff
unstuff-stuff_from ones [] h b = refl
unstuff-stuff_from ones (zero ∷ bits) h (p, b) =
    ground (arith, unstuff-stuff_from 0 bits (omega arith) b)
unstuff-stuff_from ones (suc zero ∷ bits) h (p, b) = elim (Bool-cases (ones == 4)) [
  | inl e ↦ rw e (
      ap (λ t. 1 ∷ t)
        (ap (λ n. unstuff n (0 ∷ stuff 0 bits)) (let f : ones + 1 ≡ 5 = ground arith in f)
          ∙ unstuff-stuff_from 0 bits (omega arith) b))
  | inr e ↦ rw e (ap (λ t. 1 ∷ t) (unstuff-stuff_from (ones + 1) bits (ground arith) b))
]
unstuff-stuff_from ones (suc (suc x) ∷ bits) h (p, b) = absurd (omega arith)

-- Taking the stuffed zeros out gives back every stream of bits.
pub unstuff-stuff : (bits : List ℕ) → IsBits bits → unstuff 0 (stuff 0 bits) ≡ bits
unstuff-stuff bits b = unstuff-stuff_from 0 bits (omega arith) b

stuff-runs_from : (ones : ℕ) (bits : List ℕ) → ones < 5 → RunsAtMost 5 ones (stuff ones bits)
unfolding stuff
stuff-runs_from ones [] h = omega arith
stuff-runs_from ones (zero ∷ bits) h = (omega arith, stuff-runs_from 0 bits (omega arith))
stuff-runs_from ones (suc b ∷ bits) h = elim (Bool-cases (ones == 4)) [
  | inl e ↦ rw e (omega arith, stuff-runs_from 0 bits (omega arith))
  | inr e ↦ rw e (
      subst (λ n. RunsAtMost 5 n (stuff (ones + 1) bits)) (omega arith)
        (stuff-runs_from (ones + 1) bits (ground arith)))
]

-- A stuffed stream has no six ones in a row, so no flag lies in it.
pub stuff-runs : (bits : List ℕ) → RunsAtMost 5 0 (stuff 0 bits)
stuff-runs bits = stuff-runs_from 0 bits (omega arith)

-- Stuffing adds at most one bit to five.
stuff-length_from :
    (ones : ℕ) (bits : List ℕ)
    → ones < 5
    → (length bits ≤ length (stuff ones bits))
      × (5 * length (stuff ones bits) ≤ 6 * length bits + ones)
unfolding stuff
stuff-length_from ones [] h = omega arith
stuff-length_from ones (zero ∷ bits) h = omega (arith, stuff-length_from 0 bits (omega arith))
stuff-length_from ones (suc b ∷ bits) h = elim (Bool-cases (ones == 4)) [
  | inl e ↦ rw e (ground (arith, stuff-length_from 0 bits (omega arith)))
  | inr e ↦ rw e (ground (arith, stuff-length_from (ones + 1) bits (ground arith)))
]

pub length-stuff :
    (bits : List ℕ)
    → (length bits ≤ length (stuff 0 bits)) × (5 * length (stuff 0 bits) ≤ 6 * length bits)
length-stuff bits = omega (arith, stuff-length_from 0 bits (omega arith))
