-- ===== src/Argos/Invariant.antt =====
-- What holds of an `argos_ldr_decoder` between two turns of its loop, the measure that the turns
-- lower, and what the searches for flags leave alone.
use satnogs_gr_oot.Base.{ℕ, suc, ◌+◌, ◌-◌, ◌*◌, ◌≤◌, ◌<◌, ◌≡◌, refl, ap, ◌∙◌}
use satnogs_gr_oot.Base.{◌⊎◌, inl, inr, true, false, Option, none, some, List, [], ◌∷◌}
use satnogs_gr_oot.Base.{arith, ◌==◌, if◌then◌else◌, Bool-cases, length, drop}
use satnogs_gr_oot.Base.{length-drop}
use native.Mathlib.Nat.{mul-add}
use satnogs_gr_oot.Ax25.{sync_flag}
use satnogs_gr_oot.Argos.{State, no_sync, in_sync, decoding, Config, Decoder, Frame, reset_state}
use satnogs_gr_oot.Argos.{decode_1b}
use satnogs_gr_oot.Argos.Run.{three_flags, no_sync_loop, in_sync_bit, in_sync_loop, turns}
use satnogs_gr_oot.Argos.Run.{Turn}
use satnogs_gr_oot.Argos.Run.{returned, again}
use satnogs_gr_oot.Argos.Step.{window, counted}

pub record IsValid (c : Config) (d : Decoder) : Type 0 where
  pub positive : 1 ≤ c.max_frame_len
  pub size : length d.frame_buffer ≡ c.max_frame_len + 2
  pub received : d.received_bytes ≤ c.max_frame_len
  pub waiting : d.decoded_bits ≤ 7

-- A reported frame: of one byte or more and within the limit, and marked valid unless the check is
-- off.
pub record IsSound (c : Config) (f : Frame) : Type 0 where
  pub shortest : 1 ≤ length f.pdu
  pub longest : length f.pdu + 2 ≤ c.max_frame_len
  pub checked : (f.crc_valid ≡ true) ⊎ (c.crc_check ≡ false)

abbrev pub AllSound : Config → Option Frame → Type 0
AllSound c none = Unit
AllSound c (some f) = IsSound c f

-- The turns that are left without dropping a bit: a pass over a frame that fails its check starts
-- behind a flag and counts a bit, and there is room for so many only.
abbrev pub passes : Config → Decoder → ℕ
passes c d = 8 * c.max_frame_len + 16 - counted d + (if window d == sync_flag then 0 else 1)

abbrev pub rank : State → Config → Decoder → ℕ
rank no_sync c d = 0
rank in_sync c d = 8 * c.max_frame_len + 18
rank decoding c d = passes c d

abbrev pub measure : Config → Decoder → ℕ
measure c d = turns c * length d.bitstream + rank d.state c d

abbrev pub TurnDone : Config → Decoder → Turn → Type 0
TurnDone c d (returned e frame) = IsValid c e × AllSound c frame
TurnDone c d (again e frame) = IsValid c e × AllSound c frame × (measure c e < measure c d)

pub IsValid-reset : (c : Config) (d : Decoder) → IsValid c d → IsValid c (reset_state d)
unfolding reset_state
IsValid-reset c d v = record {
  positive = v.positive;
  size = v.size;
  received = omega arith;
  waiting = omega arith;
}

pub passes_range :
    (c : Config) (d : Decoder)
    → IsValid c d
    → (1 ≤ passes c d) × (passes c d ≤ 8 * c.max_frame_len + 17)
passes_range c d v = elim (Bool-cases (window d == sync_flag)) [
  | inl e ↦ rw e (omega (arith, v.received, v.waiting), omega arith)
  | inr e ↦ rw e (omega arith, omega arith)
]

-- Dropping a bit pays for every turn to come.
pub dropped :
    (c : Config) (d t : Decoder) (i r r' : ℕ)
    → i < length d.bitstream
    → t.bitstream ≡ drop (i + 1) d.bitstream
    → r ≤ 8 * c.max_frame_len + 18
    → turns c * length t.bitstream + r < turns c * length d.bitstream + r'
dropped c d t i r r' lt e le =
    let n = length t.bitstream in
    let size : length d.bitstream ≡ n + 1 + i =
      omega (arith, ap length e, length-drop (i + 1) d.bitstream) in
    omega
      (arith, ap (λ (m : ℕ). turns c * m) size, mul-add (turns c) (n + 1) i, mul-add (turns c) n 1)

-- A turn that drops no bit and lowers the rank.
pub lowered :
    (c : Config) (d t : Decoder) (r r' : ℕ)
    → t.bitstream ≡ d.bitstream
    → r < r'
    → turns c * length t.bitstream + r < turns c * length d.bitstream + r'
lowered c d t r r' e lt = omega (arith, ap (λ (xs : List ℕ). turns c * length xs) e)

abbrev pub FoundIn : ℕ → ℕ → Option ℕ → Type 0
FoundIn low high none = Unit
FoundIn low high (some j) = (low ≤ j) × (j < high)

FoundIn-suc :
    (i n : ℕ) (found : Option ℕ) → FoundIn (i + 1) (i + 1 + n) found → FoundIn i (i + suc n) found
FoundIn-suc i n none h = tt
FoundIn-suc i n (some j) h = omega arith

-- What the search for flags leaves alone.
pub record Searched (d t : Decoder) : Type 0 where
  pub received : t.received_bytes ≡ d.received_bytes
  pub waiting : t.decoded_bits ≡ d.decoded_bits
  pub buffer : t.frame_buffer ≡ d.frame_buffer
  pub bits : t.bitstream ≡ d.bitstream
  pub state : t.state ≡ d.state

pub no_sync_loop-Searched :
    (bits : List ℕ) (i : ℕ) (d : Decoder)
    → let (t, found) = no_sync_loop bits i d in Searched d t × FoundIn i (i + length bits) found
unfolding no_sync_loop decode_1b
no_sync_loop-Searched [] i d =
    (record { received = refl; waiting = refl; buffer = refl; bits = refl; state = refl }, tt)
no_sync_loop-Searched (b ∷ bits) i d =
    elim (Bool-cases (three_flags == (decode_1b b d).shift_reg)) [
      | inl e ↦
          rw (e, no_sync_loop)
            (
              record { received = refl; waiting = refl; buffer = refl; bits = refl; state = refl },
              (omega arith, omega arith),
            )
      | inr e ↦
          let (s, f) = no_sync_loop-Searched bits (i + 1) (decode_1b b d) in
          rw (e, no_sync_loop)
            (
              record {
                received = s.received;
                waiting = s.waiting;
                buffer = s.buffer;
                bits = s.bits;
                state = s.state;
              },
              FoundIn-suc i (length bits) _ f,
            )
    ]

-- What the loop over flags leaves alone.
pub record Synced (d t : Decoder) : Type 0 where
  pub received : t.received_bytes ≡ d.received_bytes
  pub buffer : t.frame_buffer ≡ d.frame_buffer
  pub bits : t.bitstream ≡ d.bitstream
  pub state : t.state ≡ d.state
  pub waiting : t.decoded_bits ≤ 8

in_sync_bit-Synced :
    (b : ℕ) (d : Decoder)
    → d.decoded_bits ≤ 7
    → let (t, found) = in_sync_bit b d in Synced d t × (found ≡ false → t.decoded_bits ≤ 7)
unfolding in_sync_bit decode_1b
in_sync_bit-Synced b d le = ground arith

pub in_sync_loop-Synced :
    (bits : List ℕ) (i : ℕ) (d : Decoder)
    → d.decoded_bits ≤ 7
    → let (t, found) = in_sync_loop bits i d in Synced d t × (found ≡ none → t.decoded_bits ≤ 7)
unfolding in_sync_loop
in_sync_loop-Synced [] i d le = (
  record { received = refl; buffer = refl; bits = refl; state = refl; waiting = omega arith },
  λ e. le,
)
in_sync_loop-Synced (b ∷ bits) i d le =
    let (s, more) = in_sync_bit-Synced b d le in
    elim (Bool-cases (in_sync_bit b d).1) [
      | inl e ↦ rw (e, in_sync_loop) (s, λ f. cc)
      | inr e ↦
          let (s', more') = in_sync_loop-Synced bits (i + 1) (in_sync_bit b d).0 (more e) in
          rw (e, in_sync_loop)
            (
              record {
                received = s'.received ∙ s.received;
                buffer = s'.buffer ∙ s.buffer;
                bits = s'.bits ∙ s.bits;
                state = s'.state ∙ s.state;
                waiting = s'.waiting;
              },
              more',
            )
    ]
