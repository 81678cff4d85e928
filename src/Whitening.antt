-- ===== src/Whitening.antt =====
-- `class whitening` (lib/whitening.cc, include/satnogs/whitening.h). Its shift register is GNU
-- Radio's `digital::lfsr`, which is not part of the repository: it is the record `Lfsr`.
-- An operation takes the state of the register and returns the output with the new state. Where
-- `out` and `in` are one buffer, each byte is read before it is written, so the lists do.
pub mod Laws
pub mod Range
pub mod Sample
mod Tests
use satnogs_gr_oot.Base.{ℕ, ◌^◌, ◌<◌, bit_xor, ◌≡◌, Bool, true, false, List, [], ◌∷◌}
use satnogs_gr_oot.Bytes.{msb_bits, lsb_bits, join_msb, join_lsb}

-- The methods of `digital::lfsr` that the code calls. What the code relies on: they return a bit,
-- and `reset` restores the state of construction, whatever was done since.
pub record Lfsr : Type 1 where
  pub State : Type 0
  pub make : ℕ → ℕ → ℕ → State
  pub next_bit : State → ℕ × State
  pub next_bit_scramble : State → ℕ → ℕ × State
  pub next_bit_descramble : State → ℕ → ℕ × State
  pub reset : State → State
  pub next_bit_range : (s : State) → (next_bit s).0 < 2
  pub scramble_range : (s : State) (b : ℕ) → (next_bit_scramble s b).0 < 2
  pub descramble_range : (s : State) (b : ℕ) → (next_bit_descramble s b).0 < 2
  pub reset_make : (mask seed order : ℕ) → reset (make mask seed order) ≡ make mask seed order
  pub reset_next : (s : State) → reset (next_bit s).1 ≡ reset s
  pub reset_scramble : (s : State) (b : ℕ) → reset (next_bit_scramble s b).1 ≡ reset s

module _ (lfsr : Lfsr) where
  open lfsr use {State, make, next_bit, next_bit_scramble, next_bit_descramble, reset}

  -- The fields of the class; `d_id` only numbers the instances.
  pub record Whitening : Type 0 where
    pub msb : Bool
    pub self_sync : Bool
    pub register : State

  unfoldable pub new : ℕ → ℕ → ℕ → Bool → Bool → Whitening
  new mask seed order msb self_sync = record {
    msb = msb;
    self_sync = self_sync;
    register = make mask seed order;
  }

  unfoldable pub make_ccsds : Bool → Whitening
  unfolding new
  make_ccsds msb = new 0xa9 0xff 7 msb false

  unfoldable pub make_g3ruh : Bool → Whitening
  unfolding new
  make_g3ruh msb = new 0x21 0 16 msb true

  unfoldable pub reset_whitening : Whitening → Whitening
  reset_whitening w = record w { register = reset w.register }

  -- Calls of `next_bit_scramble` or `next_bit_descramble`, one for each bit given, in order.
  unfoldable pub feed : (State → ℕ → ℕ × State) → State → List ℕ → List ℕ × State
  feed next s [] = ([], s)
  feed next s (b ∷ bits) = let (o, s') = next s b in let (os, t) = feed next s' bits in (o ∷ os, t)

  -- Eight calls of `next_bit`.
  unfoldable pub draw_byte : State → List ℕ × State
  draw_byte s =
      let (b0, s0) = next_bit s in
      let (b1, s1) = next_bit s0 in
      let (b2, s2) = next_bit s1 in
      let (b3, s3) = next_bit s2 in
      let (b4, s4) = next_bit s3 in
      let (b5, s5) = next_bit s4 in
      let (b6, s6) = next_bit s5 in
      let (b7, s7) = next_bit s6 in (b0 ∷ b1 ∷ b2 ∷ b3 ∷ b4 ∷ b5 ∷ b6 ∷ b7 ∷ [], s7)

  -- The bodies of the four loops of `scramble`, by `d_msb` and `d_self_sync`.
  unfoldable pub scramble_byte : Bool → Bool → State → ℕ → ℕ × State
  unfolding feed draw_byte
  scramble_byte true true s x =
      let (bits, t) = feed next_bit_scramble s (msb_bits x) in (join_msb bits, t)
  scramble_byte true false s x = let (bits, t) = draw_byte s in (bit_xor x (join_msb bits), t)
  scramble_byte false true s x =
      let (bits, t) = feed next_bit_scramble s (lsb_bits x) in (join_lsb bits, t)
  scramble_byte false false s x = let (bits, t) = draw_byte s in (bit_xor x (join_lsb bits), t)

  unfoldable pub scramble_loop : Bool → Bool → State → List ℕ → List ℕ × State
  scramble_loop msb self_sync s [] = ([], s)
  scramble_loop msb self_sync s (x ∷ xs) =
      let (o, s') = scramble_byte msb self_sync s x in
      let (os, t) = scramble_loop msb self_sync s' xs in (o ∷ os, t)

  unfoldable pub scramble : Whitening → List ℕ → List ℕ × Whitening
  scramble w xs =
      let (os, t) = scramble_loop w.msb w.self_sync w.register xs in (os, record w { register = t })

  unfoldable pub descramble : Whitening → List ℕ → List ℕ × Whitening
  descramble w xs = scramble w xs

  -- The loop `out[i] = in[i] ^ d_lfsr.next_bit()`.
  unfoldable pub additive_bits : State → List ℕ → List ℕ × State
  additive_bits s [] = ([], s)
  additive_bits s (b ∷ bits) =
      let (k, s') = next_bit s in let (os, t) = additive_bits s' bits in (bit_xor b k ∷ os, t)

  unfoldable pub one_bit_loop : (State → ℕ → ℕ × State) → Bool → State → List ℕ → List ℕ × State
  one_bit_loop next true s bits = feed next s bits
  one_bit_loop next false s bits = additive_bits s bits

  unfoldable pub scramble_one_bit_per_byte : Whitening → List ℕ → List ℕ × Whitening
  scramble_one_bit_per_byte w bits =
      let (os, t) = one_bit_loop next_bit_scramble w.self_sync w.register bits in
      (os, record w { register = t })

  unfoldable pub descramble_one_bit_per_byte : Whitening → List ℕ → List ℕ × Whitening
  descramble_one_bit_per_byte w bits =
      let (os, t) = one_bit_loop next_bit_descramble w.self_sync w.register bits in
      (os, record w { register = t })
