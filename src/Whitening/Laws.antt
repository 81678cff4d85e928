-- ===== src/Whitening/Laws.antt =====
-- The four ways to scramble: bytes against bits, frames in parts, and what undoes them.
use satnogs_gr_oot.Base.{ℕ, ◌^◌, ◌<◌, bit_xor, ◌≡◌, refl, sym, ap, ap₂, ◌∙◌, Bool, true, false}
use satnogs_gr_oot.Base.{List, [], ◌∷◌, ◌++◌, IsBytes, xor_cancel}
use satnogs_gr_oot.Bytes.{msb_bits, lsb_bits, join_msb, join_lsb}
use satnogs_gr_oot.Bytes.Laws.{IsBits, msb_bits-IsBits, lsb_bits-IsBits, join-msb_bits}
use satnogs_gr_oot.Bytes.Laws.{join-lsb_bits, xor_bits, join_msb-xor_bits, join_lsb-xor_bits}
use satnogs_gr_oot.Whitening.{Lfsr, Whitening, new, reset_whitening, draw_byte, scramble_byte}
use satnogs_gr_oot.Whitening.{scramble_loop, scramble, descramble, additive_bits, one_bit_loop}
use satnogs_gr_oot.Whitening.{scramble_one_bit_per_byte}

-- The bits of a frame, in the order in which a scrambler takes them.
abbrev bits_of : Bool → ℕ → List ℕ
bits_of true x = msb_bits x
bits_of false x = lsb_bits x

abbrev pub frame_bits : Bool → List ℕ → List ℕ
frame_bits msb [] = []
frame_bits msb (x ∷ xs) = bits_of msb x ++ frame_bits msb xs

abbrev join : Bool → List ℕ → ℕ
join true bits = join_msb bits
join false bits = join_lsb bits

-- Whole bytes made of a stream of bits.
abbrev pub frame_bytes : Bool → List ℕ → List ℕ
frame_bytes msb (a ∷ b ∷ c ∷ d ∷ e ∷ f ∷ g ∷ h ∷ bits) =
    join msb (a ∷ b ∷ c ∷ d ∷ e ∷ f ∷ g ∷ h ∷ []) ∷ frame_bytes msb bits
frame_bytes msb _ = []

module _ (lfsr : Lfsr) where
  open lfsr use {
    State, make, next_bit, next_bit_scramble, reset, next_bit_range, reset_make, reset_next,
  }

  draw_byte-IsBits : (s : State) → IsBits (draw_byte lfsr s).0
  unfolding draw_byte
  draw_byte-IsBits s = (
    next_bit_range _,
    (
      next_bit_range _,
      (
        next_bit_range _,
        (
          next_bit_range _,
          (next_bit_range _, (next_bit_range _, (next_bit_range _, (next_bit_range _, tt)))),
        ),
      ),
    ),
  )

  key-msb :
      (s : State) (x : ℕ)
      → x < 2 ^ 8
      → bit_xor x (join_msb (draw_byte lfsr s).0)
        ≡ join_msb (xor_bits (msb_bits x) (draw_byte lfsr s).0)
  key-msb s x h =
      ap (λ t. bit_xor t (join_msb (draw_byte lfsr s).0)) (sym (join-msb_bits x h))
      ∙ sym (
          join_msb-xor_bits (msb_bits x) (draw_byte lfsr s).0 refl (unfold draw_byte in refl)
            (msb_bits-IsBits x h) (draw_byte-IsBits s))

  key-lsb :
      (s : State) (x : ℕ)
      → x < 2 ^ 8
      → bit_xor x (join_lsb (draw_byte lfsr s).0)
        ≡ join_lsb (xor_bits (lsb_bits x) (draw_byte lfsr s).0)
  key-lsb s x h =
      ap (λ t. bit_xor t (join_lsb (draw_byte lfsr s).0)) (sym (join-lsb_bits x h))
      ∙ sym (
          join_lsb-xor_bits (lsb_bits x) (draw_byte lfsr s).0 refl (unfold draw_byte in refl)
            (lsb_bits-IsBits x) (draw_byte-IsBits s))

  abbrev by_bits : Bool → Bool → State → List ℕ → List ℕ × State
  by_bits msb self_sync s xs =
      let (os, t) = one_bit_loop lfsr next_bit_scramble self_sync s (frame_bits msb xs) in
      (frame_bytes msb os, t)

  loop_by_bits :
      (msb self_sync : Bool) (s : State) (xs : List ℕ)
      → IsBytes xs
      → scramble_loop lfsr msb self_sync s xs ≡ by_bits msb self_sync s xs
  unfolding scramble_loop scramble_byte one_bit_loop additive_bits
  loop_by_bits true true s [] h = refl
  loop_by_bits true false s [] h = refl
  loop_by_bits false true s [] h = refl
  loop_by_bits false false s [] h = refl
  loop_by_bits true true s (x ∷ xs) (p, h) =
      let (o, t) = scramble_byte lfsr true true s x in
      ap (λ (r : List ℕ × State). (o ∷ r.0, r.1)) (loop_by_bits true true t xs h)
  loop_by_bits false true s (x ∷ xs) (p, h) =
      let (o, t) = scramble_byte lfsr false true s x in
      ap (λ (r : List ℕ × State). (o ∷ r.0, r.1)) (loop_by_bits false true t xs h)
  loop_by_bits true false s (x ∷ xs) (p, h) =
      let (o, t) = scramble_byte lfsr true false s x in
      ap₂ (λ (u : ℕ) (r : List ℕ × State). (u ∷ r.0, r.1)) (key-msb s x p)
        (loop_by_bits true false t xs h)
  loop_by_bits false false s (x ∷ xs) (p, h) =
      let (o, t) = scramble_byte lfsr false false s x in
      ap₂ (λ (u : ℕ) (r : List ℕ × State). (u ∷ r.0, r.1)) (key-lsb s x p)
        (loop_by_bits false false t xs h)

  -- In all four modes, `scramble` on bytes does what `scramble_one_bit_per_byte` does on the bits of
  -- the frame, in the order that `msb` gives, and leaves the same register.
  pub scramble_by_bits :
      (w : Whitening lfsr) (xs : List ℕ)
      → IsBytes xs
      → let (os, v) = scramble_one_bit_per_byte lfsr w (frame_bits w.msb xs) in
        scramble lfsr w xs ≡ (frame_bytes w.msb os, v)
  unfolding scramble scramble_one_bit_per_byte
  scramble_by_bits w xs h =
      ap (λ (r : List ℕ × State). (r.0, record w { register = r.1 }))
        (loop_by_bits w.msb w.self_sync w.register xs h)

  pub additive_byte_undo :
      (msb : Bool) (s : State) (x : ℕ)
      → let (o, t) = scramble_byte lfsr msb false s x in scramble_byte lfsr msb false s o ≡ (x, t)
  unfolding scramble_byte
  additive_byte_undo true s x =
      ap (λ u. (u, (draw_byte lfsr s).1)) (xor_cancel x (join_msb (draw_byte lfsr s).0))
  additive_byte_undo false s x =
      ap (λ u. (u, (draw_byte lfsr s).1)) (xor_cancel x (join_lsb (draw_byte lfsr s).0))

  pub additive_loop_undo :
      (msb : Bool) (s : State) (xs : List ℕ)
      → let (os, t) = scramble_loop lfsr msb false s xs in
        scramble_loop lfsr msb false s os ≡ (xs, t)
  unfolding scramble_loop
  additive_loop_undo msb s [] = refl
  additive_loop_undo msb s (x ∷ xs) =
      let (o, t) = scramble_byte lfsr msb false s x in
      ap₂ (λ (u : ℕ × State) (r : List ℕ × State). (u.0 ∷ r.0, r.1)) (additive_byte_undo msb s x)
        (ap
            (λ (u : ℕ × State).
              scramble_loop lfsr msb false u.1 (scramble_loop lfsr msb false t xs).0)
            (additive_byte_undo msb s x)
          ∙ additive_loop_undo msb t xs)

  reset-draw : (s : State) → reset (draw_byte lfsr s).1 ≡ reset s
  unfolding draw_byte
  reset-draw s = simp reset_next

  reset-byte :
      (msb : Bool) (s : State) (x : ℕ) → reset (scramble_byte lfsr msb false s x).1 ≡ reset s
  unfolding scramble_byte
  reset-byte true s x = reset-draw s
  reset-byte false s x = reset-draw s

  reset-loop :
      (msb : Bool) (s : State) (xs : List ℕ) → reset (scramble_loop lfsr msb false s xs).1 ≡ reset s
  unfolding scramble_loop
  reset-loop msb s [] = refl
  reset-loop msb s (x ∷ xs) =
      reset-loop msb (scramble_byte lfsr msb false s x).1 xs ∙ reset-byte msb s x

  -- Without self-synchronisation, `descramble` after a `reset` gives back every frame that
  -- `scramble` has scrambled since construction, and ends in the register that `scramble` left.
  pub descramble-scramble :
      (mask seed order : ℕ) (msb : Bool) (xs : List ℕ)
      → let (os, w) = scramble lfsr (new lfsr mask seed order msb false) xs in
        descramble lfsr (reset_whitening lfsr w) os ≡ (xs, w)
  unfolding scramble descramble reset_whitening new
  descramble-scramble mask seed order msb xs =
      let start : State = make mask seed order in
      let (os, t) = scramble_loop lfsr msb false start xs in
      ap (λ (r : List ℕ × State). (r.0, record { msb = msb; self_sync = false; register = r.1 }))
        (ap (λ u. scramble_loop lfsr msb false u os)
            (reset-loop msb start xs ∙ reset_make mask seed order)
          ∙ additive_loop_undo msb start xs)
