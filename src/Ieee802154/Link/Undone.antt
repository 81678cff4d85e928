-- ===== src/Ieee802154/Link/Undone.antt =====
-- What the encoder's scrambler did, the decoder's descrambler takes back in two calls.
use satnogs_gr_oot.Base.{ℕ, ◌≡◌, refl, sym, ap, subst, false, Option, none, some, List, [], ◌∷◌}
use satnogs_gr_oot.Base.{length, IsBytes}
use satnogs_gr_oot.Whitening.{Lfsr, Whitening, reset_whitening, scramble, descramble, scramble_loop}
use satnogs_gr_oot.Whitening.{scramble_byte}
use satnogs_gr_oot.Whitening.Laws.{additive_byte_undo, additive_loop_undo}
use satnogs_gr_oot.Whitening.Range.{scramble_loop-IsBytes, length-scramble_loop}
use satnogs_gr_oot.Ieee802154.Encoder.{scrambled}
use satnogs_gr_oot.Ieee802154.Decoder.Run.{descrambled}

module _ (lfsr : Lfsr) where
  open lfsr use {State as Register}

  -- The register of the decoder is where a reset brings that of the encoder, and is additive; or
  -- there is none on either side.
  abbrev pub Matched : Option (Whitening lfsr) → Option (Whitening lfsr) → Type 0
  Matched none none = Unit
  Matched none (some v) = ⊥
  Matched (some w) none = ⊥
  Matched (some w) (some v) = (reset_whitening lfsr w ≡ v) × (v.self_sync ≡ false)

  -- The bytes `sent` for `x ∷ xs` are taken back in two calls.
  abbrev Undone : List ℕ → Option (Whitening lfsr) → ℕ → List ℕ → Type 0
  Undone sent de x xs =
      (first : ℕ) × (wire : List ℕ) × (v : Option (Whitening lfsr)) × (u : Option (Whitening lfsr))
      × (sent ≡ first ∷ wire)
      × (descrambled lfsr de (first ∷ []) ≡ (x ∷ [], v))
      × (descrambled lfsr v wire ≡ (xs, u))
      × IsBytes (first ∷ wire)
      × (length wire ≡ length xs)

  additive-Undone :
      (v : Whitening lfsr) (x : ℕ) (xs : List ℕ)
      → v.self_sync ≡ false
      → IsBytes (x ∷ xs)
      → Undone (scramble lfsr v (x ∷ xs)).0 (some v) x xs
  unfolding descrambled scramble descramble scramble_loop
  additive-Undone v x xs additive (p, h) =
      let (o, t) = scramble_byte lfsr v.msb v.self_sync v.register x in
      let (os, r) = scramble_loop lfsr v.msb v.self_sync t xs in
      let back : scramble_byte lfsr v.msb v.self_sync v.register o ≡ (x, t) =
        subst
          (λ b.
            scramble_byte lfsr v.msb b v.register (scramble_byte lfsr v.msb b v.register x).0
            ≡ (x, (scramble_byte lfsr v.msb b v.register x).1))
          (sym additive) (additive_byte_undo lfsr v.msb v.register x) in
      let rest : scramble_loop lfsr v.msb v.self_sync t os ≡ (xs, r) =
        subst
          (λ b.
            scramble_loop lfsr v.msb b t (scramble_loop lfsr v.msb b t xs).0
            ≡ (xs, (scramble_loop lfsr v.msb b t xs).1))
          (sym additive) (additive_loop_undo lfsr v.msb t xs) in
      (
        o,
        os,
        some (record v { register = t }),
        some (record v { register = r }),
        refl,
        ap (λ (z : ℕ × Register). (z.0 ∷ [], some (record v { register = z.1 }))) back,
        ap (λ (z : List ℕ × Register). (z.0, some (record v { register = z.1 }))) rest,
        scramble_loop-IsBytes lfsr v.msb v.self_sync v.register (x ∷ xs) (p, h),
        length-scramble_loop lfsr v.msb v.self_sync t xs,
      )

  pub undone :
      (sc de : Option (Whitening lfsr)) (x : ℕ) (xs : List ℕ)
      → Matched sc de
      → IsBytes (x ∷ xs)
      → Undone (scrambled lfsr sc (x ∷ xs)).0 de x xs
  unfolding scrambled descrambled
  undone none none x xs m h = (x, xs, none, none, refl, refl, refl, h, refl)
  undone none (some v) x xs m h = absurd m
  undone (some w) none x xs m h = absurd m
  undone (some w) (some v) x xs (e, additive) h =
      subst (λ z. Undone (scramble lfsr z (x ∷ xs)).0 (some v) x xs) (sym e)
        (additive-Undone v x xs additive h)
