-- ===== src/Whitening/Range.antt =====
-- The sizes of what `scramble` writes.
use satnogs_gr_oot.Base.{suc, ℕ, ◌^◌, ◌<◌, ◌≡◌, refl, ap, bit_xor-lt, Bool, true, false, List, []}
use satnogs_gr_oot.Base.{◌∷◌, ◌++◌, IsBytes, length}
use satnogs_gr_oot.Bytes.Range.{join_msb-lt, join_lsb-lt}
use satnogs_gr_oot.Whitening.{Lfsr, scramble_byte, scramble_loop, draw_byte}

module _ (lfsr : Lfsr) where
  open lfsr use {State}

  scramble_byte-lt :
      (msb self_sync : Bool) (s : State) (x : ℕ)
      → x < 2 ^ 8
      → (scramble_byte lfsr msb self_sync s x).0 < 2 ^ 8
  unfolding scramble_byte
  scramble_byte-lt true true s x h = join_msb-lt _
  scramble_byte-lt true false s x h = bit_xor-lt 8 x _ h (join_msb-lt (draw_byte lfsr s).0)
  scramble_byte-lt false true s x h = join_lsb-lt _
  scramble_byte-lt false false s x h = bit_xor-lt 8 x _ h (join_lsb-lt (draw_byte lfsr s).0)

  pub scramble_loop-IsBytes :
      (msb self_sync : Bool) (s : State) (xs : List ℕ)
      → IsBytes xs
      → IsBytes (scramble_loop lfsr msb self_sync s xs).0
  unfolding scramble_loop
  scramble_loop-IsBytes msb self_sync s [] h = tt
  scramble_loop-IsBytes msb self_sync s (x ∷ xs) (p, h) = (
    scramble_byte-lt msb self_sync s x p,
    scramble_loop-IsBytes msb self_sync (scramble_byte lfsr msb self_sync s x).1 xs h,
  )

  pub length-scramble_loop :
      (msb self_sync : Bool) (s : State) (xs : List ℕ)
      → length (scramble_loop lfsr msb self_sync s xs).0 ≡ length xs
  unfolding scramble_loop
  length-scramble_loop msb self_sync s [] = refl
  length-scramble_loop msb self_sync s (x ∷ xs) =
      ap suc (length-scramble_loop msb self_sync (scramble_byte lfsr msb self_sync s x).1 xs)

  -- A frame in two parts.
  pub scramble_loop-append :
      (msb self_sync : Bool) (s : State) (xs ys : List ℕ)
      → let (os, t) = scramble_loop lfsr msb self_sync s xs in
        let (ps, u) = scramble_loop lfsr msb self_sync t ys in
        scramble_loop lfsr msb self_sync s (xs ++ ys) ≡ (os ++ ps, u)
  unfolding scramble_loop
  scramble_loop-append msb self_sync s [] ys = refl
  scramble_loop-append msb self_sync s (x ∷ xs) ys =
      let (o, t) = scramble_byte lfsr msb self_sync s x in
      ap (λ (r : List ℕ × State). (o ∷ r.0, r.1)) (scramble_loop-append msb self_sync t xs ys)
