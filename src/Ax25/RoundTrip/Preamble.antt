-- ===== src/Ax25/RoundTrip/Preamble.antt =====
-- The turns of the loop of `_decode` in front of a frame: what the preamble and the first byte leave.
use satnogs_gr_oot.Base.{ℕ, zero, suc, ◌+◌, ◌-◌, ◌*◌, ◌/◌, ◌^◌, ◌≤◌, ◌<◌, ◌≡◌, refl, ap, ap₂, ◌∙◌}
use satnogs_gr_oot.Base.{subst, false, some, List, [], ◌∷◌, ◌++◌, arith, ◌==◌, length, drop}
use satnogs_gr_oot.Bytes.Laws.{IsBits}
use satnogs_gr_oot.Ax25.{sync_flag}
use satnogs_gr_oot.Ax25.Stuffing.{stuff}
use satnogs_gr_oot.Ax25.Decoder.{Config, Decoder, in_sync, enter_decoding_state, erase_read}
use satnogs_gr_oot.Ax25.Decoder.Run.{again, turn_in, in_sync_loop, after_in_sync}
use satnogs_gr_oot.Ax25.RoundTrip.Window.{Window-lt}
use satnogs_gr_oot.Ax25.RoundTrip.Reading.{pushed}
use satnogs_gr_oot.Ax25.RoundTrip.Sync.{PlainRun, pushes, pushes-Pushed, Pushed, run_end}
use satnogs_gr_oot.Ax25.RoundTrip.Sync.{value_from, flags, quiet, held, flags_skipped}
use satnogs_gr_oot.Ax25.RoundTrip.FirstByte.{Started, in_sync_loop-byte}

-- Bits with at most four ones behind `ones` ones: nothing is stuffed among them.
abbrev pub total : List ℕ → ℕ
total [] = 0
total (b ∷ bits) = b + total bits

pub stuff-calm :
    (xs ys : List ℕ) (ones : ℕ)
    → IsBits xs
    → ones + total xs ≤ 4
    → (stuff ones (xs ++ ys) ≡ xs ++ stuff (run_end ones xs) ys)
      × PlainRun ones xs
      × (run_end ones xs ≤ 4)
unfolding stuff
stuff-calm [] ys ones h le = (refl, tt, omega arith)
stuff-calm (zero ∷ xs) ys ones (p, h) le =
    let (e, plain, few) = stuff-calm xs ys 0 h (omega arith) in
    (ap (λ t. 0 ∷ t) e, (p, omega arith, plain), few)
stuff-calm (suc zero ∷ xs) ys ones (p, h) le =
    let (e, plain, few) = stuff-calm xs ys (suc ones) h (omega arith) in
    let other : (ones == 4) ≡ false = ground arith in
    let up : ones + 1 ≡ suc ones = omega arith in
    (
      rw (other, stuff) (ap (λ t. 1 ∷ t) (ap (λ n. stuff n (xs ++ ys)) up ∙ e)),
      (p, omega arith, plain),
      few,
    )
stuff-calm (suc (suc b) ∷ xs) ys ones (p, h) le = absurd (omega arith)

-- The last seven bits of the preamble's last flag and of the byte are kept.
drop-flags : (m b : ℕ) (rest : List ℕ) → drop (8 * m + 2) (0 ∷ (flags m ++ (b ∷ rest))) ≡ rest
drop-flags zero b rest = refl
drop-flags (suc m) b rest =
    ap (λ n. drop n (0 ∷ (flags (suc m) ++ (b ∷ rest))))
      (let e : 8 * suc m + 2 ≡ suc (suc (suc (suc (suc (suc (suc (suc (8 * m + 2)))))))) =
          omega arith in
        e)
    ∙ drop-flags m b rest

-- The decoder that starts the frame, behind `m` more flags, the seven bits `xs` and the bit `y`.
abbrev pub entered : ℕ → List ℕ → ℕ → Decoder → Decoder
entered m xs y d =
    enter_decoding_state
      (record (erase_read (8 * m + 2)
        (record (pushed y (pushes xs (quiet (held m) d))) { decoded_bits = 8 })) { start_idx = 7 })

held-lt : (m : ℕ) → (held m < 128) × (held m / 2 ^ 8 ≡ 0)
held-lt zero = omega arith
held-lt (suc m) = omega arith

pub seven-Pushed :
    (m : ℕ) (xs : List ℕ) (d : Decoder)
    → PlainRun 0 xs
    → length xs ≡ 7
    → Pushed d (pushes xs (quiet (held m) d)) 7 (value_from 0 0 xs) (run_end 0 xs)
seven-Pushed m xs d plain seven =
    let (low, empty) = held-lt m in
    subst (λ n. Pushed d (pushes xs (quiet (held m) d)) n (value_from 0 0 xs) (run_end 0 xs))
      (let e : 0 + length xs ≡ 7 = omega arith in e)
      (pushes-Pushed xs d (quiet (held m) d) 0 0 0
        (record { window = low; byte = omega arith; value = empty; buffer = refl; bits = refl })
        plain (omega arith))

-- The turn of `case IN_SYNC` over the rest of the preamble and the first byte of the line.
pub turn_in_sync :
    (c : Config) (m : ℕ) (xs : List ℕ) (y : ℕ) (rest : List ℕ) (d : Decoder)
    → d.bitstream ≡ 0 ∷ (flags m ++ (xs ++ (y ∷ rest)))
    → d.start_idx ≡ 1
    → d.shift_reg ≡ 0
    → d.dec_b ≡ 0
    → d.decoded_bits ≡ 0
    → PlainRun 0 xs
    → length xs ≡ 7
    → y < 2
    → ((pushes xs (quiet (held m) d)).shift_reg / 2 + y * 128 == sync_flag) ≡ false
    → turn_in in_sync c d ≡ again (entered m xs y d)
unfolding turn_in after_in_sync
turn_in_sync c m xs y rest d bits start shift dec count plain seven hy flag =
    let t : Decoder = record (pushed y (pushes xs (quiet (held m) d))) { decoded_bits = 8 } in
    let p = seven-Pushed m xs d plain seven in
    let (low, empty) = held-lt m in
    let found : in_sync_loop (drop d.start_idx d.bitstream) d.start_idx d ≡ (t, some (8 * m + 8)) =
      ap₂ (λ (i : ℕ) (bs : List ℕ). in_sync_loop (drop i bs) i d) start bits
      ∙ ap₂
          (λ (s b : ℕ).
            in_sync_loop (flags m ++ (xs ++ (y ∷ rest))) 1 (record d { shift_reg = s; dec_b = b }))
          shift dec
      ∙ ap
          (λ (n : ℕ).
            in_sync_loop (flags m ++ (xs ++ (y ∷ rest))) 1
              (record (quiet 0 d) { decoded_bits = n }))
          count
      ∙ flags_skipped m d (xs ++ (y ∷ rest)) 1
      ∙ in_sync_loop-byte xs y rest (1 + 8 * m) (quiet (held m) d) 0 low (omega arith) plain
          (omega (arith, seven)) hy (Window-lt (run_end 0 xs) _ p.window) p.byte flag
      ∙ ap (λ (n : ℕ). (t, some n))
          (let e : 1 + 8 * m + length xs ≡ 8 * m + 8 = omega arith in e) in
    ap after_in_sync found
    ∙ ap (λ n. again (enter_decoding_state (record (erase_read n t) { start_idx = 7 })))
        (let e : 8 * m + 8 + 1 - 7 ≡ 8 * m + 2 = omega arith in e)

-- The bits of the line that are left for the frame.
pub entered-bits :
    (m b0 b1 b2 b3 b4 b5 b6 y : ℕ) (rest : List ℕ) (d e : Decoder)
    → d.bitstream ≡ 0 ∷ (flags m ++ (b0 ∷ b1 ∷ b2 ∷ b3 ∷ b4 ∷ b5 ∷ b6 ∷ y ∷ rest))
    → Started d e (8 * m + 2)
    → e.bitstream ≡ b1 ∷ b2 ∷ b3 ∷ b4 ∷ b5 ∷ b6 ∷ y ∷ rest
entered-bits m b0 b1 b2 b3 b4 b5 b6 y rest d e bits s =
    s.bits ∙ ap (drop (8 * m + 2)) bits ∙ drop-flags m b0 (b1 ∷ b2 ∷ b3 ∷ b4 ∷ b5 ∷ b6 ∷ y ∷ rest)
