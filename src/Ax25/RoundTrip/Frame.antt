-- ===== src/Ax25/RoundTrip/Frame.antt =====
-- A whole frame behind the preamble: the turn that starts it, and the loop that reads it.
use satnogs_gr_oot.Base.{ℕ, zero, suc, ◌+◌, ◌*◌, ◌/◌, ◌%◌, ◌^◌, ◌≤◌, ◌<◌, bit_and, bit_and_mask}
use satnogs_gr_oot.Base.{◌≡◌, refl, sym, ap, ap₂, subst, false, List, [], ◌∷◌, ◌++◌, arith, ◌==◌}
use satnogs_gr_oot.Base.{length, drop, IsBytes}
use satnogs_gr_oot.Ax25.RoundTrip.Stuffed.{decoding_loop-stuff}
use satnogs_gr_oot.Bytes.Laws.{IsBits}
use satnogs_gr_oot.Ax25.{sync_flag}
use satnogs_gr_oot.Ax25.Stuffing.{stuff}
use satnogs_gr_oot.Ax25.Encoder.{all_lsb_bits}
use satnogs_gr_oot.Ax25.Decoder.{Config, Decoder, in_sync, decoding}
use satnogs_gr_oot.Ax25.Decoder.Run.{again, turn_in, decoding_bit, decoding_loop}
use satnogs_gr_oot.Ax25.RoundTrip.Window.{plain_tests, stuffed_tests}
use satnogs_gr_oot.Ax25.RoundTrip.Reading.{collect, run_after, pushed-Window, skipped_bit}
use satnogs_gr_oot.Ax25.RoundTrip.Closing.{FlagSeen, flag_bits, after_bit}
use satnogs_gr_oot.Ax25.RoundTrip.Sync.{PlainRun, pushes, Pushed, run_end, value_from, flags, quiet}
use satnogs_gr_oot.Ax25.RoundTrip.Sync.{held}
use satnogs_gr_oot.Ax25.RoundTrip.FirstByte.{Started, plain-Started, stuffed-Started}
use satnogs_gr_oot.Ax25.RoundTrip.Preamble.{entered, seven-Pushed, turn_in_sync, entered-bits}

pub bit_of : (x : ℕ) → bit_and x 1 ≡ x % 2
bit_of x = bit_and_mask 1 x

-- The bits of bytes make up the bytes.
pub collect-all_lsb_bits : (xs : List ℕ) → IsBytes xs → collect 0 0 (all_lsb_bits xs) ≡ xs
unfolding all_lsb_bits
collect-all_lsb_bits [] h = refl
collect-all_lsb_bits (x ∷ xs) (p, h) = ap₂ ◌∷◌ (omega (arith, bit_of)) (collect-all_lsb_bits xs h)

-- What the turn of `case IN_SYNC` leaves reads the bytes up to the flag.
abbrev pub Framed : Config → Decoder → List ℕ → Type 0
Framed c d bytes =
    (e : Decoder) × (turn_in in_sync c d ≡ again e)
    × (e.state ≡ decoding)
    × (1 ≤ length e.bitstream)
    × FlagSeen bytes (length d.frame_buffer)
        (decoding_loop c (drop e.start_idx e.bitstream) e.start_idx e)

-- A decoder in sync that has dropped all but the last zero of a flag.
pub record InSync (d : Decoder) (m : ℕ) (line : List ℕ) : Type 0 where
  pub bits : d.bitstream ≡ 0 ∷ (flags m ++ line)
  pub start : d.start_idx ≡ 1
  pub shift : d.shift_reg ≡ 0
  pub dec : d.dec_b ≡ 0
  pub count : d.decoded_bits ≡ 0

module _ (c : Config) (d : Decoder) (m b0 b1 b2 b3 b4 b5 b6 y : ℕ) (rest bytes : List ℕ) where
  -- The first byte is read, then the rest of the line.
  enter-Framed :
      InSync d m (b0 ∷ b1 ∷ b2 ∷ b3 ∷ b4 ∷ b5 ∷ b6 ∷ y ∷ rest)
      → let xs : List ℕ = b0 ∷ b1 ∷ b2 ∷ b3 ∷ b4 ∷ b5 ∷ b6 ∷ [] in
        let e : Decoder = entered m xs y d in
        PlainRun 0 xs
        → y < 2
        → ((pushes xs (quiet (held m) d)).shift_reg / 2 + y * 128 == sync_flag) ≡ false
        → Started d e (8 * m + 2)
        → FlagSeen bytes (length e.frame_buffer) (decoding_loop c rest 7 e)
        → Framed c d bytes
  enter-Framed s plain hy flag started seen =
      let xs : List ℕ = b0 ∷ b1 ∷ b2 ∷ b3 ∷ b4 ∷ b5 ∷ b6 ∷ [] in
      let e : Decoder = entered m xs y d in
      let left = entered-bits m b0 b1 b2 b3 b4 b5 b6 y rest d e s.bits started in
      (
        e,
        turn_in_sync c m xs y rest d s.bits s.start s.shift s.dec s.count plain refl hy flag,
        started.state,
        omega (arith, ap length left),
        subst (λ n. FlagSeen bytes n (decoding_loop c (drop e.start_idx e.bitstream) e.start_idx e))
            started.room
            (subst (λ (r : Decoder × ℕ × _). FlagSeen bytes (length e.frame_buffer) r)
              (ap₂ (λ (i : ℕ) (bs : List ℕ). decoding_loop c (drop i bs) i e) (sym started.start)
                (sym left))
              seen),
      )

after_few : (ones y : ℕ) → ones + y < 5 → y < 2 → run_after ones y < 5
after_few ones zero h hy = omega arith
after_few ones (suc zero) h hy = omega arith
after_few ones (suc (suc y)) h hy = absurd (omega arith)

module _ (c : Config) (d : Decoder) (m b0 b1 b2 b3 b4 b5 b6 : ℕ) (bits more : List ℕ) where
  abbrev seven : List ℕ
  seven = b0 ∷ b1 ∷ b2 ∷ b3 ∷ b4 ∷ b5 ∷ b6 ∷ []

  abbrev registers : Decoder
  registers = pushes seven (quiet (held m) d)

  -- The eighth bit is data, and no zero is stuffed behind it.
  pub data_eighth :
      (y : ℕ)
      → InSync d m
          (seven ++ (y ∷ (stuff (run_after (run_end 0 seven) y) bits ++ (flag_bits ++ more))))
      → PlainRun 0 seven
      → run_end 0 seven + y < 5
      → y < 2
      → IsBits bits
      → length bits % 8 ≡ 0
      → 1 + length (collect 0 0 bits) < c.max_frame_len
      → c.max_frame_len ≤ length d.frame_buffer
      → Framed c d ((value_from 0 0 seven + y * 2 ^ 7) ∷ collect 0 0 bits)
  data_eighth y s plain few hy h whole fits size =
      let ones : ℕ = run_end 0 seven in
      let p = seven-Pushed m seven d plain refl in
      let (w, range) = pushed-Window ones y registers.shift_reg (omega arith) hy p.window in
      let (reading, started) =
        plain-Started d registers y (value_from 0 0 seven) ones (8 * m + 2) p hy (omega arith)
          (omega arith) in
      enter-Framed c d m b0 b1 b2 b3 b4 b5 b6 y
        (stuff (run_after ones y) bits ++ (flag_bits ++ more))
        ((value_from 0 0 seven + y * 2 ^ 7) ∷ collect 0 0 bits) s plain hy
        (plain_tests (registers.shift_reg / 2 + y * 128) range).0 started
        (decoding_loop-stuff c bits more 7 (entered m seven y d)
          ((value_from 0 0 seven + y * 2 ^ 7) ∷ []) 0 0 (run_after ones y) reading h
          (after_few ones y few hy) (omega arith) (omega arith) (omega arith)
          (omega (arith, started.room)))

  -- The eighth bit is the fifth one in a row: a stuffed zero stands behind it.
  pub full_eighth :
      InSync d m (seven ++ (1 ∷ 0 ∷ (stuff 0 bits ++ (flag_bits ++ more))))
      → PlainRun 0 seven
      → run_end 0 seven ≡ 4
      → IsBits bits
      → length bits % 8 ≡ 0
      → 1 + length (collect 0 0 bits) < c.max_frame_len
      → c.max_frame_len ≤ length d.frame_buffer
      → Framed c d ((value_from 0 0 seven + 1 * 2 ^ 7) ∷ collect 0 0 bits)
  full_eighth s plain four h whole fits size =
      let p =
        subst (Pushed d registers 7 (value_from 0 0 seven)) four
          (seven-Pushed m seven d plain refl) in
      let (w, range) = pushed-Window 4 1 registers.shift_reg (omega arith) (omega arith) p.window in
      let (reading, started) =
        plain-Started d registers 1 (value_from 0 0 seven) 4 (8 * m + 2) p (omega arith)
          (omega arith) (omega arith) in
      let e : Decoder = entered m seven 1 d in
      let byte : ℕ = value_from 0 0 seven + 1 * 2 ^ 7 in
      let (on, next, kept) = skipped_bit c e (byte ∷ []) 0 0 reading (omega arith) in
      enter-Framed c d m b0 b1 b2 b3 b4 b5 b6 1 (0 ∷ (stuff 0 bits ++ (flag_bits ++ more)))
        (byte ∷ collect 0 0 bits) s plain (omega arith)
        (plain_tests (registers.shift_reg / 2 + 1 * 128) range).0 started
        (after_bit c 0 (stuff 0 bits ++ (flag_bits ++ more)) 7 e (byte ∷ collect 0 0 bits) on kept (
          decoding_loop-stuff c bits more 8 (decoding_bit c 0 e).0 (byte ∷ []) 0 0 0 next h
            (omega arith) (omega arith) (omega arith) (omega arith)
            (omega (arith, started.room, kept))))

  -- The eighth bit is a stuffed zero.
  pub stuffed_eighth :
      (y : ℕ)
      → InSync d m (seven ++ (0 ∷ (stuff 0 (y ∷ bits) ++ (flag_bits ++ more))))
      → PlainRun 0 seven
      → run_end 0 seven ≡ 5
      → y < 2
      → IsBits bits
      → length bits % 8 ≡ 0
      → 1 + length (collect 0 0 bits) < c.max_frame_len
      → c.max_frame_len ≤ length d.frame_buffer
      → Framed c d ((value_from 0 0 seven + y * 2 ^ 7) ∷ collect 0 0 bits)
  stuffed_eighth y s plain five hy h whole fits size =
      let p =
        subst (Pushed d registers 7 (value_from 0 0 seven)) five
          (seven-Pushed m seven d plain refl) in
      let (reading, started) = stuffed-Started d registers (value_from 0 0 seven) (8 * m + 2) p in
      let flag =
        stuffed_tests (registers.shift_reg / 2 + 0 * 128) (omega (arith, p.window))
          (omega (arith, p.window)) in
      enter-Framed c d m b0 b1 b2 b3 b4 b5 b6 0 (stuff 0 (y ∷ bits) ++ (flag_bits ++ more))
        ((value_from 0 0 seven + y * 2 ^ 7) ∷ collect 0 0 bits) s plain (omega arith) flag.0 started
        (decoding_loop-stuff c (y ∷ bits) more 7 (entered m seven 0 d) [] 7 (value_from 0 0 seven) 0
          reading (hy, h) (omega arith) (omega arith) (omega arith) (omega arith)
          (omega (arith, started.room)))
