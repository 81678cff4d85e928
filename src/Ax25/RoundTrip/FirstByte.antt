-- ===== src/Ax25/RoundTrip/FirstByte.antt =====
-- The first byte behind the preamble, and the start of the frame at it.
use satnogs_gr_oot.Base.{ℕ, suc, ◌+◌, ◌*◌, ◌/◌, ◌^◌, ◌≤◌, ◌<◌, ◌≡◌, refl, sym, ap, ap₂, ◌∙◌, subst}
use satnogs_gr_oot.Base.{Bool, true, false, some, List, [], ◌∷◌, ◌++◌, arith, ◌==◌, length, drop}
use satnogs_gr_oot.Base.{length-set}
use satnogs_gr_oot.Ax25.RoundTrip.Reading.{take-set, pushed, Reading, run_after, pushed-Window}
use satnogs_gr_oot.Ax25.{sync_flag}
use satnogs_gr_oot.Ax25.Decoder.{Decoder, decoding, enter_decoding_state, erase_read}
use satnogs_gr_oot.Ax25.Decoder.Run.{in_sync_bit, in_sync_loop}
use satnogs_gr_oot.Ax25.RoundTrip.Window.{Window, Window-lt, decode_1b-push, plain_tests}
use satnogs_gr_oot.Ax25.RoundTrip.Window.{stuffed_tests}
use satnogs_gr_oot.Ax25.RoundTrip.Sync.{PlainRun, pushes, Pushed}

in_sync_bit-inner :
    (b : ℕ) (d : Decoder)
    → b < 2
    → d.shift_reg < 2 ^ 8
    → d.dec_b < 2 ^ 8
    → d.decoded_bits < 7
    → in_sync_bit b d ≡ (record (pushed b d) { decoded_bits = d.decoded_bits + 1 }, false)
unfolding in_sync_bit
in_sync_bit-inner b d hb hs hd few =
    let more : (d.decoded_bits + 1 == 8) ≡ false = ground arith in
    rw (decode_1b-push b d hb hs hd, more, in_sync_bit) refl

in_sync_bit-last :
    (b : ℕ) (d : Decoder)
    → b < 2
    → d.shift_reg < 2 ^ 8
    → d.dec_b < 2 ^ 8
    → d.decoded_bits ≡ 7
    → (d.shift_reg / 2 + b * 128 == sync_flag) ≡ false
    → in_sync_bit b d ≡ (record (pushed b d) { decoded_bits = d.decoded_bits + 1 }, true)
unfolding in_sync_bit
in_sync_bit-last b d hb hs hd few flag =
    let more : (d.decoded_bits + 1 == 8) ≡ true = ground arith in
    rw (decode_1b-push b d hb hs hd, more, flag, in_sync_bit) refl

pushes-count :
    (xs : List ℕ) (d : Decoder) (n : ℕ)
    → pushes xs (record d { decoded_bits = n }) ≡ record (pushes xs d) { decoded_bits = n }
pushes-count [] d n = refl
pushes-count (b ∷ xs) d n = pushes-count xs (pushed b d) n

sync_on :
    (b : ℕ) (bits : List ℕ) (i : ℕ) (d e : Decoder)
    → in_sync_bit b d ≡ (e, false)
    → in_sync_loop (b ∷ bits) i d ≡ in_sync_loop bits (i + 1) e
unfolding in_sync_loop
sync_on b bits i d e h =
    let found : (in_sync_bit b d).1 ≡ false = ap (λ (r : Decoder × Bool). r.1) h in
    rw (found, in_sync_loop) (ap (λ (r : Decoder × Bool). in_sync_loop bits (i + 1) r.0) h)

sync_stop :
    (b : ℕ) (bits : List ℕ) (i : ℕ) (d e : Decoder)
    → in_sync_bit b d ≡ (e, true)
    → in_sync_loop (b ∷ bits) i d ≡ (e, some i)
unfolding in_sync_loop
sync_stop b bits i d e h =
    let found : (in_sync_bit b d).1 ≡ true = ap (λ (r : Decoder × Bool). r.1) h in
    rw (found, in_sync_loop) (ap (λ (r : Decoder × Bool). (r.0, some i)) h)

-- The byte behind the flags ends the search at its last bit, since it is no flag.
pub in_sync_loop-byte :
    (xs : List ℕ) (y : ℕ) (more : List ℕ) (i : ℕ) (d : Decoder) (ones : ℕ)
    → Window ones d.shift_reg
    → d.dec_b < 2 ^ 8
    → PlainRun ones xs
    → d.decoded_bits + length xs ≡ 7
    → y < 2
    → (pushes xs d).shift_reg < 2 ^ 8
    → (pushes xs d).dec_b < 2 ^ 8
    → ((pushes xs d).shift_reg / 2 + y * 128 == sync_flag) ≡ false
    → in_sync_loop (xs ++ (y ∷ more)) i d
      ≡ (record (pushed y (pushes xs d)) { decoded_bits = 8 }, some (i + length xs))
in_sync_loop-byte [] y more i d ones w hd h seven hy hs hb flag =
    sync_stop y more i d _ (in_sync_bit-last y d hy hs hb (omega arith) flag)
    ∙ ap₂ (λ (n : ℕ) (j : ℕ). (record (pushed y d) { decoded_bits = n }, some j))
        (let e : d.decoded_bits + 1 ≡ 8 = omega arith in e) (let e : i ≡ i + 0 = omega arith in e)
in_sync_loop-byte (b ∷ xs) y more i d ones w hd (p, few, h) seven hy hs hb flag =
    let next : Decoder = record (pushed b d) { decoded_bits = d.decoded_bits + 1 } in
    let same : pushes xs next
        ≡ record (pushes xs (pushed b d)) { decoded_bits = d.decoded_bits + 1 } =
      pushes-count xs (pushed b d) (d.decoded_bits + 1) in
    sync_on b (xs ++ (y ∷ more)) i d next
      (in_sync_bit-inner b d p (Window-lt ones d.shift_reg w) hd (omega arith))
    ∙ in_sync_loop-byte xs y more (i + 1) next (run_after ones b)
        (pushed-Window ones b d.shift_reg few p w).0 (omega arith) h (omega arith) hy
        (subst (λ (t : Decoder). t.shift_reg < 2 ^ 8) (sym same) hs)
        (subst (λ (t : Decoder). t.dec_b < 2 ^ 8) (sym same) hb)
        (subst (λ (t : Decoder). (t.shift_reg / 2 + y * 128 == sync_flag) ≡ false) (sym same) flag)
    ∙ ap₂ (λ (t : Decoder) (j : ℕ). (record (pushed y t) { decoded_bits = 8 }, some j)) same
        (let e : i + 1 + length xs ≡ i + suc (length xs) = omega arith in e)

-- The decoder in front of the rest of the frame: its state and what it holds of the line.
pub record Started (d e : Decoder) (n : ℕ) : Type 0 where
  pub state : e.state ≡ decoding
  pub start : e.start_idx ≡ 7
  pub bits : e.bitstream ≡ drop n d.bitstream
  pub room : length e.frame_buffer ≡ length d.frame_buffer

-- The eighth bit makes up the first byte.
pub plain-Started :
    (d t : Decoder) (y v ones n : ℕ)
    → Pushed d t 7 v ones
    → y < 2
    → ones < 5 + y
    → 1 ≤ length d.frame_buffer
    → let e =
        enter_decoding_state
          (record (erase_read n (record (pushed y t) { decoded_bits = 8 })) { start_idx = 7 }) in
      Reading e ((v + y * 2 ^ 7) ∷ []) 0 0 (run_after ones y) × Started d e n
unfolding enter_decoding_state erase_read
plain-Started d t y v ones n p hy few room =
    let (w, range) = pushed-Window ones y t.shift_reg few hy p.window in
    let (flag, stuffed, abort) = plain_tests (t.shift_reg / 2 + y * 128) range in
    let byte : t.dec_b / 2 + y * 128 ≡ v + y * 2 ^ 7 = omega (arith, p.value) in
    let same = ap length p.buffer in
    rw (stuffed, enter_decoding_state)
      (
        record {
          window = w;
          byte = omega (arith, p.byte);
          count = refl;
          value = omega (arith, p.byte);
          received = refl;
          stored = take-set t.frame_buffer [] _ (omega (arith, same)) refl ∙ ap (λ b. b ∷ []) byte;
        },
        record {
          state = refl;
          start = refl;
          bits = ap (drop n) p.bits;
          room = length-set t.frame_buffer 0 (t.dec_b / 2 + y * 128) ∙ same;
        },
      )

-- The eighth bit is a stuffed zero.
pub stuffed-Started :
    (d t : Decoder) (v n : ℕ)
    → Pushed d t 7 v 5
    → let e =
        enter_decoding_state
          (record (erase_read n (record (pushed 0 t) { decoded_bits = 8 })) { start_idx = 7 }) in
      Reading e [] 7 v 0 × Started d e n
unfolding enter_decoding_state erase_read
stuffed-Started d t v n p =
    let (flag, stuffed) =
      stuffed_tests (t.shift_reg / 2 + 0 * 128) (omega (arith, p.window))
        (omega (arith, p.window)) in
    rw (stuffed, enter_decoding_state)
      (
        record {
          window = omega (arith, p.window);
          byte = omega arith;
          count = refl;
          value = omega (arith, p.value, p.byte);
          received = refl;
          stored = refl;
        },
        record { state = refl; start = refl; bits = ap (drop n) p.bits; room = ap length p.buffer },
      )
