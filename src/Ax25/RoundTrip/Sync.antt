-- ===== src/Ax25/RoundTrip/Sync.antt =====
-- The preamble and the first byte of a frame, through the loops of `case NO_SYNC` and
-- `case IN_SYNC`.
use satnogs_gr_oot.Base.{ℕ, zero, suc, ◌+◌, ◌-◌, ◌*◌, ◌/◌, ◌^◌, ◌≤◌, ◌<◌, ◌≡◌, refl, ap, ◌∙◌, subst}
use satnogs_gr_oot.Base.{some, List, [], ◌∷◌, ◌++◌, arith, length}
use satnogs_gr_oot.Ax25.Decoder.{Config, Decoder, decode_1b}
use satnogs_gr_oot.Ax25.Decoder.Run.{no_sync_loop, in_sync_bit, in_sync_loop}
use satnogs_gr_oot.Ax25.RoundTrip.Window.{Window, push_value}
use satnogs_gr_oot.Ax25.RoundTrip.Reading.{pushed, run_after, pushed-Window}
use satnogs_gr_oot.Ax25.RoundTrip.Closing.{flag_bits}

abbrev pub flags : ℕ → List ℕ
flags zero = []
flags (suc m) = flag_bits ++ flags m

-- A decoder in sync before the next byte: both registers hold `s`.
abbrev pub quiet : ℕ → Decoder → Decoder
quiet s d = record d { shift_reg = s; dec_b = s; decoded_bits = 0 }

-- The first flag of the preamble is found, and all of it but its last zero is dropped.
pub first_flag :
    (c : Config) (d : Decoder) (rest : List ℕ)
    → no_sync_loop (flag_bits ++ rest) 0 (quiet 0 d)
      ≡ (record (quiet 0 d) { shift_reg = 0x7e; dec_b = 0x7e }, some 7)
unfolding no_sync_loop decode_1b
first_flag c d rest = refl

flag_skipped :
    (d : Decoder) (more : List ℕ) (i : ℕ)
    → (in_sync_loop (flag_bits ++ more) i (quiet 0 d) ≡ in_sync_loop more (i + 8) (quiet 0x7e d))
      × (in_sync_loop (flag_bits ++ more) i (quiet 0x7e d)
          ≡ in_sync_loop more (i + 8) (quiet 0x7e d))
unfolding in_sync_loop in_sync_bit decode_1b
flag_skipped d more i =
    let e : i + 1 + 1 + 1 + 1 + 1 + 1 + 1 + 1 ≡ i + 8 = omega arith in
    (ap (λ n. in_sync_loop more n (quiet 0x7e d)) e, ap (λ n. in_sync_loop more n (quiet 0x7e d)) e)

-- The register of a decoder in sync after `m` flags more.
abbrev pub held : ℕ → ℕ
held zero = 0
held (suc m) = 0x7e

flags_more :
    (m : ℕ) (d : Decoder) (more : List ℕ) (i : ℕ)
    → in_sync_loop (flags m ++ more) i (quiet 0x7e d) ≡ in_sync_loop more (i + 8 * m) (quiet 0x7e d)
flags_more zero d more i =
    ap (λ n. in_sync_loop more n (quiet 0x7e d)) (let e : i ≡ i + 8 * 0 = omega arith in e)
flags_more (suc m) d more i =
    (flag_skipped d (flags m ++ more) i).1
    ∙ flags_more m d more (i + 8)
    ∙ ap (λ n. in_sync_loop more n (quiet 0x7e d))
        (let e : i + 8 + 8 * m ≡ i + 8 * suc m = omega arith in e)

pub flags_skipped :
    (m : ℕ) (d : Decoder) (more : List ℕ) (i : ℕ)
    → in_sync_loop (flags m ++ more) i (quiet 0 d)
      ≡ in_sync_loop more (i + 8 * m) (quiet (held m) d)
flags_skipped zero d more i =
    ap (λ n. in_sync_loop more n (quiet 0 d)) (let e : i ≡ i + 8 * 0 = omega arith in e)
flags_skipped (suc m) d more i =
    (flag_skipped d (flags m ++ more) i).0
    ∙ flags_more m d more (i + 8)
    ∙ ap (λ n. in_sync_loop more n (quiet 0x7e d))
        (let e : i + 8 + 8 * m ≡ i + 8 * suc m = omega arith in e)

-- Bits among which no stuffed zero and no flag comes up, behind `ones` ones in a row.
abbrev pub PlainRun : ℕ → List ℕ → Type 0
PlainRun ones [] = Unit
PlainRun ones (b ∷ bits) = (b < 2) × (ones < 5 + b) × PlainRun (run_after ones b) bits

abbrev pub run_end : ℕ → List ℕ → ℕ
run_end ones [] = ones
run_end ones (b ∷ bits) = run_end (run_after ones b) bits

abbrev pub value_from : ℕ → ℕ → List ℕ → ℕ
value_from k v [] = v
value_from k v (b ∷ bits) = value_from (suc k) (v + b * 2 ^ k) bits

abbrev pub pushes : List ℕ → Decoder → Decoder
pushes [] d = d
pushes (b ∷ bits) d = pushes bits (pushed b d)

-- The registers after the bits, and that the other fields stay.
pub record Pushed (d t : Decoder) (k v ones : ℕ) : Type 0 where
  pub window : Window ones t.shift_reg
  pub byte : t.dec_b < 2 ^ 8
  pub value : t.dec_b / 2 ^ (8 - k) ≡ v
  pub buffer : t.frame_buffer ≡ d.frame_buffer
  pub bits : t.bitstream ≡ d.bitstream

pub pushes-Pushed :
    (xs : List ℕ) (d t : Decoder) (k v ones : ℕ)
    → Pushed d t k v ones
    → PlainRun ones xs
    → k + length xs ≤ 7
    → Pushed d (pushes xs t) (k + length xs) (value_from k v xs) (run_end ones xs)
pushes-Pushed [] d t k v ones p h le =
    subst (λ n. Pushed d t n v ones) (let e : k ≡ k + 0 = omega arith in e) p
pushes-Pushed (b ∷ xs) d t k v ones p (hb, few, h) le =
    let (w, range) = pushed-Window ones b t.shift_reg few hb p.window in
    let next : Pushed d (pushed b t) (suc k) (v + b * 2 ^ k) (run_after ones b) = record {
      window = w;
      byte = omega (arith, p.byte);
      value = push_value k t.dec_b b v (omega arith) p.byte hb p.value;
      buffer = p.buffer;
      bits = p.bits;
    } in
    subst
      (λ n.
        Pushed d (pushes xs (pushed b t)) n (value_from (suc k) (v + b * 2 ^ k) xs)
          (run_end (run_after ones b) xs))
      (let e : suc k + length xs ≡ k + suc (length xs) = omega arith in e)
      (pushes-Pushed xs d (pushed b t) (suc k) (v + b * 2 ^ k) (run_after ones b) next h
        (omega arith))
