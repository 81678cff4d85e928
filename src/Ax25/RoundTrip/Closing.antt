-- ===== src/Ax25/RoundTrip/Closing.antt =====
-- The flag behind a frame, through the loop of `case DECODING`.
use satnogs_gr_oot.Base.{◌∙◌, ap, ℕ, zero, suc, ◌+◌, ◌*◌, ◌/◌, ◌^◌, ◌<◌, ◌≡◌, refl, sym, subst}
use satnogs_gr_oot.Base.{true, List, [], ◌∷◌, ◌++◌, arith, ◌==◌, length, take, replicate}
use satnogs_gr_oot.Ax25.RoundTrip.Reading.{pushed, Reading, inner_bit}
use satnogs_gr_oot.Ax25.{sync_flag}
use satnogs_gr_oot.Ax25.Decoder.{Config, Decoder}
use satnogs_gr_oot.Ax25.Decoder.Run.{Verdict, go_on, flag_seen, decoding_bit, decoding_loop}
use satnogs_gr_oot.Ax25.RoundTrip.Window.{Window, decode_1b-push}

-- The loop ended at a flag on a byte boundary, with the bytes `done` stored.
pub record FlagSeen (done : List ℕ) (size : ℕ) (r : Decoder × ℕ × Verdict) : Type 0 where
  pub verdict : r.2 ≡ flag_seen
  pub boundary : r.0.decoded_bits ≡ 7
  pub received : r.0.received_bytes ≡ length done
  pub stored : take (length done) r.0.frame_buffer ≡ done
  pub room : length r.0.frame_buffer ≡ size

pub loop_on :
    (c : Config) (b : ℕ) (bits : List ℕ) (i : ℕ) (d : Decoder)
    → (decoding_bit c b d).1 ≡ go_on
    → decoding_loop c (b ∷ bits) i d ≡ decoding_loop c bits (i + 1) (decoding_bit c b d).0
unfolding decoding_loop
loop_on c b bits i d e = rw (e, decoding_loop) refl

-- One data bit, then what follows.
pub after_bit :
    (c : Config) (b : ℕ) (bits : List ℕ) (i : ℕ) (d : Decoder) (want : List ℕ)
    → (decoding_bit c b d).1 ≡ go_on
    → length (decoding_bit c b d).0.frame_buffer ≡ length d.frame_buffer
    → FlagSeen want
        (length (decoding_bit c b d).0.frame_buffer)
        (decoding_loop c bits (i + 1) (decoding_bit c b d).0)
    → FlagSeen want (length d.frame_buffer) (decoding_loop c (b ∷ bits) i d)
after_bit c b bits i d want e room end =
    subst (FlagSeen want (length d.frame_buffer)) (sym (loop_on c b bits i d e))
      (subst (λ n. FlagSeen want n (decoding_loop c bits (i + 1) (decoding_bit c b d).0)) room end)

ending_bit :
    (c : Config) (d : Decoder)
    → Window 6 d.shift_reg
    → d.dec_b < 2 ^ 8
    → decoding_bit c 0 d ≡ (pushed 0 d, flag_seen)
unfolding decoding_bit
ending_bit c d w hd =
    let flag : (d.shift_reg / 2 + 0 * 128 == sync_flag) ≡ true = ground (arith, w) in
    rw (decode_1b-push 0 d (omega arith) (omega arith) hd, flag, decoding_bit) refl

flag_bit :
    (c : Config) (more : List ℕ) (i : ℕ) (d : Decoder) (done : List ℕ) (v : ℕ)
    → Reading d done 7 v 6
    → FlagSeen done (length d.frame_buffer) (decoding_loop c (0 ∷ more) i d)
unfolding decoding_loop
flag_bit c more i d done v r =
    let e = ending_bit c d r.window r.byte in
    rw (e, decoding_loop)
      (record {
        verdict = refl;
        boundary = ap (λ (x : Decoder × Verdict). x.0.decoded_bits) e ∙ r.count;
        received = ap (λ (x : Decoder × Verdict). x.0.received_bytes) e ∙ r.received;
        stored = ap (λ (x : Decoder × Verdict). take (length done) x.0.frame_buffer) e ∙ r.stored;
        room = ap (λ (x : Decoder × Verdict). length x.0.frame_buffer) e;
      })

-- The ones of the flag still to come, then its last zero.
flag_ones :
    (c : Config) (left : ℕ) (more : List ℕ) (i : ℕ) (d : Decoder) (done : List ℕ) (k v ones : ℕ)
    → Reading d done k v ones
    → ones + left ≡ 6
    → k + left ≡ 7
    → FlagSeen done (length d.frame_buffer) (decoding_loop c (replicate left 1 ++ (0 ∷ more)) i d)
flag_ones c zero more i d done k v ones r six seven =
    let ek : k ≡ 7 = omega arith in
    let eo : ones ≡ 6 = omega arith in
    flag_bit c more i d done v
      (subst (λ n. Reading d done n v 6) ek (subst (λ o. Reading d done k v o) eo r))
flag_ones c (suc left) more i d done k v ones r six seven =
    let (e, next, room) =
      inner_bit c 1 d done k v ones r (omega arith) (omega arith) (omega arith) in
    after_bit c 1 (replicate left 1 ++ (0 ∷ more)) i d done e room (
      flag_ones c left more (i + 1) (decoding_bit c 1 d).0 done (k + 1) (v + 1 * 2 ^ k) (suc ones)
        next (omega arith) (omega arith))

-- A flag, least significant bit first.
abbrev pub flag_bits : List ℕ
flag_bits = 0 ∷ 1 ∷ 1 ∷ 1 ∷ 1 ∷ 1 ∷ 1 ∷ 0 ∷ []

pub closing_flag :
    (c : Config) (more : List ℕ) (i : ℕ) (d : Decoder) (done : List ℕ) (v ones : ℕ)
    → Reading d done 0 v ones
    → ones < 5
    → FlagSeen done (length d.frame_buffer) (decoding_loop c (flag_bits ++ more) i d)
closing_flag c more i d done v ones r few =
    let (e, next, room) =
      inner_bit c 0 d done 0 v ones r (omega arith) (omega arith) (omega arith) in
    after_bit c 0 (replicate 6 1 ++ (0 ∷ more)) i d done e room
      (flag_ones c 6 more (i + 1) (decoding_bit c 0 d).0 done 1 (v + 0 * 2 ^ 0) 0 next refl refl)
