-- ===== src/Ax25/RoundTrip/Reading.antt =====
-- The loop of `case DECODING` over a stuffed frame and the flag behind it.
use satnogs_gr_oot.Base.{ℕ, zero, suc, ◌+◌, ◌-◌, ◌*◌, ◌/◌, ◌%◌, ◌^◌, ◌≤◌, ◌<◌, ◌≡◌, refl, sym, ap}
use satnogs_gr_oot.Base.{ap₂, ◌∙◌, subst, ◌⊎◌, inl, inr, true, false, List, [], ◌∷◌, ◌++◌, arith}
use satnogs_gr_oot.Base.{leb, ◌==◌, length, set, take, length-set, length-append}
use satnogs_gr_oot.Ax25.Decoder.{Config, Decoder}
use satnogs_gr_oot.Ax25.Decoder.Run.{go_on, decoding_bit}
use satnogs_gr_oot.Ax25.RoundTrip.Window.{Window, Window-lt, Window-zero, Window-one, Window-above}
use satnogs_gr_oot.Ax25.RoundTrip.Window.{decode_1b-push, plain_tests, stuffed_tests, push_value}
use satnogs_gr_oot.Ax25.RoundTrip.Window.{keep_value}

-- The decoder has stored the bytes `done` and read `k` bits of the next, whose value is `v`, and the
-- line is at `ones` ones in a row.
pub record Reading (d : Decoder) (done : List ℕ) (k v ones : ℕ) : Type 0 where
  pub window : Window ones d.shift_reg
  pub byte : d.dec_b < 2 ^ 8
  pub count : d.decoded_bits ≡ k
  pub value : d.dec_b / 2 ^ (8 - k) ≡ v
  pub received : d.received_bytes ≡ length done
  pub stored : take (length done) d.frame_buffer ≡ done

-- The bytes that the bits complete, behind `k` bits of value `v`.
abbrev pub collect : ℕ → ℕ → List ℕ → List ℕ
collect k v [] = []
collect k v (b ∷ bits) = elim (k == 7) [
  | true ↦ (v + b * 2 ^ k) ∷ collect 0 0 bits
  | false ↦ collect (k + 1) (v + b * 2 ^ k) bits
]

-- The registers after a bit that is data.
abbrev pub pushed : ℕ → Decoder → Decoder
pushed b d = record d { shift_reg = d.shift_reg / 2 + b * 128; dec_b = d.dec_b / 2 + b * 128 }

plain_bit :
    (c : Config) (b : ℕ) (d : Decoder)
    → b < 2
    → d.shift_reg < 2 ^ 8
    → d.dec_b < 2 ^ 8
    → ((pushed b d).shift_reg < 124)
      ⊎ ((128 ≤ (pushed b d).shift_reg) × ((pushed b d).shift_reg < 254))
    → d.decoded_bits < 7
    → decoding_bit c b d ≡ (record (pushed b d) { decoded_bits = d.decoded_bits + 1 }, go_on)
unfolding decoding_bit
plain_bit c b d hb hs hd range few =
    let (flag, stuffed, abort) = plain_tests (d.shift_reg / 2 + b * 128) range in
    let more : (d.decoded_bits + 1 == 8) ≡ false = ground arith in
    rw (decode_1b-push b d hb hs hd, flag, stuffed, abort, more, decoding_bit) refl

last_bit :
    (c : Config) (b : ℕ) (d : Decoder)
    → b < 2
    → d.shift_reg < 2 ^ 8
    → d.dec_b < 2 ^ 8
    → ((pushed b d).shift_reg < 124)
      ⊎ ((128 ≤ (pushed b d).shift_reg) × ((pushed b d).shift_reg < 254))
    → d.decoded_bits ≡ 7
    → d.received_bytes + 1 < c.max_frame_len
    → decoding_bit c b d ≡ (
      record (pushed b d) {
        frame_buffer = set d.frame_buffer d.received_bytes (d.dec_b / 2 + b * 128);
        received_bytes = d.received_bytes + 1;
        decoded_bits = 0;
      },
      go_on,
    )
unfolding decoding_bit
last_bit c b d hb hs hd range full room =
    let (flag, stuffed, abort) = plain_tests (d.shift_reg / 2 + b * 128) range in
    let more : (d.decoded_bits + 1 == 8) ≡ true = ground arith in
    let fits : leb c.max_frame_len (d.received_bytes + 1) ≡ false = ground arith in
    rw (decode_1b-push b d hb hs hd, flag, stuffed, abort, more, fits, decoding_bit) refl

stuffed_bit :
    (c : Config) (d : Decoder)
    → Window 5 d.shift_reg
    → d.dec_b < 2 ^ 8
    → decoding_bit c 0 d
      ≡ (record (pushed 0 d) { dec_b = (d.dec_b / 2 + 0 * 128) * 2 % 2 ^ 8 }, go_on)
unfolding decoding_bit
stuffed_bit c d w hd =
    let (flag, stuffed) = stuffed_tests (d.shift_reg / 2 + 0 * 128) (omega arith) (omega arith) in
    rw (decode_1b-push 0 d (omega arith) (omega arith) hd, flag, stuffed, decoding_bit) refl

pub take-set :
    (xs done : List ℕ) (y : ℕ)
    → length done < length xs
    → take (length done) xs ≡ done
    → take (suc (length done)) (set xs (length done) y) ≡ done ++ (y ∷ [])
take-set [] done y lt e = absurd (omega arith)
take-set (x ∷ xs) [] y lt e = refl
take-set (x ∷ xs) (z ∷ done) y lt e =
    let head : x ≡ z = cc in
    let tail : take (length done) xs ≡ done = cc in
    ap₂ ◌∷◌ head (take-set xs done y (omega arith) tail)

-- The ones in a row after a bit.
abbrev pub run_after : ℕ → ℕ → ℕ
run_after ones zero = 0
run_after ones (suc b) = suc ones

pub pushed-Window :
    (ones b r : ℕ)
    → ones < 5 + b
    → b < 2
    → Window ones r
    → Window (run_after ones b) (r / 2 + b * 128)
      × ((r / 2 + b * 128 < 124) ⊎ ((128 ≤ r / 2 + b * 128) × (r / 2 + b * 128 < 254)))
pushed-Window ones zero r lt hb w =
    let low = Window-zero ones r (omega arith) w in
    let e : r / 2 + 0 * 128 ≡ r / 2 = omega arith in (omega arith, inl (omega arith))
pushed-Window ones (suc zero) r lt hb w =
    let up = Window-one ones r (omega arith) w in
    let e : r / 2 + 1 * 128 ≡ r / 2 + 128 = omega arith in
    (subst (Window (suc ones)) (sym e) up, inr (Window-above ones (r / 2 + 128) up))
pushed-Window ones (suc (suc b)) r lt hb w = absurd (omega arith)

-- A data bit inside a byte, and the last of a byte.
pub inner_bit :
    (c : Config) (b : ℕ) (d : Decoder) (done : List ℕ) (k v ones : ℕ)
    → Reading d done k v ones
    → b < 2
    → ones < 5 + b
    → k < 7
    → ((decoding_bit c b d).1 ≡ go_on)
      × Reading (decoding_bit c b d).0 done (k + 1) (v + b * 2 ^ k) (run_after ones b)
      × (length (decoding_bit c b d).0.frame_buffer ≡ length d.frame_buffer)
inner_bit c b d done k v ones r hb few inside =
    let lt = Window-lt ones d.shift_reg r.window in
    let (w, range) = pushed-Window ones b d.shift_reg few hb r.window in
    let e = plain_bit c b d hb lt r.byte range (omega (arith, r.count)) in
    let k1 : suc k ≡ k + 1 = omega arith in
    rw e (
      refl,
      record {
        window = w;
        byte = omega (arith, r.byte);
        count = omega (arith, r.count);
        value =
            ap (λ n. (d.dec_b / 2 + b * 128) / 2 ^ (8 - n)) (sym k1)
            ∙ push_value k d.dec_b b v (omega arith) r.byte hb r.value;
        received = r.received;
        stored = r.stored;
      },
      refl,
    )

pub final_bit :
    (c : Config) (b : ℕ) (d : Decoder) (done : List ℕ) (v ones : ℕ)
    → Reading d done 7 v ones
    → b < 2
    → ones < 5 + b
    → length done + 1 < c.max_frame_len
    → length done < length d.frame_buffer
    → ((decoding_bit c b d).1 ≡ go_on)
      × Reading (decoding_bit c b d).0 (done ++ ((v + b * 2 ^ 7) ∷ [])) 0 0 (run_after ones b)
      × (length (decoding_bit c b d).0.frame_buffer ≡ length d.frame_buffer)
final_bit c b d done v ones r hb few room inside =
    let lt = Window-lt ones d.shift_reg r.window in
    let (w, range) = pushed-Window ones b d.shift_reg few hb r.window in
    let e = last_bit c b d hb lt r.byte range r.count (omega (arith, r.received)) in
    let byte : d.dec_b / 2 + b * 128 ≡ v + b * 2 ^ 7 = omega (arith, r.value) in
    let grown = length-append done ((v + b * 2 ^ 7) ∷ []) in
    rw e (
      refl,
      record {
        window = w;
        byte = omega (arith, r.byte);
        count = refl;
        value = omega (arith, r.byte);
        received = omega (arith, r.received);
        stored =
            ap (λ n. take n (set d.frame_buffer d.received_bytes (d.dec_b / 2 + b * 128)))
              (let n : length (done ++ ((v + b * 2 ^ 7) ∷ [])) ≡ suc (length done) = omega arith in
                n)
            ∙ ap₂ (λ i y. take (suc (length done)) (set d.frame_buffer i y)) r.received byte
            ∙ take-set d.frame_buffer done (v + b * 2 ^ 7) inside r.stored;
      },
      length-set d.frame_buffer d.received_bytes (d.dec_b / 2 + b * 128),
    )

-- A stuffed zero behind five ones.
pub skipped_bit :
    (c : Config) (d : Decoder) (done : List ℕ) (k v : ℕ)
    → Reading d done k v 5
    → k < 8
    → ((decoding_bit c 0 d).1 ≡ go_on)
      × Reading (decoding_bit c 0 d).0 done k v 0
      × (length (decoding_bit c 0 d).0.frame_buffer ≡ length d.frame_buffer)
skipped_bit c d done k v r lt =
    let e = stuffed_bit c d r.window r.byte in
    let same : d.dec_b / 2 + 0 * 128 ≡ d.dec_b / 2 = omega arith in
    rw e (
      refl,
      record {
        window = omega (arith, r.window);
        byte = omega arith;
        count = r.count;
        value =
            ap (λ t. t * 2 % 2 ^ 8 / 2 ^ (8 - k)) same ∙ keep_value k d.dec_b v lt r.byte r.value;
        received = r.received;
        stored = r.stored;
      },
      refl,
    )
