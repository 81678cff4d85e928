-- ===== src/Ax25/RoundTrip/Stuffed.antt =====
-- A whole stuffed frame and the flag behind it, through the loop of `case DECODING`.
use satnogs_gr_oot.Base.{length-append, ◌%◌, ◌∙◌, ap, ◌≤◌, append-nil, append_assoc, inl, inr}
use satnogs_gr_oot.Base.{Bool-cases, ℕ, zero, suc, ◌+◌, ◌*◌, ◌^◌, ◌<◌, ◌≡◌, refl, sym, subst, List}
use satnogs_gr_oot.Base.{[], ◌∷◌, ◌++◌, arith, ◌==◌, length}
use satnogs_gr_oot.Bytes.Laws.{IsBits}
use satnogs_gr_oot.Ax25.Stuffing.{stuff}
use satnogs_gr_oot.Ax25.RoundTrip.Reading.{skipped_bit, collect, run_after, final_bit, Reading}
use satnogs_gr_oot.Ax25.RoundTrip.Reading.{inner_bit}
use satnogs_gr_oot.Ax25.Decoder.{Config, Decoder}
use satnogs_gr_oot.Ax25.Decoder.Run.{decoding_bit, decoding_loop}
use satnogs_gr_oot.Ax25.RoundTrip.Closing.{FlagSeen, after_bit, closing_flag, flag_bits}

-- What follows a data bit: `next` bits of the line, which the state `e` after it reads.
data_bit :
    (c : Config) (b : ℕ) (bits next : List ℕ) (i : ℕ) (d : Decoder) (done : List ℕ) (k v ones : ℕ)
    → Reading d done k v ones
    → b < 2
    → ones < 5 + b
    → k < 8
    → length done + length (collect k v (b ∷ bits)) < c.max_frame_len
    → c.max_frame_len ≤ length d.frame_buffer
    → ((e : Decoder) (done' : List ℕ) (k' v' : ℕ)
        → Reading e done' k' v' (run_after ones b)
        → k' < 8
        → (k' + length bits) % 8 ≡ (k + suc (length bits)) % 8
        → done' ++ collect k' v' bits ≡ done ++ collect k v (b ∷ bits)
        → length e.frame_buffer ≡ length d.frame_buffer
        → FlagSeen
            (done ++ collect k v (b ∷ bits))
            (length e.frame_buffer)
            (decoding_loop c next (i + 1) e))
    → FlagSeen
        (done ++ collect k v (b ∷ bits))
        (length d.frame_buffer)
        (decoding_loop c (b ∷ next) i d)
data_bit c b bits next i d done k v ones r hb few lt fits size go =
    let want : List ℕ = done ++ collect k v (b ∷ bits) in
    elim (Bool-cases (k == 7)) [
      | inl e ↦
          let last : k ≡ 7 = ground arith in
          let y : ℕ = v + b * 2 ^ 7 in
          let same : collect k v (b ∷ bits) ≡ y ∷ collect 0 0 bits =
            rw (e, collect) (ap (λ n. (v + b * 2 ^ n) ∷ collect 0 0 bits) last) in
          let here : Reading d done 7 v ones = subst (λ n. Reading d done n v ones) last r in
          let bound : length done + suc (length (collect 0 0 bits)) < c.max_frame_len =
            omega (arith, ap length same) in
          let (on, read, room) =
            final_bit c b d done v ones here hb few (omega arith) (omega arith) in
          after_bit c b next i d want on room (
            go (decoding_bit c b d).0 (done ++ (y ∷ [])) 0 0 read (omega arith) (omega arith)
              (append_assoc done (y ∷ []) (collect 0 0 bits) ∙ ap (λ t. done ++ t) (sym same)) room)
      | inr e ↦
          let inside : k < 7 = ground arith in
          let same : collect k v (b ∷ bits) ≡ collect (k + 1) (v + b * 2 ^ k) bits =
            rw (e, collect) refl in
          let (on, read, room) = inner_bit c b d done k v ones r hb few inside in
          after_bit c b next i d want on room (
            go (decoding_bit c b d).0 done (k + 1) (v + b * 2 ^ k) read (omega arith) (omega arith)
              (ap (λ t. done ++ t) (sym same)) room)
    ]

bound_kept :
    (done xs done' ys : List ℕ) (most : ℕ)
    → done' ++ ys ≡ done ++ xs
    → length done + length xs < most
    → length done' + length ys < most
bound_kept done xs done' ys most same h =
    omega (arith, ap length same, length-append done' ys, length-append done xs)

-- A stuffed frame and the flag behind it: the loop stores the bytes that the bits make up, and stops
-- at the flag.
pub decoding_loop-stuff :
    (c : Config) (bits more : List ℕ) (i : ℕ) (d : Decoder) (done : List ℕ) (k v ones : ℕ)
    → Reading d done k v ones
    → IsBits bits
    → ones < 5
    → k < 8
    → (k + length bits) % 8 ≡ 0
    → length done + length (collect k v bits) < c.max_frame_len
    → c.max_frame_len ≤ length d.frame_buffer
    → FlagSeen
        (done ++ collect k v bits)
        (length d.frame_buffer)
        (decoding_loop c (stuff ones bits ++ (flag_bits ++ more)) i d)
unfolding stuff
decoding_loop-stuff c [] more i d done k v ones r h few lt whole fits size =
    let e : k ≡ 0 = omega arith in
    subst (λ t. FlagSeen t (length d.frame_buffer) (decoding_loop c (flag_bits ++ more) i d))
      (sym (append-nil done))
      (closing_flag c more i d done v ones (subst (λ n. Reading d done n v ones) e r) few)
decoding_loop-stuff c (zero ∷ bits) more i d done k v ones r (p, h) few lt whole fits size =
    let tail : List ℕ = flag_bits ++ more in
    data_bit c 0 bits (stuff 0 bits ++ tail) i d done k v ones r p (omega arith) lt fits size
      (λ e done' k' v' read lt' step same room.
        subst
          (λ t.
            FlagSeen t (length e.frame_buffer) (decoding_loop c (stuff 0 bits ++ tail) (i + 1) e))
          same
          (decoding_loop-stuff c bits more (i + 1) e done' k' v' 0 read h (omega arith) lt'
            (omega arith) (bound_kept done (collect k v (0 ∷ bits)) done' _ _ same fits)
            (omega arith)))
decoding_loop-stuff c (suc zero ∷ bits) more i d done k v ones r (p, h) few lt whole fits size =
    let tail : List ℕ = flag_bits ++ more in
    elim (Bool-cases (ones == 4)) [
      | inl four ↦
          rw (four, stuff)
            (data_bit c 1 bits (0 ∷ (stuff 0 bits ++ tail)) i d done k v ones r p (omega arith) lt
              fits size
              (λ e done' k' v' read lt' step same room.
                let five : suc ones ≡ 5 = ground arith in
                let here = subst (Reading e done' k' v') five read in
                let (on, next, kept) = skipped_bit c e done' k' v' here lt' in
                let after : Decoder = (decoding_bit c 0 e).0 in
                after_bit c 0 (stuff 0 bits ++ tail) (i + 1) e (done ++ collect k v (1 ∷ bits)) on
                  kept
                  (subst
                    (λ t.
                      FlagSeen t (length after.frame_buffer)
                        (decoding_loop c (stuff 0 bits ++ tail) (i + 1 + 1) after))
                    same
                    (decoding_loop-stuff c bits more (i + 1 + 1) after done' k' v' 0 next h
                      (omega arith) lt' (omega arith)
                      (bound_kept done (collect k v (1 ∷ bits)) done' _ _ same fits)
                      (omega arith)))))
      | inr other ↦
          rw (other, stuff)
            (data_bit c 1 bits (stuff (ones + 1) bits ++ tail) i d done k v ones r p (omega arith)
              lt fits size
              (λ e done' k' v' read lt' step same room.
                let up : suc ones ≡ ones + 1 = omega arith in
                subst
                  (λ t.
                    FlagSeen t (length e.frame_buffer)
                      (decoding_loop c (stuff (ones + 1) bits ++ tail) (i + 1) e))
                  same
                  (decoding_loop-stuff c bits more (i + 1) e done' k' v' (ones + 1)
                    (subst (Reading e done' k' v') up read) h (ground arith) lt' (omega arith)
                    (bound_kept done (collect k v (1 ∷ bits)) done' _ _ same fits) (omega arith))))
    ]
decoding_loop-stuff c (suc (suc b) ∷ bits) more i d done k v ones r (p, h) few lt whole fits size =
    absurd (omega arith)
