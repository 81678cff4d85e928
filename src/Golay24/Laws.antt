-- ===== src/Golay24/Laws.antt =====
-- Decoding what `golay24` encodes, with and without errors.
use satnogs_gr_oot.Base.{all_below_lem, ◌<◌, ◌^◌, ℕ, ◌≡◌, refl, ap, Bool, true, false, ◌&&◌, Option}
use satnogs_gr_oot.Base.{none, some, ◌==◌, ==_iff, all_below}
use satnogs_gr_oot.Utils.{bit_count}
use satnogs_gr_oot.Golay24.{encode12, encode_loop, xor_bits, decode24, syndrome, parity_loop}
use satnogs_gr_oot.Golay24.{message_loop, parity_part_loop, g_p, g_i, weight}

-- Is `code` the result?
abbrev gives : ℕ → Option ℕ → Bool
gives code none = false
gives code (some out) = out == code

gives-some : (code : ℕ) (o : Option ℕ) → gives code o ≡ true → o ≡ some code
gives-some code none h = cc
gives-some code (some out) h = ap some ((==_iff out code).0 h)

clean :
    all_below 4096 (λ m.
      gives (encode12 m true) (decode24 (encode12 m true))
      && gives (encode12 m false) (decode24 (encode12 m false)))
    ≡ true
unfolding all_below encode12 encode_loop xor_bits decode24 syndrome parity_loop message_loop
    parity_part_loop g_p g_i weight bit_count
clean = refl

&&-parts : (a b : Bool) → (a && b) ≡ true → (a ≡ true) × (b ≡ true)
&&-parts true b h = (refl, h)
&&-parts false b h = cc

-- Without errors every word of 12 bits comes through, with the parity in either half.
pub decode24-encode12 :
    (m : ℕ)
    → m < 2 ^ 12
    → (decode24 (encode12 m true) ≡ some (encode12 m true))
      × (decode24 (encode12 m false) ≡ some (encode12 m false))
decode24-encode12 m lt =
    let checked =
      all_below_lem 4096
        (λ m.
          gives (encode12 m true) (decode24 (encode12 m true))
          && gives (encode12 m false) (decode24 (encode12 m false)))
        m clean lt in
    let (low, high) =
      &&-parts (gives (encode12 m true) (decode24 (encode12 m true)))
        (gives (encode12 m false) (decode24 (encode12 m false))) checked in
    (gives-some (encode12 m true) _ low, gives-some (encode12 m false) _ high)
