-- ===== src/Utils/Mirror.antt =====
-- The three lines of `reverse_uint64_bytes` (lib/utils.cc), each on a number made of eight bytes.
use satnogs_gr_oot.Base.{ap, length, reverse, ℕ, ◌*◌, ◌/◌, ◌%◌, ◌^◌, ◌<◌, bit_and, bit_or}
use satnogs_gr_oot.Base.{bit_and_mask, bit_and-zero, bit_or-zero, zero_or, ◌≡◌, refl, ap₂, ◌∙◌}
use satnogs_gr_oot.Base.{List, [], ◌∷◌, arith, IsBytes}
use satnogs_gr_oot.Utils.{swap_halves, swap_quarters, swap_bytes, reverse_uint64_bytes}
use satnogs_gr_oot.Utils.Words.{word, and_word, or_word}

masked : (x : ℕ) → x < 2 ^ 8 → (bit_and x 0xff ≡ x) × (bit_and x 0 ≡ 0)
masked x lt = omega (arith, bit_and_mask 8 x, bit_and-zero x)

joined : (x : ℕ) → (bit_or x 0 ≡ x) × (bit_or 0 x ≡ x)
joined x = (bit_or-zero x, zero_or x)

module _ (a b c d e f g h : ℕ) (pa : a < 2 ^ 8) (pb : b < 2 ^ 8) (pc : c < 2 ^ 8) (pd : d < 2 ^ 8)
    (pe : e < 2 ^ 8) (pf : f < 2 ^ 8) (pg : g < 2 ^ 8) (ph : h < 2 ^ 8) where
  abbrev eight : List ℕ
  eight = a ∷ b ∷ c ∷ d ∷ e ∷ f ∷ g ∷ h ∷ []

  eight-IsBytes : IsBytes eight
  eight-IsBytes = (pa, (pb, (pc, (pd, (pe, (pf, (pg, (ph, tt))))))))

  swap_halves-word : swap_halves (word eight) ≡ word (e ∷ f ∷ g ∷ h ∷ a ∷ b ∷ c ∷ d ∷ [])
  unfolding swap_halves
  swap_halves-word =
      let low =
        and_word eight (0xff ∷ 0xff ∷ 0xff ∷ 0xff ∷ 0 ∷ 0 ∷ 0 ∷ 0 ∷ []) refl eight-IsBytes
          (omega arith) in
      let high =
        and_word eight (0 ∷ 0 ∷ 0 ∷ 0 ∷ 0xff ∷ 0xff ∷ 0xff ∷ 0xff ∷ []) refl eight-IsBytes
          (omega arith) in
      let up : bit_and (word eight) 0xffffffff * 2 ^ 32 % 2 ^ 64
          ≡ word (0 ∷ 0 ∷ 0 ∷ 0 ∷ a ∷ b ∷ c ∷ d ∷ []) =
        omega (
          arith,
          low,
          masked a pa,
          masked b pb,
          masked c pc,
          masked d pd,
          masked e pe,
          masked f pf,
          masked g pg,
          masked h ph,
        ) in
      let down : bit_and (word eight) 0xffffffff00000000 / 2 ^ 32
          ≡ word (e ∷ f ∷ g ∷ h ∷ 0 ∷ 0 ∷ 0 ∷ 0 ∷ []) =
        omega (
          arith,
          high,
          masked a pa,
          masked b pb,
          masked c pc,
          masked d pd,
          masked e pe,
          masked f pf,
          masked g pg,
          masked h ph,
        ) in
      ap₂ bit_or up down
      ∙ or_word (0 ∷ 0 ∷ 0 ∷ 0 ∷ a ∷ b ∷ c ∷ d ∷ []) (e ∷ f ∷ g ∷ h ∷ 0 ∷ 0 ∷ 0 ∷ 0 ∷ []) refl
          (omega arith) (omega arith)
      ∙ omega
          (arith, joined a, joined b, joined c, joined d, joined e, joined f, joined g, joined h)

  swap_quarters-word : swap_quarters (word eight) ≡ word (c ∷ d ∷ a ∷ b ∷ g ∷ h ∷ e ∷ f ∷ [])
  unfolding swap_quarters
  swap_quarters-word =
      let low =
        and_word eight (0xff ∷ 0xff ∷ 0 ∷ 0 ∷ 0xff ∷ 0xff ∷ 0 ∷ 0 ∷ []) refl eight-IsBytes
          (omega arith) in
      let high =
        and_word eight (0 ∷ 0 ∷ 0xff ∷ 0xff ∷ 0 ∷ 0 ∷ 0xff ∷ 0xff ∷ []) refl eight-IsBytes
          (omega arith) in
      let up : bit_and (word eight) 0xffff0000ffff * 2 ^ 16 % 2 ^ 64
          ≡ word (0 ∷ 0 ∷ a ∷ b ∷ 0 ∷ 0 ∷ e ∷ f ∷ []) =
        omega (
          arith,
          low,
          masked a pa,
          masked b pb,
          masked c pc,
          masked d pd,
          masked e pe,
          masked f pf,
          masked g pg,
          masked h ph,
        ) in
      let down : bit_and (word eight) 0xffff0000ffff0000 / 2 ^ 16
          ≡ word (c ∷ d ∷ 0 ∷ 0 ∷ g ∷ h ∷ 0 ∷ 0 ∷ []) =
        omega (
          arith,
          high,
          masked a pa,
          masked b pb,
          masked c pc,
          masked d pd,
          masked e pe,
          masked f pf,
          masked g pg,
          masked h ph,
        ) in
      ap₂ bit_or up down
      ∙ or_word (0 ∷ 0 ∷ a ∷ b ∷ 0 ∷ 0 ∷ e ∷ f ∷ []) (c ∷ d ∷ 0 ∷ 0 ∷ g ∷ h ∷ 0 ∷ 0 ∷ []) refl
          (omega arith) (omega arith)
      ∙ omega
          (arith, joined a, joined b, joined c, joined d, joined e, joined f, joined g, joined h)

  swap_bytes-word : swap_bytes (word eight) ≡ word (b ∷ a ∷ d ∷ c ∷ f ∷ e ∷ h ∷ g ∷ [])
  unfolding swap_bytes
  swap_bytes-word =
      let low =
        and_word eight (0xff ∷ 0 ∷ 0xff ∷ 0 ∷ 0xff ∷ 0 ∷ 0xff ∷ 0 ∷ []) refl eight-IsBytes
          (omega arith) in
      let high =
        and_word eight (0 ∷ 0xff ∷ 0 ∷ 0xff ∷ 0 ∷ 0xff ∷ 0 ∷ 0xff ∷ []) refl eight-IsBytes
          (omega arith) in
      let up : bit_and (word eight) 0xff00ff00ff00ff * 2 ^ 8 % 2 ^ 64
          ≡ word (0 ∷ a ∷ 0 ∷ c ∷ 0 ∷ e ∷ 0 ∷ g ∷ []) =
        omega (
          arith,
          low,
          masked a pa,
          masked b pb,
          masked c pc,
          masked d pd,
          masked e pe,
          masked f pf,
          masked g pg,
          masked h ph,
        ) in
      let down : bit_and (word eight) 0xff00ff00ff00ff00 / 2 ^ 8
          ≡ word (b ∷ 0 ∷ d ∷ 0 ∷ f ∷ 0 ∷ h ∷ 0 ∷ []) =
        omega (
          arith,
          high,
          masked a pa,
          masked b pb,
          masked c pc,
          masked d pd,
          masked e pe,
          masked f pf,
          masked g pg,
          masked h ph,
        ) in
      ap₂ bit_or up down
      ∙ or_word (0 ∷ a ∷ 0 ∷ c ∷ 0 ∷ e ∷ 0 ∷ g ∷ []) (b ∷ 0 ∷ d ∷ 0 ∷ f ∷ 0 ∷ h ∷ 0 ∷ []) refl
          (omega arith) (omega arith)
      ∙ omega
          (arith, joined a, joined b, joined c, joined d, joined e, joined f, joined g, joined h)

-- `reverse_uint64_bytes` reverses the order of the eight bytes of a number.
pub reverse_uint64_bytes-reverse :
    (xs : List ℕ) → length xs ≡ 8 → IsBytes xs → reverse_uint64_bytes (word xs) ≡ word (reverse xs)
unfolding reverse_uint64_bytes
reverse_uint64_bytes-reverse (a ∷ b ∷ c ∷ d ∷ e ∷ f ∷ g ∷ h ∷ []) n
      (pa, (pb, (pc, (pd, (pe, (pf, (pg, (ph, _)))))))) =
    ap (λ t. swap_bytes (swap_quarters t))
      (swap_halves-word a b c d e f g h pa pb pc pd pe pf pg ph)
    ∙ ap swap_bytes (swap_quarters-word e f g h a b c d pe pf pg ph pa pb pc pd)
    ∙ swap_bytes-word g h e f c d a b pg ph pe pf pc pd pa pb
reverse_uint64_bytes-reverse [] n k = absurd (omega arith)
reverse_uint64_bytes-reverse (a ∷ []) n k = absurd (omega arith)
reverse_uint64_bytes-reverse (a ∷ b ∷ []) n k = absurd (omega arith)
reverse_uint64_bytes-reverse (a ∷ b ∷ c ∷ []) n k = absurd (omega arith)
reverse_uint64_bytes-reverse (a ∷ b ∷ c ∷ d ∷ []) n k = absurd (omega arith)
reverse_uint64_bytes-reverse (a ∷ b ∷ c ∷ d ∷ e ∷ []) n k = absurd (omega arith)
reverse_uint64_bytes-reverse (a ∷ b ∷ c ∷ d ∷ e ∷ f ∷ []) n k = absurd (omega arith)
reverse_uint64_bytes-reverse (a ∷ b ∷ c ∷ d ∷ e ∷ f ∷ g ∷ []) n k = absurd (omega arith)
reverse_uint64_bytes-reverse (a ∷ b ∷ c ∷ d ∷ e ∷ f ∷ g ∷ h ∷ x ∷ xs) n k = absurd (omega arith)
