-- ===== src/Ax25/RoundTrip/Ending.antt =====
-- `enter_frame_end` on a buffer that holds a whole frame with its checksum.
use satnogs_gr_oot.Base.{ℕ, zero, suc, ◌+◌, ◌-◌, ◌*◌, ◌/◌, ◌%◌, ◌^◌, ◌≤◌, bit_or, bit_or_fields}
use satnogs_gr_oot.Base.{◌≡◌, refl, ap, ap₂, ◌∙◌, true, false, some, List, [], ◌∷◌, ◌++◌, arith}
use satnogs_gr_oot.Base.{ltb, length, get_or, take, IsBytes}
use satnogs_gr_oot.Crc.Append.{x25-lt}
use satnogs_gr_oot.Ax25.{crc, min_addr_len}
use satnogs_gr_oot.Ax25.Encoder.{with_crc}
use satnogs_gr_oot.Ax25.Encoder.Bounds.{length-with_crc}
use satnogs_gr_oot.Ax25.Decoder.{Config, Decoder, Frame, is_frame_valid, enter_frame_end, frame_of}
use satnogs_gr_oot.Ax25.Decoder.{reset_state}

take-shorter :
    (n m : ℕ) (xs ys zs : List ℕ) → take n xs ≡ ys ++ zs → length ys ≡ m → m ≤ n → take m xs ≡ ys
take-shorter n zero xs [] zs e el le = refl
take-shorter n zero xs (y ∷ ys) zs e el le = absurd (omega arith)
take-shorter n (suc m) xs [] zs e el le = absurd (omega arith)
take-shorter zero (suc m) xs (y ∷ ys) zs e el le = absurd (omega arith)
take-shorter (suc n) (suc m) [] (y ∷ ys) zs e el le = cc
take-shorter (suc n) (suc m) (x ∷ xs) (y ∷ ys) zs e el le =
    let head : x ≡ y = cc in
    let tail : take n xs ≡ ys ++ zs = cc in
    ap₂ ◌∷◌ head (take-shorter n m xs ys zs tail (omega arith) (omega arith))

-- The two bytes behind the first `length ys`.
pair_behind :
    (n : ℕ) (xs ys : List ℕ) (a b : ℕ)
    → take n xs ≡ ys ++ (a ∷ b ∷ [])
    → (get_or xs (length ys) 0 ≡ a) × (get_or xs (length ys + 1) 0 ≡ b)
pair_behind zero xs [] a b e = cc
pair_behind zero xs (y ∷ ys) a b e = cc
pair_behind (suc n) [] [] a b e = cc
pair_behind (suc n) [] (y ∷ ys) a b e = cc
pair_behind (suc zero) (x ∷ xs) [] a b e = cc
pair_behind (suc (suc n)) (x ∷ []) [] a b e = cc
pair_behind (suc (suc n)) (x ∷ z ∷ xs) [] a b e =
    let first : x ≡ a = cc in let second : z ≡ b = cc in (first, second)
pair_behind (suc n) (x ∷ xs) (y ∷ ys) a b e =
    let tail : take n xs ≡ ys ++ (a ∷ b ∷ []) = cc in
    let i : suc (length ys) + 1 ≡ suc (length ys + 1) = omega arith in
    let (p, q) = pair_behind n xs ys a b tail in (p, ap (λ j. get_or (x ∷ xs) j 0) i ∙ q)

-- What the buffer says of the frame in it.
is_frame_valid-with_crc :
    (body buffer : List ℕ) (received : ℕ)
    → IsBytes body
    → received ≡ length body + 2
    → take received buffer ≡ with_crc body
    → (is_frame_valid received buffer ≡ true) × (take (received - 2) buffer ≡ body)
unfolding is_frame_valid with_crc
is_frame_valid-with_crc body buffer received h n stored =
    let lo : ℕ = crc body % 2 ^ 8 in
    let hi : ℕ = crc body / 2 ^ 8 % 2 ^ 8 in
    let front : take (received - 2) buffer ≡ body =
      take-shorter received (received - 2) buffer body (lo ∷ hi ∷ []) stored (omega arith)
        (omega arith) in
    let (p, q) = pair_behind received buffer body lo hi stored in
    let last : received - 1 ≡ length body + 1 = omega arith in
    let before : received - 2 ≡ length body = omega arith in
    let read : bit_or (get_or buffer (received - 1) 0 * 2 ^ 8) (get_or buffer (received - 2) 0)
        ≡ crc body =
      ap₂ (λ (x y : ℕ). bit_or (x * 2 ^ 8) y) (ap (λ i. get_or buffer i 0) last ∙ q)
        (ap (λ i. get_or buffer i 0) before ∙ p)
      ∙ bit_or_fields 8 hi lo (omega arith)
      ∙ (let e : hi * 2 ^ 8 + lo ≡ crc body = omega (arith, x25-lt body h) in e) in
    let fcs : crc (take (received - 2) buffer) ≡ crc body = ap crc front in
    (ground (arith, read, fcs), front)

pub enter_frame_end-with_crc :
    (c : Config) (d : Decoder) (body : List ℕ)
    → IsBytes body
    → min_addr_len ≤ length body
    → d.received_bytes ≡ length (with_crc body)
    → take (length (with_crc body)) d.frame_buffer ≡ with_crc body
    → (u : Decoder) × (f : Frame) × (enter_frame_end c d ≡ (u, some f))
      × (f.pdu ≡ body)
      × (f.crc_valid ≡ true)
unfolding enter_frame_end
enter_frame_end-with_crc c d body h long n stored =
    let same : d.received_bytes ≡ length body + 2 = n ∙ length-with_crc body in
    let (valid, front) =
      is_frame_valid-with_crc body d.frame_buffer d.received_bytes h same
        (ap (λ k. take k d.frame_buffer) n ∙ stored) in
    let enough : ltb d.received_bytes (min_addr_len + 2) ≡ false = ground arith in
    (
      reset_state d,
      frame_of d d.frame_buffer true,
      rw (enough, valid, enter_frame_end) refl,
      front,
      refl,
    )
