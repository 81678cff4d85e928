-- ===== src/Utils/Order.antt =====
-- `htonll` and `ntohll` (lib/utils.cc), over the functions of the host for 32 bits.
use satnogs_gr_oot.Base.{ℕ, ◌+◌, ◌*◌, ◌/◌, ◌%◌, ◌^◌, ◌<◌, bit_and, bit_or, bit_and_mask}
use satnogs_gr_oot.Base.{bit_or_fields, ◌≡◌, refl, ap, ap₂, ◌∙◌, inl, inr, arith, ◌==◌}
use satnogs_gr_oot.Base.{if◌then◌else◌, Bool-cases}

-- `htonl` and `ntohl` of the C library, which undo each other on numbers of 32 bits.
pub record ByteOrder : Type 0 where
  pub htonl : ℕ → ℕ
  pub ntohl : ℕ → ℕ
  pub htonl_range : (x : ℕ) → htonl x < 2 ^ 32
  pub ntohl_range : (x : ℕ) → ntohl x < 2 ^ 32
  pub ntohl_htonl : (x : ℕ) → x < 2 ^ 32 → ntohl (htonl x) ≡ x

module _ (order : ByteOrder) where
  open order use {htonl, ntohl, htonl_range, ntohl_range, ntohl_htonl}

  -- An argument of the functions for 32 bits is cut to them.
  unfoldable pub htonll : ℕ → ℕ
  htonll x =
      if 1 == htonl 1
      then x
      else bit_or (bit_and (htonl (x % 2 ^ 32)) 0xffffffff * 2 ^ 32 % 2 ^ 64) (htonl (x / 2 ^ 32))

  unfoldable pub ntohll : ℕ → ℕ
  ntohll x =
      if 1 == htonl 1
      then x
      else bit_or (bit_and (ntohl (x % 2 ^ 32)) 0xffffffff * 2 ^ 32 % 2 ^ 64) (ntohl (x / 2 ^ 32))

  -- Two halves of 32 bits put together.
  halves :
      (y z : ℕ)
      → y < 2 ^ 32
      → z < 2 ^ 32
      → bit_or (bit_and y 0xffffffff * 2 ^ 32 % 2 ^ 64) z ≡ y * 2 ^ 32 + z
  halves y z hy hz =
      ap (λ t. bit_or t z)
        (let e : bit_and y 0xffffffff * 2 ^ 32 % 2 ^ 64 ≡ y * 2 ^ 32 =
            omega (arith, bit_and_mask 32 y) in
          e)
      ∙ bit_or_fields 32 y z hz

  -- `ntohll` gives back what `htonll` was given.
  pub ntohll-htonll : (x : ℕ) → x < 2 ^ 64 → ntohll (htonll x) ≡ x
  unfolding ntohll htonll
  ntohll-htonll x lt =
      let low : ℕ = htonl (x % 2 ^ 32) in
      let high : ℕ = htonl (x / 2 ^ 32) in
      elim (Bool-cases (1 == htonl 1)) [
        | inl e ↦ rw e refl
        | inr e ↦
            let sent : bit_or (bit_and low 0xffffffff * 2 ^ 32 % 2 ^ 64) high
                ≡ low * 2 ^ 32 + high =
              halves low high (htonl_range _) (htonl_range _) in
            let bound = htonl_range (x / 2 ^ 32) in
            let back : (low * 2 ^ 32 + high) % 2 ^ 32 ≡ high = omega arith in
            let front : (low * 2 ^ 32 + high) / 2 ^ 32 ≡ low = omega arith in
            rw e (
              ap
                (λ t.
                  bit_or (bit_and (ntohl (t % 2 ^ 32)) 0xffffffff * 2 ^ 32 % 2 ^ 64)
                    (ntohl (t / 2 ^ 32)))
                sent
              ∙ halves (ntohl ((low * 2 ^ 32 + high) % 2 ^ 32))
                  (ntohl ((low * 2 ^ 32 + high) / 2 ^ 32)) (ntohl_range _) (ntohl_range _)
              ∙ ap₂ (λ (y z : ℕ). y * 2 ^ 32 + z)
                  (ap ntohl back ∙ ntohl_htonl (x / 2 ^ 32) (omega arith))
                  (ap ntohl front ∙ ntohl_htonl (x % 2 ^ 32) (omega arith))
              ∙ (let z : x / 2 ^ 32 * 2 ^ 32 + x % 2 ^ 32 ≡ x = omega arith in z))
      ]
