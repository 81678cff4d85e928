-- ===== src/Whitening/Sample.antt =====
-- Two small registers that meet the assumptions of `Lfsr`, for runs of the code.
use satnogs_gr_oot.Base.{ℕ, ◌+◌, ◌*◌, ◌/◌, ◌%◌, refl, arith}
use satnogs_gr_oot.Whitening.{Lfsr}

-- The register beside its seed. A scrambled bit is the sum of the bit and the last one sent.
abbrev pub counter_lfsr : Lfsr
counter_lfsr = record {
  State = ℕ × ℕ;
  make = λ mask seed order. (seed, seed);
  next_bit = λ s. (s.0 % 2, (s.0 * 5 / 2 + 3, s.1));
  next_bit_scramble = λ s b. ((b + s.0) % 2, ((b + s.0) % 2, s.1));
  next_bit_descramble = λ s b. ((b + s.0) % 2, (b % 2, s.1));
  reset = λ s. (s.1, s.1);
  next_bit_range = λ s. omega arith;
  scramble_range = λ s b. omega arith;
  descramble_range = λ s b. omega arith;
  reset_make = λ mask seed order. refl;
  reset_next = λ s. refl;
  reset_scramble = λ s b. refl;
}

-- A register that passes the bits on.
abbrev pub through : Lfsr
through = record {
  State = Unit {0};
  make = λ mask seed order. tt;
  next_bit = λ s. (0, s);
  next_bit_scramble = λ s b. (b % 2, s);
  next_bit_descramble = λ s b. (b % 2, s);
  reset = λ s. s;
  next_bit_range = λ s. omega arith;
  scramble_range = λ s b. omega arith;
  descramble_range = λ s b. omega arith;
  reset_make = λ mask seed order. refl;
  reset_next = λ s. refl;
  reset_scramble = λ s b. refl;
}
