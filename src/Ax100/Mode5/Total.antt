-- ===== src/Ax100/Mode5/Total.antt =====
-- `decode` of `ax100_mode5` in every state, and what its constructor returns.
use satnogs_gr_oot.Base.{
  ℕ, ◌+◌, ◌*◌, ◌≤◌, ◌≡◌, refl, inl, inr, List, arith, ◌⊎◌, some, none, Option, subst, Bool, true,
  false,
}
use satnogs_gr_oot.Base.{if◌then◌else◌, length, length-take, ltb, take}
use satnogs_gr_oot.Crc.{CrcType}
use satnogs_gr_oot.Whitening.{Lfsr, Whitening}
use satnogs_gr_oot.ReedSolomon.{ReedSolomon}
use satnogs_gr_oot.Ieee802154.Decoder.{shift_regs}
use satnogs_gr_oot.Ax100.Mode5.{
  State, searching, searching_sync, decoding_frame_len, decoding_payload, Config, Decoder, Outcome,
  ok, throws, fault, new, config_of,
}
use satnogs_gr_oot.Ax100.Mode5.Run.{decode_in, decode, counted}
use satnogs_gr_oot.Ax100.Mode5.Delivery.{Known}
use satnogs_gr_oot.Ax100.Mode5.Safe.{
  IsValid, TooShort, search_preamble-IsValid, search_sync-IsValid,
}
use satnogs_gr_oot.Ax100.Mode5.Frames.{Goes, decode_frame_len-Goes, decode_payload-Goes}

module _ (lfsr : Lfsr) where
  -- What a call leaves that starts in state `s`: a valid decoder or, behind the length field only,
  -- one in a payload with a length that is too short.
  abbrev pub Left : State → Config → Decoder lfsr → Type 0
  Left s c u = IsValid lfsr c u ⊎ ((s ≡ decoding_frame_len) × TooShort lfsr c u)

  Goes-map :
      (Q R : Decoder lfsr → Type 0) (n : ℕ) (r : Outcome lfsr)
      → ((u : Decoder lfsr) → Q u → R u)
      → Goes lfsr Q n r
      → Goes lfsr R n r
  Goes-map Q R n (ok u s) f (q, l) = (f u q, l)
  Goes-map Q R n throws f g = g
  Goes-map Q R n fault f g = g

  counted-IsValid :
      (c : Config) (d : Decoder lfsr) (n : ℕ)
      → IsValid lfsr c d
      → IsValid lfsr c (record d { nitems_read = n })
  counted-IsValid c d n v = record {
    field = v.field;
    known = v.known;
    limit = v.limit;
    some_room = v.some_room;
    in_field = v.in_field;
    waiting = v.waiting;
    fits = v.fits;
    enough = v.enough;
  }

  counted_items :
      (rs : ReedSolomon) (s : State) (c : Config) (n : ℕ) (r : Outcome lfsr)
      → Goes lfsr (Left s c) n r
      → Goes lfsr (Left s c) n (counted lfsr rs r)
  counted_items rs s c n (ok u t) (inl v, l) = (inl (counted-IsValid c u _ v), l)
  counted_items rs s c n (ok u t) (inr short, l) = (inr short, l)
  counted_items rs s c n throws g = g
  counted_items rs s c n fault g = g

  module _ (rs : ReedSolomon) where
    decode_in-Goes :
        (s : State) (c : Config) (d : Decoder lfsr) (input : List ℕ)
        → IsValid lfsr c d
        → d.state ≡ s
        → Goes lfsr (Left s c) (length input) (decode_in lfsr rs s c d input)
    unfolding decode_in
    decode_in-Goes searching c d input v e =
        let (w, high) = search_preamble-IsValid lfsr c input d v e in (inl w, high)
    decode_in-Goes searching_sync c d input v e =
        let (w, high) = search_sync-IsValid lfsr c input 0 d v e in (inl w, omega arith)
    decode_in-Goes decoding_frame_len c d input v e =
        subst
          (λ (n : ℕ).
            Goes lfsr (Left decoding_frame_len c) n
              (decode_in lfsr rs decoding_frame_len c d input))
          (let z : 8 * 0 + length input ≡ length input = omega arith in z)
          (Goes-map _ _ _ _ (λ u q. elim q [ inl w ↦ inl w | inr short ↦ inr (refl, short) ])
            (decode_frame_len-Goes lfsr c input 0 d v e))
    decode_in-Goes decoding_payload c d input v e =
        subst
          (λ (n : ℕ).
            Goes lfsr (Left decoding_payload c) n (decode_in lfsr rs decoding_payload c d input))
          (let z : 8 * 0 + length input ≡ length input = omega arith in z)
          (Goes-map _ _ _ _ (λ u w. inl w) (decode_payload-Goes lfsr rs c input 0 d v e))

    -- A valid decoder throws nothing and stays inside `d_pdu` in every call, whatever the input is:
    -- it reads no item beyond the input, and leaves a valid decoder or, in a call that reads the
    -- length field, one in a payload whose length is 0 or less than the bytes of the checksum and,
    -- with Reed-Solomon, the 32 of the parity.
    pub decode-Left :
        (c : Config) (d : Decoder lfsr) (input : List ℕ)
        → IsValid lfsr c d
        → Goes lfsr (Left d.state c) (length input) (decode lfsr rs c d input)
    unfolding decode
    decode-Left c d input v =
        counted_items rs d.state c (length input) (decode_in lfsr rs d.state c d input)
          (decode_in-Goes d.state c d input v refl)

  abbrev Built : Option (Config × Decoder lfsr) → Type 0
  Built none = Unit
  Built (some (c, d)) = IsValid lfsr c d

  unless_any :
      (a b e : Bool) (r : Option (Config × Decoder lfsr))
      → Built r
      → Built (if a then none else if b then none else if e then none else r)
  unless_any true b e r h = tt
  unless_any false true e r h = tt
  unless_any false false true r h = tt
  unless_any false false false r h = h

  -- A decoder that the constructor returns is valid, if its memory was allocated in full and the
  -- checksum is one that `check_crc` knows.
  pub new-IsValid :
      (preamble : List ℕ) (preamble_threshold : ℕ) (sync : List ℕ) (sync_threshold : ℕ)
      (crc : CrcType) (descrambler : Option (Whitening lfsr)) (enable_rs : Bool) (memory : List ℕ)
      (c : Config) (d : Decoder lfsr)
      → new lfsr preamble preamble_threshold sync sync_threshold crc descrambler enable_rs memory
        ≡ some (c, d)
      → 1024 ≤ length memory
      → Known crc
      → IsValid lfsr c d
  unfolding new
  new-IsValid preamble preamble_threshold sync sync_threshold crc descrambler enable_rs memory c d e
        allocated known =
      let c0 = config_of preamble preamble_threshold sync sync_threshold crc enable_rs in
      let fresh : Decoder lfsr = record {
        preamble_shift_reg = shift_regs preamble;
        sync_shift_reg = shift_regs sync;
        descrambler = descrambler;
        state = searching;
        cnt = 0;
        len = 0;
        pdu = take 1024 memory;
        frame_start = 0;
        nitems_read = 0;
      } in
      let size = length-take 1024 memory allocated in
      subst Built e (
        unless_any (ltb c0.sync_len 8) (ltb c0.preamble_len (2 * c0.preamble_thrsh))
          (ltb c0.sync_len (2 * c0.sync_thrsh)) (some (c0, fresh))
          (record {
            field = refl;
            known = known;
            limit = ground (arith, size);
            some_room = omega (arith, size);
            in_field = λ h. cc;
            waiting = λ h. cc;
            fits = λ h. cc;
            enough = λ h. cc;
          }))
