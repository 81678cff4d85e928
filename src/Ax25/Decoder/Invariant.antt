-- ===== src/Ax25/Decoder/Invariant.antt =====
-- What holds of an `ax25_decoder` between two turns of its loop, and how each turn shrinks it.
use satnogs_gr_oot.Base.{length-set, bit_or, ◌/◌, ◌%◌, ◌^◌, ◌≢◌, ℕ, suc, ◌+◌, ◌*◌, ◌≤◌}
use satnogs_gr_oot.Base.{◌<◌, ◌≡◌, refl, ◌∙◌, ◌⊎◌, inl, inr, true, false, Option, none, some, List}
use satnogs_gr_oot.Base.{[], ◌∷◌, arith, ◌==◌, Bool-cases, length}
use satnogs_gr_oot.Ax25.{sync_flag, max_header_len}
use satnogs_gr_oot.Ax25.Decoder.{Config, DecodingState, no_sync, in_sync, decoding, Decoder}
use satnogs_gr_oot.Ax25.Decoder.{decode_1b}
use satnogs_gr_oot.Ax25.Decoder.Run.{decoding_bit, too_long, no_sync_loop, in_sync_bit}
use satnogs_gr_oot.Ax25.Decoder.Run.{in_sync_loop}

-- The buffer has its full size, the next byte has room in it, fewer than eight bits wait, and the
-- index of the next bit lies inside the bits held, where the differences of the code do not wrap.
pub record IsValid (c : Config) (d : Decoder) : Type 0 where
  pub size : length d.frame_buffer ≡ c.max_frame_len + max_header_len + 2
  pub received : d.received_bytes ≤ c.max_frame_len + 1
  pub waiting : d.decoded_bits ≤ 7
  pub sync_in : d.state ≡ in_sync → d.start_idx ≤ length d.bitstream
  pub sync_start : d.state ≡ in_sync → d.decoded_bits + 1 ≤ d.start_idx
  pub decoding_in : d.state ≡ decoding → d.start_idx ≤ length d.bitstream
  pub decoding_start : d.state ≡ decoding → 7 ≤ d.start_idx

abbrev pub rank : DecodingState → ℕ
rank no_sync = 1
rank in_sync = 0
rank decoding = 2

-- It falls with every turn that goes round again.
abbrev pub measure : Decoder → ℕ
measure d = 3 * length d.bitstream + rank d.state

-- What the search for a flag leaves alone.
pub record Searched (d t : Decoder) : Type 0 where
  pub state : t.state ≡ d.state
  pub received : t.received_bytes ≡ d.received_bytes
  pub waiting : t.decoded_bits ≡ d.decoded_bits
  pub buffer : t.frame_buffer ≡ d.frame_buffer
  pub bits : t.bitstream ≡ d.bitstream

abbrev pub FoundIn : ℕ → ℕ → Option ℕ → Type 0
FoundIn low high none = Unit
FoundIn low high (some j) = (low ≤ j) × (j < high)

Searched-decode_1b : (b : ℕ) (d : Decoder) → Searched d (decode_1b b d)
unfolding decode_1b
Searched-decode_1b b d = record {
  state = refl;
  received = refl;
  waiting = refl;
  buffer = refl;
  bits = refl;
}

Searched-trans : {d t u : Decoder} → Searched d t → Searched t u → Searched d u
Searched-trans p q = record {
  state = q.state ∙ p.state;
  received = q.received ∙ p.received;
  waiting = q.waiting ∙ p.waiting;
  buffer = q.buffer ∙ p.buffer;
  bits = q.bits ∙ p.bits;
}

FoundIn-suc :
    (i n : ℕ) (found : Option ℕ) → FoundIn (i + 1) (i + 1 + n) found → FoundIn i (i + suc n) found
FoundIn-suc i n none h = tt
FoundIn-suc i n (some j) h = omega arith

pub no_sync_loop-Searched :
    (bits : List ℕ) (i : ℕ) (d : Decoder)
    → let (t, found) = no_sync_loop bits i d in Searched d t × FoundIn i (i + length bits) found
unfolding no_sync_loop
no_sync_loop-Searched [] i d =
    (record { state = refl; received = refl; waiting = refl; buffer = refl; bits = refl }, tt)
no_sync_loop-Searched (b ∷ bits) i d =
    let step = Searched-decode_1b b d in
    elim (Bool-cases (sync_flag == (decode_1b b d).shift_reg)) [
      | inl e ↦ rw (e, no_sync_loop) (step, omega arith)
      | inr e ↦
          let (more, found) = no_sync_loop-Searched bits (i + 1) (decode_1b b d) in
          rw (e, no_sync_loop) (Searched-trans step more, FoundIn-suc i (length bits) _ found)
    ]

-- What the loop over flags leaves alone.
pub record Synced (d t : Decoder) : Type 0 where
  pub state : t.state ≡ d.state
  pub received : t.received_bytes ≡ d.received_bytes
  pub buffer : t.frame_buffer ≡ d.frame_buffer
  pub bits : t.bitstream ≡ d.bitstream

Synced-trans : {d t u : Decoder} → Synced d t → Synced t u → Synced d u
Synced-trans p q = record {
  state = q.state ∙ p.state;
  received = q.received ∙ p.received;
  buffer = q.buffer ∙ p.buffer;
  bits = q.bits ∙ p.bits;
}

in_sync_bit-Synced : (b : ℕ) (d : Decoder) → Synced d (in_sync_bit b d).0
unfolding in_sync_bit decode_1b
in_sync_bit-Synced b d = ground arith

-- A byte that is no flag ends after its eighth bit; else fewer than eight bits wait.
in_sync_bit-count :
    (b : ℕ) (d : Decoder)
    → d.decoded_bits ≤ 7
    → let (t, found) = in_sync_bit b d in
      ((found ≡ true) × (d.decoded_bits ≡ 7))
      ⊎ ((found ≡ false) × (t.decoded_bits ≤ 7) × (t.decoded_bits ≤ d.decoded_bits + 1))
unfolding in_sync_bit decode_1b
in_sync_bit-count b d h = ground arith

abbrev pub SyncEnd : ℕ → ℕ → ℕ → ℕ → Option ℕ → Type 0
SyncEnd waiting i n after none = (after ≤ 7) × (after ≤ waiting + n)
SyncEnd waiting i n after (some j) = (i + 7 ≤ j + waiting) × (j < i + n)

SyncEnd-suc :
    (w w' i n after : ℕ) (found : Option ℕ)
    → w' ≤ w + 1
    → SyncEnd w' (i + 1) n after found
    → SyncEnd w i (suc n) after found
SyncEnd-suc w w' i n after none h e = omega arith
SyncEnd-suc w w' i n after (some j) h e = omega arith

pub in_sync_loop-Synced :
    (bits : List ℕ) (i : ℕ) (d : Decoder)
    → d.decoded_bits ≤ 7
    → let (t, found) = in_sync_loop bits i d in
      Synced d t × SyncEnd d.decoded_bits i (length bits) t.decoded_bits found
unfolding in_sync_loop
in_sync_loop-Synced [] i d h =
    (record { state = refl; received = refl; buffer = refl; bits = refl }, omega arith)
in_sync_loop-Synced (b ∷ bits) i d h =
    let step = in_sync_bit-Synced b d in
    elim (in_sync_bit-count b d h) [
      | inl (e, w) ↦ rw (e, in_sync_loop) (step, omega arith)
      | inr (e, w, le) ↦
          let (more, found) = in_sync_loop-Synced bits (i + 1) (in_sync_bit b d).0 w in
          rw (e, in_sync_loop)
            (
              Synced-trans step more,
              SyncEnd-suc d.decoded_bits (in_sync_bit b d).0.decoded_bits i (length bits) _ _ le
                  found,
            )
    ]

-- What the loop over a frame keeps, as long as it goes on.
pub record Decoded (c : Config) (d t : Decoder) : Type 0 where
  pub state : t.state ≡ d.state
  pub size : length t.frame_buffer ≡ length d.frame_buffer
  pub bits : t.bitstream ≡ d.bitstream
  pub received : d.received_bytes ≤ c.max_frame_len + 1 → t.received_bytes ≤ c.max_frame_len + 2
  pub waiting : d.decoded_bits ≤ 7 → t.decoded_bits ≤ 7

pub decoding_bit-Decoded :
    (c : Config) (b : ℕ) (d : Decoder)
    → let (t, v) = decoding_bit c b d in
      Decoded c d t
      × (d.received_bytes ≤ c.max_frame_len + 1
          → v ≢ too_long
          → t.received_bytes ≤ c.max_frame_len + 1)
unfolding decoding_bit decode_1b
decoding_bit-Decoded c b d =
    ground
      (arith, length-set d.frame_buffer d.received_bytes (bit_or (d.dec_b / 2) (b * 2 ^ 7) % 2 ^ 8))
