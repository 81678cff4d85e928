-- ===== src/Ax100/Mode5/Tests.antt =====
-- Two calls of `ax100_mode5` at concrete inputs: a PDU of three bytes with CRC-32C, and the length 0.
use satnogs_gr_oot.Ax100.Mode5.Safe.{IsValid}
use satnogs_gr_oot.Ax100.Mode5.Frames.{Goes}
use satnogs_gr_oot.Ax100.Mode5.Total.{Left, decode-Left}
use satnogs_gr_oot.Base.{
  ◌++◌, ℕ, ◌≡◌, refl, true, false, none, some, List, [], ◌∷◌, inr, replicate, arith,
}
use satnogs_gr_oot.Crc.{
  crc32_c_t, crc32_c, append, little, reflected_step, reflected_loop, stored32, bytes32,
}
use satnogs_gr_oot.Crc.Tables.{c_table}
use satnogs_gr_oot.Whitening.Laws.{frame_bits}
use satnogs_gr_oot.Whitening.Sample.{counter_lfsr}
use satnogs_gr_oot.ReedSolomon.{ReedSolomon}
use satnogs_gr_oot.Ieee802154.Decoder.{shift_regs}
use satnogs_gr_oot.Ieee802154.Decoder.Run.{descrambled}
use satnogs_gr_oot.Ax100.Mode5.{
  decoding_frame_len, searching_sync, Config, Decoder, ok, fault, config_of,
}
use satnogs_gr_oot.Ax100.Mode5.Run.{decode}
use satnogs_gr_oot.Ax100.Mode5.Payload.{length_bytes}
use satnogs_gr_oot.Ax100.Mode5.Delivery.{synced}
use satnogs_gr_oot.Ax100.Mode5.Calls.{Delivers, decode_calls-delivered, zero_length_overrun}

-- A correction that finds nothing to correct.
abbrev nothing_wrong : ReedSolomon
nothing_wrong = record {
  decode_rs_8 = λ symbols erasures pad. (symbols, some 0);
  in_place = λ symbols erasures pad. refl;
}

abbrev receiver : Config
receiver = config_of (0xaa ∷ []) 0 (0xd3 ∷ 0x91 ∷ []) 1 crc32_c_t false

abbrev waiting : Decoder counter_lfsr
waiting = record {
  preamble_shift_reg = shift_regs (0xaa ∷ []);
  sync_shift_reg = shift_regs (0xd3 ∷ 0x91 ∷ []);
  descrambler = none;
  state = searching_sync;
  cnt = 5;
  len = 0;
  pdu = replicate 1024 0;
  frame_start = 8;
  nitems_read = 24;
}

-- The same with a small buffer, for frames that fit it.
abbrev small : Config
small = record receiver { max_frame_len = 4 }

abbrev small_waiting : Decoder counter_lfsr
small_waiting = record waiting { pdu = replicate 4 0 }

abbrev octets : List ℕ
octets = 0x31 ∷ 0x00 ∷ 0xff ∷ []

abbrev checksum : List ℕ
checksum = 249 ∷ 190 ∷ 228 ∷ 203 ∷ []

checksum_of_octets : append little crc32_c_t octets true ≡ some checksum
unfolding append stored32 bytes32 crc32_c reflected_loop reflected_step c_table
checksum_of_octets = refl

abbrev wire : List ℕ
wire = 49 ∷ 0 ∷ 255 ∷ 249 ∷ 190 ∷ 228 ∷ 203 ∷ []

decode_calls-delivered_example :
    (e : Decoder counter_lfsr) × (decode counter_lfsr nothing_wrong receiver
        (synced counter_lfsr waiting)
        (frame_bits true (length_bytes 7))
      ≡ ok e (record { consumed = 24; frame = none }))
    × Delivers counter_lfsr nothing_wrong octets 56
        (decode counter_lfsr nothing_wrong receiver e (frame_bits true wire))
unfolding descrambled
decode_calls-delivered_example =
    decode_calls-delivered counter_lfsr nothing_wrong little receiver waiting octets checksum wire 7
      none refl (omega arith) (omega arith) refl (inr refl) refl checksum_of_octets
      (omega arith, (omega arith, (omega arith, tt)))
      (
        omega arith,
        (
          omega arith,
          (omega arith, (omega arith, (omega arith, (omega arith, (omega arith, tt))))),
        ),
      )
      refl refl (omega arith) (omega arith) (omega arith)

zero_length_overrun_example :
    (e : Decoder counter_lfsr) × (decode counter_lfsr nothing_wrong small
        (synced counter_lfsr small_waiting)
        (frame_bits true (length_bytes 0))
      ≡ ok e (record { consumed = 24; frame = none }))
    × (decode counter_lfsr nothing_wrong small e (frame_bits true (1 ∷ 2 ∷ 3 ∷ 4 ∷ 5 ∷ [])) ≡ fault)
zero_length_overrun_example =
    zero_length_overrun counter_lfsr nothing_wrong small small_waiting (1 ∷ 2 ∷ 3 ∷ 4 ∷ 5 ∷ []) refl
      (omega arith) (omega arith)
      (omega arith, (omega arith, (omega arith, (omega arith, (omega arith, tt))))) (omega arith)

waiting-IsValid : IsValid counter_lfsr receiver (synced counter_lfsr waiting)
waiting-IsValid = record {
  field = refl;
  known = inr refl;
  limit = omega arith;
  some_room = omega arith;
  in_field = λ e. omega arith;
  waiting = λ e. cc;
  fits = λ e. cc;
  enough = λ e. cc;
}

-- The length field of a frame of seven bytes, and the first bits of the frame.
abbrev length_and_more : List ℕ
length_and_more = frame_bits true (length_bytes 7) ++ (1 ∷ 0 ∷ 1 ∷ [])

decode-Left_example :
    Goes counter_lfsr
      (Left counter_lfsr decoding_frame_len receiver)
      27
      (decode counter_lfsr nothing_wrong receiver (synced counter_lfsr waiting) length_and_more)
decode-Left_example =
    decode-Left counter_lfsr nothing_wrong receiver (synced counter_lfsr waiting) length_and_more
      waiting-IsValid
