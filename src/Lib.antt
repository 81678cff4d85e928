-- ===== src/Lib.antt =====
-- The bit-level core of gr-satnogs: checksums, whitening, AX.25 encoding and decoding, the Morse
-- tree, the Golay code, the decoders of IEEE 802.15.4 variants, AX.100 mode 5, AMSAT DUV and ARGOS,
-- and the registers and queues that the decoders use.
--
-- How the parts work together. `ax25_encoder::encode` (lib/ax25_encoder.cc) takes the octets of a
-- message, puts the header of `insert_address`, `insert_ctrl` and `insert_pid` before them and the
-- checksum of `crc::crc16_ax25` (lib/crc.cc) behind them, stuffs the bits between flags, and gives
-- the bytes to the G3RUH scrambler of `whitening` (lib/whitening.cc) and to an NRZI stage.
-- `ax25_decoder` (lib/ax25_decoder.cc) takes one bit per byte, undoes NRZI and scrambling, keeps
-- the bits in a buffer and looks for frames in it as a machine of three states.
-- `ieee802_15_4_variant_decoder` looks for a preamble and a synchronisation word with two
-- `shift_reg` and reads what `ieee802_15_4_encoder` puts behind them: a length, the PDU and a
-- checksum, whitened. `ax100_mode5` does the same with a length in the code of `golay24` and,
-- perhaps, Reed-Solomon; `amsat_duv_decoder` looks for a control symbol and decodes words of ten
-- bits; `argos_ldr_decoder` is HDLC like AX.25 with the bits the other way round.
--
-- The files and what they model: Base       notation, lists and bits that the other parts share;
-- Bytes      the lines of several files that take a byte into bits and put it together; Crc
-- `class crc` (lib/crc.cc, include/satnogs/crc.h): the tables, each checksum as the loop of the
-- code, `crc_size` and `append`; Whitening  `class whitening` (lib/whitening.cc,
-- include/satnogs/whitening.h): the scrambling of bytes and of one bit per byte, in both bit
-- orders and both modes; Ax25       the constants of include/satnogs/ax25.h; Ax25/Encoder is
-- `class ax25_encoder`, Ax25/Decoder is `class ax25_decoder`, with its loops in Ax25/Decoder/Run,
-- and Ax25/Stuffing is the rule of HDLC framing that the encoder is held against, and
-- Ax25/RoundTrip follows a frame from the encoder through the decoder's loops; Morse      `class
-- morse_tree` (lib/morse_tree.cc): its tree and the reception of symbols; ShiftReg   `class
-- shift_reg` (lib/shift_reg.cc), the register that decoders look for sync words in; Utils
-- `class utils` (lib/utils.cc): bits counted and mirrored, the order of bytes; Golay24    `class
-- golay24` (lib/golay24.cc), which counts bits by Utils; Ieee802154 `class ieee802_15_4_encoder`
-- and `class ieee802_15_4_variant_decoder` (lib/ieee802_15_4_encoder.cc,
-- lib/ieee802_15_4_variant_decoder.cc), over Crc, Whitening and ShiftReg; Ieee802154/Decoder/Run
-- has the four states of the decoder, Ieee802154/Link gives what the encoder sends to the decoder;
-- Ax100      Ax100/Mode5 is `class ax100_mode5` (lib/ax100_mode5.cc), with its states and `decode`
-- in Ax100/Mode5/Run, over Golay24, Crc, Whitening and ShiftReg; AmsatDuv   `class
-- amsat_duv_decoder` (lib/amsat_duv_decoder.cc, include/satnogs/amsat_duv_decoder.h), with its
-- tables in AmsatDuv/Tables; Argos      `class argos_ldr_decoder` (lib/argos_ldr_decoder.cc), with
-- its loops in Argos/Run; ReedSolomon  the interface of `decode_rs_8` that AX.100 and AMSAT DUV
-- call; CrcAsync   `class crc_async_impl` (lib/crc_async_impl.cc), the block that puts a checksum
-- behind a message or takes it off; Deinterleaver  `class convolutional_deinterleaver`
-- (lib/convolutional_deinterleaver.cc). A function has the name of the method that it models; a
-- class is a record of its fields, and a method takes the record and returns the new one. A loop
-- of the code is a recursion on the list that it goes over, and the body of a loop that has a name
-- of its own is one round of it.
--
-- Numbers. A byte, a `uint16_t`, a `uint32_t` and a `size_t` are natural numbers; a shift to the
-- left is cut to the width by `%`. A difference of `size_t` is written with `-`, and the
-- invariants of the decoders have the bounds that keep each of them from wrapping, or, where the
-- code has no such bound, with `size_sub` of Ax100/Size, which wraps. An exception is `none`.
--
-- Writing or reading outside a buffer is undefined in the code; where the code can do it, the model
-- has an outcome of its own for it: `overrun` of `Encoded` in Ax25/Encoder, `fault` and `faulty` in
-- AmsatDuv and Ax100/Mode5, and a count behind the end of `d_pdu` in Ieee802154. In
-- CrcAsync a read outside of a PDU that is shorter than its checksum gives nothing, and the theorems
-- are on longer ones.
--
-- Where the code and its comments differ, the code is modelled. So `crc_check` of `ax25_decoder`
-- enforces the check of the checksum, and frames that fail it are reported, marked invalid, only
-- when it is false, while include/satnogs/ax25_decoder.h says that it bypasses the check and that
-- such frames are reported.
--
-- Fuel. The `while` loop of `_decode` of AX.25 runs on three rounds for each bit held and three
-- more: every turn that goes round again drops a bit, or moves on to a state of a smaller rank.
-- The one of ARGOS can read bits again after a frame that fails its check, each time with at least
-- one more bit counted in its buffer: `turns` of Argos/Run, eight for each byte of the limit and
-- twenty, for each bit held and once more. The one of AMSAT DUV runs on two: a turn that goes
-- round again goes to a search, which returns.
--
-- Parameters. GNU Radio's `digital::lfsr` is the record `Lfsr` of the module Whitening: its
-- methods return a bit, and `reset` restores the state of construction. The messages of GNU Radio
-- are the records `Pmt` and, with the laws of pairs and blobs, `Pdus`; `count_bits16` is an
-- argument, with the assumption that it counts bits where a theorem needs it. `decode_rs_8` of
-- libfec is the record `ReedSolomon`. The byte order of the host is an argument of `append`, and
-- the functions of the C library for it are the record `ByteOrder`.
--
-- Not modelled: mode 6 of AX.100, the decoder of LRPT, and the code of CW around the Morse tree;
-- the blocks around the encoders and decoders, which pass messages between GNU Radio, files and
-- sockets; the blocks that compute with floating-point samples; `mape` and `print_pdu` of `utils`;
-- logging, time stamps and the JSON form of the metadata; the copy of libfec in lib/libfec.
pub mod Base
pub mod Bytes
pub mod Crc
pub mod Whitening
pub mod Ax25
pub mod Morse
pub mod ShiftReg
pub mod Utils
pub mod Ieee802154
pub mod CrcAsync
pub mod Golay24
pub mod Deinterleaver
pub mod ReedSolomon
pub mod AmsatDuv
pub mod Argos
pub mod Ax100
