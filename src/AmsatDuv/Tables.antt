-- ===== src/AmsatDuv/Tables.antt =====
-- `d_lookup_8b10b` of `amsat_duv_decoder` (include/satnogs/amsat_duv_decoder.h), entry by entry.
use satnogs_gr_oot.Base.{ℕ, List, [], ◌∷◌}

-- The words of running disparity -1.
unfoldable pub lookup_negative : List ℕ
lookup_negative =
    0x274 ∷ 0x1d4 ∷ 0x2d4 ∷ 0x71b ∷ 0x354 ∷ 0x69b ∷ 0x59b ∷ 0x78b ∷ 0x394 ∷ 0x65b ∷ 0x55b ∷ 0x74b
    ∷ 0x4db ∷ 0x6cb ∷ 0x5cb ∷ 0x174 ∷ 0x1b4 ∷ 0x63b ∷ 0x53b ∷ 0x72b ∷ 0x4bb ∷ 0x6ab ∷ 0x5ab ∷ 0x3a4
    ∷ 0x334 ∷ 0x66b ∷ 0x56b ∷ 0x364 ∷ 0x4eb ∷ 0x2e4 ∷ 0x1e4 ∷ 0x2b4 ∷ 0x679 ∷ 0x5d9 ∷ 0x6d9 ∷ 0x319
    ∷ 0x759 ∷ 0x299 ∷ 0x199 ∷ 0x389 ∷ 0x799 ∷ 0x259 ∷ 0x159 ∷ 0x349 ∷ 0x0d9 ∷ 0x2c9 ∷ 0x1c9 ∷ 0x579
    ∷ 0x5b9 ∷ 0x239 ∷ 0x139 ∷ 0x329 ∷ 0x0b9 ∷ 0x2a9 ∷ 0x1a9 ∷ 0x7a9 ∷ 0x739 ∷ 0x269 ∷ 0x169 ∷ 0x769
    ∷ 0x0e9 ∷ 0x6e9 ∷ 0x5e9 ∷ 0x6b9 ∷ 0x675 ∷ 0x5d5 ∷ 0x6d5 ∷ 0x315 ∷ 0x755 ∷ 0x295 ∷ 0x195 ∷ 0x385
    ∷ 0x795 ∷ 0x255 ∷ 0x155 ∷ 0x345 ∷ 0x0d5 ∷ 0x2c5 ∷ 0x1c5 ∷ 0x575 ∷ 0x5b5 ∷ 0x235 ∷ 0x135 ∷ 0x325
    ∷ 0x0b5 ∷ 0x2a5 ∷ 0x1a5 ∷ 0x7a5 ∷ 0x735 ∷ 0x265 ∷ 0x165 ∷ 0x765 ∷ 0x0e5 ∷ 0x6e5 ∷ 0x5e5 ∷ 0x6b5
    ∷ 0x673 ∷ 0x5d3 ∷ 0x6d3 ∷ 0x31c ∷ 0x753 ∷ 0x29c ∷ 0x19c ∷ 0x38c ∷ 0x793 ∷ 0x25c ∷ 0x15c ∷ 0x34c
    ∷ 0x0dc ∷ 0x2cc ∷ 0x1cc ∷ 0x573 ∷ 0x5b3 ∷ 0x23c ∷ 0x13c ∷ 0x32c ∷ 0x0bc ∷ 0x2ac ∷ 0x1ac ∷ 0x7a3
    ∷ 0x733 ∷ 0x26c ∷ 0x16c ∷ 0x763 ∷ 0x0ec ∷ 0x6e3 ∷ 0x5e3 ∷ 0x6b3 ∷ 0x272 ∷ 0x1d2 ∷ 0x2d2 ∷ 0x71d
    ∷ 0x352 ∷ 0x69d ∷ 0x59d ∷ 0x78d ∷ 0x392 ∷ 0x65d ∷ 0x55d ∷ 0x74d ∷ 0x4dd ∷ 0x6cd ∷ 0x5cd ∷ 0x172
    ∷ 0x1b2 ∷ 0x63d ∷ 0x53d ∷ 0x72d ∷ 0x4bd ∷ 0x6ad ∷ 0x5ad ∷ 0x3a2 ∷ 0x332 ∷ 0x66d ∷ 0x56d ∷ 0x362
    ∷ 0x4ed ∷ 0x2e2 ∷ 0x1e2 ∷ 0x2b2 ∷ 0x67a ∷ 0x5da ∷ 0x6da ∷ 0x31a ∷ 0x75a ∷ 0x29a ∷ 0x19a ∷ 0x38a
    ∷ 0x79a ∷ 0x25a ∷ 0x15a ∷ 0x34a ∷ 0x0da ∷ 0x2ca ∷ 0x1ca ∷ 0x57a ∷ 0x5ba ∷ 0x23a ∷ 0x13a ∷ 0x32a
    ∷ 0x0ba ∷ 0x2aa ∷ 0x1aa ∷ 0x7aa ∷ 0x73a ∷ 0x26a ∷ 0x16a ∷ 0x76a ∷ 0x0ea ∷ 0x6ea ∷ 0x5ea ∷ 0x6ba
    ∷ 0x676 ∷ 0x5d6 ∷ 0x6d6 ∷ 0x316 ∷ 0x756 ∷ 0x296 ∷ 0x196 ∷ 0x386 ∷ 0x796 ∷ 0x256 ∷ 0x156 ∷ 0x346
    ∷ 0x0d6 ∷ 0x2c6 ∷ 0x1c6 ∷ 0x576 ∷ 0x5b6 ∷ 0x236 ∷ 0x136 ∷ 0x326 ∷ 0x0b6 ∷ 0x2a6 ∷ 0x1a6 ∷ 0x7a6
    ∷ 0x736 ∷ 0x266 ∷ 0x166 ∷ 0x766 ∷ 0x0e6 ∷ 0x6e6 ∷ 0x5e6 ∷ 0x6b6 ∷ 0x271 ∷ 0x1d1 ∷ 0x2d1 ∷ 0x71e
    ∷ 0x351 ∷ 0x69e ∷ 0x59e ∷ 0x78e ∷ 0x391 ∷ 0x65e ∷ 0x55e ∷ 0x74e ∷ 0x4de ∷ 0x6ce ∷ 0x5ce ∷ 0x171
    ∷ 0x1b1 ∷ 0x637 ∷ 0x537 ∷ 0x72e ∷ 0x4b7 ∷ 0x6ae ∷ 0x5ae ∷ 0x3a1 ∷ 0x331 ∷ 0x66e ∷ 0x56e ∷ 0x361
    ∷ 0x4ee ∷ 0x2e1 ∷ 0x1e1 ∷ 0x2b1 ∷ []

-- The words of running disparity +1.
unfoldable pub lookup_positive : List ℕ
lookup_positive =
    0x58b ∷ 0x62b ∷ 0x52b ∷ 0x314 ∷ 0x4ab ∷ 0x294 ∷ 0x194 ∷ 0x074 ∷ 0x46b ∷ 0x254 ∷ 0x154 ∷ 0x344
    ∷ 0x0d4 ∷ 0x2c4 ∷ 0x1c4 ∷ 0x68b ∷ 0x64b ∷ 0x234 ∷ 0x134 ∷ 0x324 ∷ 0x0b4 ∷ 0x2a4 ∷ 0x1a4 ∷ 0x45b
    ∷ 0x4cb ∷ 0x264 ∷ 0x164 ∷ 0x49b ∷ 0x0e4 ∷ 0x51b ∷ 0x61b ∷ 0x54b ∷ 0x189 ∷ 0x229 ∷ 0x129 ∷ 0x719
    ∷ 0x0a9 ∷ 0x699 ∷ 0x599 ∷ 0x479 ∷ 0x069 ∷ 0x659 ∷ 0x559 ∷ 0x749 ∷ 0x4d9 ∷ 0x6c9 ∷ 0x5c9 ∷ 0x289
    ∷ 0x249 ∷ 0x639 ∷ 0x539 ∷ 0x729 ∷ 0x4b9 ∷ 0x6a9 ∷ 0x5a9 ∷ 0x059 ∷ 0x0c9 ∷ 0x669 ∷ 0x569 ∷ 0x099
    ∷ 0x4e9 ∷ 0x119 ∷ 0x219 ∷ 0x149 ∷ 0x185 ∷ 0x225 ∷ 0x125 ∷ 0x715 ∷ 0x0a5 ∷ 0x695 ∷ 0x595 ∷ 0x475
    ∷ 0x065 ∷ 0x655 ∷ 0x555 ∷ 0x745 ∷ 0x4d5 ∷ 0x6c5 ∷ 0x5c5 ∷ 0x285 ∷ 0x245 ∷ 0x635 ∷ 0x535 ∷ 0x725
    ∷ 0x4b5 ∷ 0x6a5 ∷ 0x5a5 ∷ 0x055 ∷ 0x0c5 ∷ 0x665 ∷ 0x565 ∷ 0x095 ∷ 0x4e5 ∷ 0x115 ∷ 0x215 ∷ 0x145
    ∷ 0x18c ∷ 0x22c ∷ 0x12c ∷ 0x713 ∷ 0x0ac ∷ 0x693 ∷ 0x593 ∷ 0x473 ∷ 0x06c ∷ 0x653 ∷ 0x553 ∷ 0x743
    ∷ 0x4d3 ∷ 0x6c3 ∷ 0x5c3 ∷ 0x28c ∷ 0x24c ∷ 0x633 ∷ 0x533 ∷ 0x723 ∷ 0x4b3 ∷ 0x6a3 ∷ 0x5a3 ∷ 0x05c
    ∷ 0x0cc ∷ 0x663 ∷ 0x563 ∷ 0x09c ∷ 0x4e3 ∷ 0x11c ∷ 0x21c ∷ 0x14c ∷ 0x58d ∷ 0x62d ∷ 0x52d ∷ 0x312
    ∷ 0x4ad ∷ 0x292 ∷ 0x192 ∷ 0x072 ∷ 0x46d ∷ 0x252 ∷ 0x152 ∷ 0x342 ∷ 0x0d2 ∷ 0x2c2 ∷ 0x1c2 ∷ 0x68d
    ∷ 0x64d ∷ 0x232 ∷ 0x132 ∷ 0x322 ∷ 0x0b2 ∷ 0x2a2 ∷ 0x1a2 ∷ 0x45d ∷ 0x4cd ∷ 0x262 ∷ 0x162 ∷ 0x49d
    ∷ 0x0e2 ∷ 0x51d ∷ 0x61d ∷ 0x54d ∷ 0x18a ∷ 0x22a ∷ 0x12a ∷ 0x71a ∷ 0x0aa ∷ 0x69a ∷ 0x59a ∷ 0x47a
    ∷ 0x06a ∷ 0x65a ∷ 0x55a ∷ 0x74a ∷ 0x4da ∷ 0x6ca ∷ 0x5ca ∷ 0x28a ∷ 0x24a ∷ 0x63a ∷ 0x53a ∷ 0x72a
    ∷ 0x4ba ∷ 0x6aa ∷ 0x5aa ∷ 0x05a ∷ 0x0ca ∷ 0x66a ∷ 0x56a ∷ 0x09a ∷ 0x4ea ∷ 0x11a ∷ 0x21a ∷ 0x14a
    ∷ 0x186 ∷ 0x226 ∷ 0x126 ∷ 0x716 ∷ 0x0a6 ∷ 0x696 ∷ 0x596 ∷ 0x476 ∷ 0x066 ∷ 0x656 ∷ 0x556 ∷ 0x746
    ∷ 0x4d6 ∷ 0x6c6 ∷ 0x5c6 ∷ 0x286 ∷ 0x246 ∷ 0x636 ∷ 0x536 ∷ 0x726 ∷ 0x4b6 ∷ 0x6a6 ∷ 0x5a6 ∷ 0x056
    ∷ 0x0c6 ∷ 0x666 ∷ 0x566 ∷ 0x096 ∷ 0x4e6 ∷ 0x116 ∷ 0x216 ∷ 0x146 ∷ 0x58e ∷ 0x62e ∷ 0x52e ∷ 0x311
    ∷ 0x4ae ∷ 0x291 ∷ 0x191 ∷ 0x071 ∷ 0x46e ∷ 0x251 ∷ 0x151 ∷ 0x348 ∷ 0x0d1 ∷ 0x2c8 ∷ 0x1c8 ∷ 0x68e
    ∷ 0x64e ∷ 0x231 ∷ 0x131 ∷ 0x321 ∷ 0x0b1 ∷ 0x2a1 ∷ 0x1a1 ∷ 0x45e ∷ 0x4ce ∷ 0x261 ∷ 0x161 ∷ 0x49e
    ∷ 0x0e1 ∷ 0x51e ∷ 0x61e ∷ 0x54e ∷ []
