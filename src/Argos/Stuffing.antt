-- ===== src/Argos/Stuffing.antt =====
-- What `argos_ldr_decoder` does with a stuffed zero. The bits go out most significant first, so the
-- newest bit is the lowest of the register, but the test for a stuffed bit looks at the highest six
-- of the last eight.
use satnogs_gr_oot.Base.{ℕ, bit_and}
use satnogs_gr_oot.Base.{Bool, true, false, ◌==◌, if◌then◌else◌}
use satnogs_gr_oot.Ax25.{sync_flag}

-- How the tests of `case DECODING` come out for a window.
abbrev is_kept : ℕ → Bool
is_kept x = if x == sync_flag then false else if bit_and x 0xfc == 0x7c then true else false

abbrev is_counted : ℕ → Bool
is_counted x =
    if x == sync_flag
    then false
    else if bit_and x 0xfc == 0x7c
    then false
    else if bit_and x 0xfe == 0xfe
    then false
    else true
