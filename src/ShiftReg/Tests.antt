-- ===== src/ShiftReg/Tests.antt =====
-- A register of three stages.
use satnogs_gr_oot.Base.{◌≡◌, refl, true, false, [], ◌∷◌, ◌++◌, arith, drop}
use satnogs_gr_oot.ShiftReg.{ShiftReg}
use satnogs_gr_oot.ShiftReg.Laws.{shift_all, shift_all-bits}

abbrev three : ShiftReg
three = record { size = 3; bits = true ∷ false ∷ true ∷ [] }

abbrev ones : ShiftReg
ones = record { size = 3; bits = true ∷ true ∷ true ∷ [] }

shift_all-bits_example :
    (shift_all (false ∷ true ∷ []) three).bits ≡ drop 2 (three.bits ++ (false ∷ true ∷ []))
shift_all-bits_example = shift_all-bits (false ∷ true ∷ []) three refl (omega arith)
