-- ===== src/Morse/Tests.antt =====
-- Texts keyed into a fresh tree.
use satnogs_gr_oot.Base.{◌≡◌, ◌≢◌, ◌≤◌, ◌+◌, refl, true, false, List, [], ◌∷◌, ◌++◌, map, arith}
use satnogs_gr_oot.Base.{length, All}
use satnogs_gr_oot.Morse.{morse_dot, new, construct_tree, received_symbol, get_word}
use satnogs_gr_oot.Morse.Codes.{Code, char_of, keyed_text, receive_all, received_text}
use satnogs_gr_oot.Morse.Bounds.{IsValid, received_symbol-IsValid}

-- C, Q and 1.
abbrev c_code : Code
c_code = (true, false ∷ true ∷ false ∷ [])

abbrev q_code : Code
q_code = (true, true ∷ false ∷ true ∷ [])

abbrev one_code : Code
one_code = (false, true ∷ true ∷ true ∷ true ∷ [])

abbrev call : List Code
call = c_code ∷ q_code ∷ one_code ∷ []

call_chars : map char_of call ≡ 0x43 ∷ 0x51 ∷ 0x31 ∷ []
unfolding construct_tree
call_chars = refl

fresh : (new 8).current ≡ []
unfolding new
fresh = refl

call_real : All (λ code. char_of code ≢ 0) call
unfolding construct_tree
call_real = omega arith

received_text_example :
    get_word (receive_all (keyed_text call) (new 8)) ≡ (new 8).word_buffer ++ map char_of call
unfolding new
received_text_example = received_text call (new 8) refl refl (omega arith) call_real

received_symbol-IsValid_example :
    IsValid (received_symbol morse_dot (new 8)).0
    × (length (received_symbol morse_dot (new 8)).0.word_buffer ≤ length (new 8).word_buffer + 1)
unfolding new construct_tree
received_symbol-IsValid_example =
    received_symbol-IsValid morse_dot (new 8)
      (record { fits = omega arith; points = refl; rooted = refl })
