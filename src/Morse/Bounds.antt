-- ===== src/Morse/Bounds.antt =====
-- `received_symbol` keeps the word of `morse_tree` inside its buffer and its pointer on a node.
use satnogs_gr_oot.Base.{inl, inr, Bool-cases, ◌==◌, ℕ, ◌∙◌, ◌≤◌, length-append, ◌+◌, ◌<◌, ◌≡◌, ap}
use satnogs_gr_oot.Base.{Bool, true, false, [], ◌∷◌, arith, length}
use satnogs_gr_oot.Morse.{morse_intra_space, morse_l_space, morse_end_msg_space, at_root}
use satnogs_gr_oot.Morse.{end_character, MorseSymbol, morse_dot, morse_dash, morse_s_space}
use satnogs_gr_oot.Morse.{get_char, is_node, child, node_at, MorseTree, step_down, switch_symbol}
use satnogs_gr_oot.Morse.{received_symbol}
use satnogs_gr_oot.Morse.Codes.{node_at-append}

-- The word fits its buffer and the pointer is not null.
pub record IsValid (m : MorseTree) : Type 0 where
  pub fits : length m.word_buffer ≤ m.buff_len
  pub points : is_node (node_at m.current m.root) ≡ true
  pub rooted : is_node m.root ≡ true

abbrev Kept : MorseTree → MorseTree → Type 0
Kept m n = IsValid n × (length n.word_buffer ≤ length m.word_buffer + 1)

step_down-Kept : (b : Bool) (m : MorseTree) → IsValid m → Kept m (step_down b m).0
unfolding step_down
step_down-Kept b m v = elim (Bool-cases (is_node (child b (node_at m.current m.root)))) [
  | inl e ↦
      rw (e, step_down)
        (
          record {
            fits = v.fits;
            points = ap is_node (node_at-append m.current (b ∷ []) m.root) ∙ e;
            rooted = v.rooted;
          },
          omega arith,
        )
  | inr e ↦ rw (e, step_down) (v, omega arith)
]

end_character-Kept :
    (m : MorseTree) → length m.word_buffer < m.buff_len → IsValid m → Kept m (end_character m).0
unfolding end_character
end_character-Kept m room v =
    let c : ℕ = get_char (node_at m.current m.root) in
    elim (Bool-cases (c == 0)) [
      | inl e ↦
          rw (e, end_character)
            (record { fits = v.fits; points = v.rooted; rooted = v.rooted }, omega arith)
      | inr e ↦
          let longer = length-append m.word_buffer (c ∷ []) in
          rw (e, end_character)
            (record { fits = omega arith; points = v.rooted; rooted = v.rooted }, omega arith)
    ]

switch_symbol-Kept :
    (s : MorseSymbol) (m : MorseTree)
    → length m.word_buffer < m.buff_len
    → IsValid m
    → Kept m (switch_symbol s m).0
unfolding switch_symbol
switch_symbol-Kept morse_dot m room v = step_down-Kept false m v
switch_symbol-Kept morse_dash m room v = step_down-Kept true m v
switch_symbol-Kept morse_s_space m room v = elim (Bool-cases (at_root m.current)) [
  | inl e ↦ rw (e, switch_symbol) (v, omega arith)
  | inr e ↦ rw (e, switch_symbol) (end_character-Kept m room v)
]
switch_symbol-Kept morse_intra_space m room v = (v, omega arith)
switch_symbol-Kept morse_l_space m room v = (v, omega arith)
switch_symbol-Kept morse_end_msg_space m room v = (v, omega arith)

-- Every symbol, known or not, leaves a valid tree valid, and the word one longer at most.
pub received_symbol-IsValid :
    (s : MorseSymbol) (m : MorseTree)
    → IsValid m
    → IsValid (received_symbol s m).0
      × (length (received_symbol s m).0.word_buffer ≤ length m.word_buffer + 1)
unfolding received_symbol
received_symbol-IsValid s m v = elim (Bool-cases (length m.word_buffer == m.buff_len)) [
  | inl e ↦ rw (e, received_symbol) (v, omega arith)
  | inr e ↦
      let fits : length m.word_buffer ≤ m.buff_len = v.fits in
      rw (e, received_symbol) (switch_symbol-Kept s m (ground arith) v)
]
