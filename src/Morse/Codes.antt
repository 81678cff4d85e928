-- ===== src/Morse/Codes.antt =====
-- What `morse_tree` decodes: the codes of the characters in its tree.
use satnogs_gr_oot.Base.{ℕ, sym, ◌∙◌, ◌≤◌, All, map, append-nil, append_assoc, length-append, ◌+◌}
use satnogs_gr_oot.Base.{◌<◌, ◌≡◌, refl, ap, ◌≢◌, Bool, true, false, List, [], ◌∷◌, ◌++◌, arith}
use satnogs_gr_oot.Base.{length}
use satnogs_gr_oot.Morse.{at_root, end_character, get_word, construct_tree, MorseSymbol, morse_dot}
use satnogs_gr_oot.Morse.{morse_dash, morse_s_space, TreeNode, null, tree_node, get_char, is_node}
use satnogs_gr_oot.Morse.{child, node_at, MorseTree, step_down, switch_symbol, received_symbol}

-- The symbol of one step of a path.
abbrev symbol : Bool → MorseSymbol
symbol false = morse_dot
symbol true = morse_dash

-- The symbols received one after another.
unfoldable pub receive_all : List MorseSymbol → MorseTree → MorseTree
receive_all [] m = m
receive_all (s ∷ symbols) m = receive_all symbols (received_symbol s m).0

-- The dots and dashes of one character, then a short space.
abbrev pub keyed : List Bool → List MorseSymbol
keyed [] = morse_s_space ∷ []
keyed (b ∷ path) = symbol b ∷ keyed path

-- Every node on a path.
abbrev Nodes : List Bool → TreeNode → Type 0
Nodes [] t = is_node t ≡ true
Nodes (b ∷ path) t = (is_node t ≡ true) × Nodes path (child b t)

pub node_at-append :
    (before path : List Bool) (t : TreeNode)
    → node_at (before ++ path) t ≡ node_at path (node_at before t)
node_at-append [] path t = refl
node_at-append (b ∷ before) path t = node_at-append before path (child b t)

-- A path that ends in a character passes through nodes only.
node_at-null : (path : List Bool) → node_at path null ≡ null
node_at-null [] = refl
node_at-null (false ∷ path) = node_at-null path
node_at-null (true ∷ path) = node_at-null path

child_of_char :
    (b : Bool) (path : List Bool) (t : TreeNode)
    → get_char (node_at (b ∷ path) t) ≢ 0
    → is_node (child b t) ≡ true
child_of_char b path t h = go (child b t) h
  where
    go : (u : TreeNode) → get_char (node_at path u) ≢ 0 → is_node u ≡ true
    go null h = absurd (h (ap get_char (node_at-null path)))
    go (tree_node c l r) h = refl

received_step :
    (b : Bool) (m : MorseTree)
    → length m.word_buffer < m.buff_len
    → is_node (child b (node_at m.current m.root)) ≡ true
    → received_symbol (symbol b) m ≡ (record m { current = m.current ++ (b ∷ []) }, true)
unfolding received_symbol switch_symbol step_down
received_step false m room h = ground arith
received_step true m room h = ground arith

at_root-append : (path : List Bool) (b : Bool) → at_root (path ++ (b ∷ [])) ≡ false
at_root-append [] b = refl
at_root-append (c ∷ path) b = refl

-- The state after a character `c`.
abbrev pub with_char : ℕ → MorseTree → MorseTree
with_char c m = record m { current = []; word_buffer = m.word_buffer ++ (c ∷ []) }

received_space :
    (m : MorseTree)
    → length m.word_buffer < m.buff_len
    → at_root m.current ≡ false
    → get_char (node_at m.current m.root) ≢ 0
    → (received_symbol morse_s_space m).0 ≡ with_char (get_char (node_at m.current m.root)) m
unfolding received_symbol switch_symbol end_character
received_space m room below h = ground arith

-- The last dots and dashes of a character that has begun.
received_rest :
    (path : List Bool) (m : MorseTree)
    → length m.word_buffer < m.buff_len
    → at_root m.current ≡ false
    → get_char (node_at path (node_at m.current m.root)) ≢ 0
    → receive_all (keyed path) m ≡ with_char (get_char (node_at path (node_at m.current m.root))) m
unfolding receive_all
received_rest [] m room below h = received_space m room below h
received_rest (b ∷ path) m room below h =
    let next : MorseTree = record m { current = m.current ++ (b ∷ []) } in
    let same : node_at next.current m.root ≡ child b (node_at m.current m.root) =
      node_at-append m.current (b ∷ []) m.root in
    let step = received_step b m room (child_of_char b path (node_at m.current m.root) h) in
    ap (λ (r : MorseTree × Bool). receive_all (keyed path) r.0) step
    ∙ received_rest path next room (at_root-append m.current b)
        (λ e. h (ap (λ t. get_char (node_at path t)) (sym same) ∙ e))
    ∙ ap (λ t. with_char (get_char (node_at path t)) m) same

-- From the root, the dots and dashes of a character and a short space add that character to the
-- word, as long as there is room for it, and lead back to the root.
pub received_code :
    (b : Bool) (path : List Bool) (m : MorseTree)
    → m.current ≡ []
    → length m.word_buffer < m.buff_len
    → get_char (node_at (b ∷ path) m.root) ≢ 0
    → receive_all (keyed (b ∷ path)) m ≡ with_char (get_char (node_at (b ∷ path) m.root)) m
unfolding receive_all
received_code b path m start room h =
    let next : MorseTree = record m { current = m.current ++ (b ∷ []) } in
    let same : node_at next.current m.root ≡ child b m.root =
      node_at-append m.current (b ∷ []) m.root ∙ ap (λ p. child b (node_at p m.root)) start in
    let top : child b (node_at m.current m.root) ≡ child b m.root =
      ap (λ p. child b (node_at p m.root)) start in
    let step = received_step b m room (ap is_node top ∙ child_of_char b path m.root h) in
    ap (λ (r : MorseTree × Bool). receive_all (keyed path) r.0) step
    ∙ received_rest path next room (at_root-append m.current b)
        (λ e. h (ap (λ t. get_char (node_at path t)) (sym same) ∙ e))
    ∙ ap (λ t. with_char (get_char (node_at path t)) m) same

-- A text as the codes of its characters, each with at least one dot or dash.
abbrev pub Code : Type 0
Code = Bool × List Bool

abbrev pub char_of : Code → ℕ
char_of (b, path) = get_char (node_at (b ∷ path) construct_tree)

abbrev pub keyed_text : List Code → List MorseSymbol
keyed_text [] = []
keyed_text ((b, path) ∷ codes) = keyed (b ∷ path) ++ keyed_text codes

receive_all-append :
    (first rest : List MorseSymbol) (m : MorseTree)
    → receive_all (first ++ rest) m ≡ receive_all rest (receive_all first m)
unfolding receive_all
receive_all-append [] rest m = refl
receive_all-append (s ∷ first) rest m = receive_all-append first rest (received_symbol s m).0

-- Every text whose codes lead to characters is decoded, as long as the buffer holds it.
pub received_text :
    (codes : List Code) (m : MorseTree)
    → m.root ≡ construct_tree
    → m.current ≡ []
    → length m.word_buffer + length codes ≤ m.buff_len
    → All (λ code. char_of code ≢ 0) codes
    → get_word (receive_all (keyed_text codes) m) ≡ m.word_buffer ++ map char_of codes
unfolding receive_all
received_text [] m tree start room h = sym (append-nil m.word_buffer)
received_text ((b, path) ∷ codes) m tree start room (p, h) =
    let chars : (t : TreeNode) → ℕ = λ t. get_char (node_at (b ∷ path) t) in
    let real : chars m.root ≢ 0 = λ e. p (ap chars (sym tree) ∙ e) in
    let after : MorseTree = with_char (chars m.root) m in
    ap get_word (receive_all-append (keyed (b ∷ path)) (keyed_text codes) m)
    ∙ ap (λ t. get_word (receive_all (keyed_text codes) t))
        (received_code b path m start (omega arith) real)
    ∙ received_text codes after tree refl
        (omega (arith, length-append m.word_buffer (chars m.root ∷ []))) h
    ∙ append_assoc m.word_buffer (chars m.root ∷ []) (map char_of codes)
    ∙ ap (λ c. m.word_buffer ++ (c ∷ map char_of codes)) (ap chars tree)
