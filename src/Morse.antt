-- ===== src/Morse.antt =====
-- `class morse_tree` and `class tree_node` (lib/morse_tree.cc, include/satnogs/morse_tree.h) with
-- the symbols of include/satnogs/morse.h. A `tree_node *` is a tree, `null` the null pointer. The
-- pointer `d_current` is the path from the root to its node, since no two paths meet. The word
-- buffer is the list of its first `d_word_len` characters, each its ASCII code.
-- `d_unrecognized_symbol` is never read, so it is left out.
pub mod Codes
pub mod Bounds
mod Tests
use satnogs_gr_oot.Base.{ℕ, zero, suc, ◌+◌, ◌-◌, ◌*◌, ◌/◌, ◌%◌, ◌^◌, ◌≤◌, ◌<◌, min, max, bit_and}
use satnogs_gr_oot.Base.{bit_or, bit_xor, ◌≡◌, refl, sym, ap, ap₂, ◌∙◌, subst, ◌≢◌, ◌↔◌, ◌⊎◌, inl}
use satnogs_gr_oot.Base.{inr, Bool, true, false, ◌&&◌, ◌||◌, not, xor, Option, none, some, List, []}
use satnogs_gr_oot.Base.{◌∷◌, ◌++◌, map, reverse, append-nil, append_assoc, map-append, arith, ltb}
use satnogs_gr_oot.Base.{leb, ◌==◌, ==_iff, if◌then◌else◌, eq_refl, Bool-cases, Option-cases}
use satnogs_gr_oot.Base.{all_below, all_below_lem, All, IsBytes, All-append, length, get_elem?}
use satnogs_gr_oot.Base.{get_or, set, take, drop, replicate, length-append, length-replicate}
use satnogs_gr_oot.Base.{length-set, length-map, get_or-map}

-- `morse_symbol_t`
pub data MorseSymbol : Type 0 where
  morse_dot morse_dash morse_intra_space morse_s_space morse_l_space morse_end_msg_space :
      MorseSymbol

-- `tree_node`
pub data TreeNode : Type 0 where
  null : TreeNode
  tree_node : ℕ → TreeNode → TreeNode → TreeNode

abbrev pub get_left_child : TreeNode → TreeNode
get_left_child null = null
get_left_child (tree_node c l r) = l

abbrev pub get_right_child : TreeNode → TreeNode
get_right_child null = null
get_right_child (tree_node c l r) = r

abbrev pub get_char : TreeNode → ℕ
get_char null = 0
get_char (tree_node c l r) = c

abbrev pub is_node : TreeNode → Bool
is_node null = false
is_node (tree_node c l r) = true

-- A node of `construct_tree` without children.
abbrev leaf : ℕ → TreeNode
leaf c = tree_node c null null

-- The nodes of `construct_tree` below `e` and below `t`, and the root.
abbrev s_node : TreeNode
s_node =
    tree_node 0x53 (tree_node 0x48 (leaf 0x35) (leaf 0x34)) (tree_node 0x56 (leaf 0x53) (leaf 0x33))

abbrev u_node : TreeNode
u_node = tree_node 0x55 (tree_node 0x46 (leaf 0x45) null) (tree_node 0x55 (leaf 0x44) (leaf 0x32))

abbrev r_node : TreeNode
r_node = tree_node 0x52 (tree_node 0x4c null (leaf 0x45)) (tree_node 0x41 (leaf 0x2b) null)

abbrev w_node : TreeNode
w_node = tree_node 0x57 (tree_node 0x50 null (leaf 0x41)) (tree_node 0x4a (leaf 0x4a) (leaf 0x31))

abbrev d_node : TreeNode
d_node = tree_node 0x44 (tree_node 0x42 (leaf 0x36) (leaf 0x3d)) (tree_node 0x58 (leaf 0x2f) null)

abbrev k_node : TreeNode
k_node = tree_node 0x4b (tree_node 0x43 null (leaf 0)) (tree_node 0x59 null null)

abbrev g_node : TreeNode
g_node = tree_node 0x47 (tree_node 0x5a (leaf 0x37) (leaf 0)) (tree_node 0x51 null null)

abbrev o_node : TreeNode
o_node = tree_node 0x4f (tree_node 0x4f (leaf 0x38) null) (tree_node 0 (leaf 0x39) (leaf 0x30))

unfoldable pub construct_tree : TreeNode
construct_tree =
    tree_node 0 (tree_node 0x45 (tree_node 0x49 s_node u_node) (tree_node 0x41 r_node w_node))
      (tree_node 0x54 (tree_node 0x4e d_node k_node) (tree_node 0x4d g_node o_node))

-- One step down the tree: `false` is a dot and `true` a dash.
abbrev pub child : Bool → TreeNode → TreeNode
child false t = get_left_child t
child true t = get_right_child t

-- The node that a path leads to.
abbrev pub node_at : List Bool → TreeNode → TreeNode
node_at [] t = t
node_at (b ∷ path) t = node_at path (child b t)

pub record MorseTree : Type 0 where
  pub root : TreeNode
  pub current : List Bool
  pub buff_len : ℕ
  pub word_buffer : List ℕ

unfoldable pub new : ℕ → MorseTree
unfolding construct_tree
new max_len = record { root = construct_tree; current = []; buff_len = max_len; word_buffer = [] }

unfoldable pub reset : MorseTree → MorseTree
reset m = record m { current = []; word_buffer = [] }

abbrev pub get_word : MorseTree → List ℕ
get_word m = m.word_buffer

-- The case of a dot and that of a dash: on to the child, if there is one.
unfoldable pub step_down : Bool → MorseTree → MorseTree × Bool
step_down b m =
    if is_node (child b (node_at m.current m.root))
    then (record m { current = m.current ++ (b ∷ []) }, true)
    else (m, false)

-- The case of a short space, away from the root: the character of the node, unless it is 0.
unfoldable pub end_character : MorseTree → MorseTree × Bool
end_character m =
    let c = get_char (node_at m.current m.root) in
    if c == 0
    then (record m { current = [] }, false)
    else (record m { current = []; word_buffer = m.word_buffer ++ (c ∷ []) }, true)

abbrev pub at_root : List Bool → Bool
at_root [] = true
at_root (b ∷ path) = false

-- `received_symbol`, after the check for overflow.
unfoldable pub switch_symbol : MorseSymbol → MorseTree → MorseTree × Bool
unfolding step_down end_character
switch_symbol morse_dot m = step_down false m
switch_symbol morse_dash m = step_down true m
switch_symbol morse_s_space m = if at_root m.current then (m, true) else end_character m
switch_symbol morse_intra_space m = (m, false)
switch_symbol morse_l_space m = (m, false)
switch_symbol morse_end_msg_space m = (m, false)

-- The new state and the value returned.
unfoldable pub received_symbol : MorseSymbol → MorseTree → MorseTree × Bool
unfolding switch_symbol
received_symbol s m = if length m.word_buffer == m.buff_len then (m, false) else switch_symbol s m
