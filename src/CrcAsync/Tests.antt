-- ===== src/CrcAsync/Tests.antt =====
-- Messages as trees of octets, and the theorems at one of them.
use satnogs_gr_oot.Base.{ℕ, ◌≡◌, refl, Bool, true, false, some, List, [], ◌∷◌, ◌++◌, arith}
use satnogs_gr_oot.Crc.{crc16_ccitt_reversed_t, crc32_c_t, little}
use satnogs_gr_oot.CrcAsync.{Pdus, published, dropped, append, check, parts}
use satnogs_gr_oot.CrcAsync.Laws.{check-append, check_byte_error}
use satnogs_gr_oot.Crc

data Tree : Type 0 where
  nothing : Tree
  octets : List ℕ → Tree
  pair : Tree → Tree → Tree

abbrev is_octets : Tree → Bool
is_octets nothing = false
is_octets (octets xs) = true
is_octets (pair a b) = false

abbrev has_parts : Tree → Bool
has_parts nothing = false
has_parts (octets xs) = false
has_parts (pair a b) = true

abbrev left : Tree → Tree
left nothing = nothing
left (octets xs) = nothing
left (pair a b) = a

abbrev right : Tree → Tree
right nothing = nothing
right (octets xs) = nothing
right (pair a b) = b

abbrev octets_of : Tree → List ℕ
octets_of nothing = []
octets_of (octets xs) = xs
octets_of (pair a b) = []

abbrev trees : Pdus
trees = record {
  Message = Tree;
  nil = nothing;
  is_blob = is_octets;
  is_pair = has_parts;
  car = left;
  cdr = right;
  cons = pair;
  make_blob = octets;
  uniform_vector_elements = octets_of;
  is_blob_cons = λ a b. refl;
  is_pair_cons = λ a b. refl;
  car_cons = λ a b. refl;
  cdr_cons = λ a b. refl;
  elements_blob = λ xs. refl;
}

abbrev text : Tree
text = pair (octets (0x01 ∷ [])) (octets (0x31 ∷ 0xff ∷ 0x00 ∷ []))

check-append_example :
    (sent : Tree) × (append trees little crc32_c_t text ≡ published sent)
    × (check trees crc32_c_t sent
        ≡ published (pair (octets (0x01 ∷ [])) (octets (0x31 ∷ 0xff ∷ 0x00 ∷ []))))
unfolding parts
check-append_example =
    check-append trees little crc32_c_t text (octets (0x01 ∷ [])) (octets (0x31 ∷ 0xff ∷ 0x00 ∷ []))
      refl (omega arith) (λ e. cc) (λ e. cc) (λ e. cc)

check_byte_error_example :
    (fcs : List ℕ) × (Crc.append little crc16_ccitt_reversed_t (0x31 ∷ 0xff ∷ 0x00 ∷ []) true
      ≡ some fcs)
    × (check trees crc16_ccitt_reversed_t (pair nothing (octets ((0x31 ∷ 0xfe ∷ 0x00 ∷ []) ++ fcs)))
        ≡ dropped)
check_byte_error_example =
    check_byte_error trees little nothing (0x31 ∷ []) (0x00 ∷ []) 0xff 0xfe (omega arith)
      (omega arith) (omega arith) (omega arith) (omega arith)
