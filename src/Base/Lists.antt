-- ===== src/Base/Lists.antt =====
-- Lists measured and indexed by native numbers, under the library's names.
use Prim.Native.Nat.{◌≤◌, ℕ, zero, suc, ◌+◌, ◌-◌, ◌^◌, ◌<◌}
use mathlib.Core.Path.{◌≡◌, refl, ap, sym, ◌∙◌}
use mathlib.Core.Logic.{◌≢◌}
use mathlib.Core.List.{List, [], ◌∷◌, ◌++◌, map, append-nil, append_assoc}
use mathlib.Core.Option.{Option, none, some}
use native.Mathlib.Omega.{arith}

-- A predicate at each element; it computes to tuples.
abbrev pub All {ℓ κ} : {A : Type ℓ} → (A → Type κ) → List A → Type κ
All P [] = Unit
All P (x ∷ xs) = P x × All P xs

-- Every element fits a `uint8_t`.
abbrev pub IsBytes : List ℕ → Type 0
IsBytes = All (λ d. d < 2 ^ 8)

pub All-append {ℓ κ} :
    {A : Type ℓ} (P : A → Type κ) (xs ys : List A) → All P xs → All P ys → All P (xs ++ ys)
All-append P [] ys hx hy = hy
All-append P (x ∷ xs) ys hx hy = (hx.0, All-append P xs ys hx.1 hy)

module _ {ℓ} {A : Type ℓ} where
  abbrev pub length : List A → ℕ
  length [] = 0
  length (x ∷ xs) = suc (length xs)

  abbrev pub get_elem? : List A → ℕ → Option A
  get_elem? [] i = none
  get_elem? (x ∷ xs) zero = some x
  get_elem? (x ∷ xs) (suc i) = get_elem? xs i

  abbrev pub get_or : List A → ℕ → A → A
  get_or [] i d = d
  get_or (x ∷ xs) zero d = x
  get_or (x ∷ xs) (suc i) d = get_or xs i d

  -- A write out of bounds changes nothing.
  abbrev pub set : List A → ℕ → A → List A
  set [] i v = []
  set (x ∷ xs) zero v = v ∷ xs
  set (x ∷ xs) (suc i) v = x ∷ set xs i v

  abbrev pub take : ℕ → List A → List A
  take zero xs = []
  take (suc n) [] = []
  take (suc n) (x ∷ xs) = x ∷ take n xs

  abbrev pub drop : ℕ → List A → List A
  drop zero xs = xs
  drop (suc n) [] = []
  drop (suc n) (x ∷ xs) = drop n xs

  abbrev pub replicate : ℕ → A → List A
  replicate zero a = []
  replicate (suc n) a = a ∷ replicate n a

  pub length-append : (xs ys : List A) → length (xs ++ ys) ≡ length xs + length ys
  length-append [] ys = omega arith
  length-append (x ∷ xs) ys = omega (arith, length-append xs ys)

  pub length-replicate : (n : ℕ) (a : A) → length (replicate n a) ≡ n
  length-replicate zero a = refl
  length-replicate (suc n) a = ap suc (length-replicate n a)

  pub length-set : (xs : List A) (i : ℕ) (v : A) → length (set xs i v) ≡ length xs
  length-set [] i v = refl
  length-set (x ∷ xs) zero v = refl
  length-set (x ∷ xs) (suc i) v = ap suc (length-set xs i v)

  pub get_or-set_self :
      (xs : List A) (i : ℕ) (v d : A) → i < length xs → get_or (set xs i v) i d ≡ v
  get_or-set_self [] i v d h = absurd (omega arith)
  get_or-set_self (x ∷ xs) zero v d h = refl
  get_or-set_self (x ∷ xs) (suc i) v d h = get_or-set_self xs i v d (omega arith)

  pub get_or-set_ne :
      (xs : List A) (i j : ℕ) (v d : A) → i ≢ j → get_or (set xs i v) j d ≡ get_or xs j d
  get_or-set_ne [] i j v d h = refl
  get_or-set_ne (x ∷ xs) zero zero v d h = absurd (h refl)
  get_or-set_ne (x ∷ xs) zero (suc j) v d h = refl
  get_or-set_ne (x ∷ xs) (suc i) zero v d h = refl
  get_or-set_ne (x ∷ xs) (suc i) (suc j) v d h = get_or-set_ne xs i j v d (λ e. h (ap suc e))

  pub drop-append_length : (xs ys : List A) → drop (length xs) (xs ++ ys) ≡ ys
  drop-append_length [] ys = refl
  drop-append_length (x ∷ xs) ys = drop-append_length xs ys

  pub length-take : (n : ℕ) (xs : List A) → n ≤ length xs → length (take n xs) ≡ n
  length-take zero xs h = refl
  length-take (suc n) [] h = omega arith
  length-take (suc n) (x ∷ xs) h = let z = length-take n xs (omega arith) in omega arith

  pub take-append_length : (xs ys : List A) → take (length xs) (xs ++ ys) ≡ xs
  take-append_length [] ys = refl
  take-append_length (x ∷ xs) ys = ap (λ t. x ∷ t) (take-append_length xs ys)

  -- The bytes written from index `k` on.
  abbrev pub written : List A → ℕ → List A → List A
  written pdu k [] = pdu
  written pdu k (x ∷ xs) = written (set pdu k x) (k + 1) xs

  take-set-snoc :
      (pdu : List A) (k : ℕ) (x : A)
      → k < length pdu
      → take (k + 1) (set pdu k x) ≡ take k pdu ++ (x ∷ [])
  take-set-snoc [] k x h = absurd (omega arith)
  take-set-snoc (y ∷ pdu) zero x h = refl
  take-set-snoc (y ∷ pdu) (suc k) x h =
      ap (λ n. take n (y ∷ set pdu k x)) (let e : suc k + 1 ≡ suc (k + 1) = omega arith in e)
      ∙ ap (λ t. y ∷ t) (take-set-snoc pdu k x (omega arith))

  pub take-written :
      (pdu : List A) (k : ℕ) (xs : List A)
      → k + length xs ≤ length pdu
      → take (k + length xs) (written pdu k xs) ≡ take k pdu ++ xs
  take-written pdu k [] h =
      ap (λ n. take n pdu) (let e : k + 0 ≡ k = omega arith in e) ∙ sym (append-nil (take k pdu))
  take-written pdu k (x ∷ xs) h =
      let same = length-set pdu k x in
      ap (λ n. take n (written (set pdu k x) (k + 1) xs))
        (let e : k + suc (length xs) ≡ k + 1 + length xs = omega arith in e)
      ∙ take-written (set pdu k x) (k + 1) xs (omega arith)
      ∙ ap (λ t. t ++ xs) (take-set-snoc pdu k x (omega arith))
      ∙ append_assoc (take k pdu) (x ∷ []) xs

  pub length-written : (pdu : List A) (k : ℕ) (xs : List A) → length (written pdu k xs) ≡ length pdu
  length-written pdu k [] = refl
  length-written pdu k (x ∷ xs) = length-written (set pdu k x) (k + 1) xs ∙ length-set pdu k x

  pub length-drop : (n : ℕ) (xs : List A) → length (drop n xs) ≡ length xs - n
  length-drop zero xs = omega arith
  length-drop (suc n) [] = omega arith
  length-drop (suc n) (x ∷ xs) = omega (arith, length-drop n xs)

  pub take_all : (xs : List A) → take (length xs) xs ≡ xs
  take_all [] = refl
  take_all (x ∷ xs) = ap (λ t. x ∷ t) (take_all xs)

  -- A list written over in full.
  pub written_full : (pdu xs : List A) → length xs ≡ length pdu → written pdu 0 xs ≡ xs
  written_full pdu xs e =
      let size : length xs ≡ length (written pdu 0 xs) = e ∙ sym (length-written pdu 0 xs) in
      sym (take_all (written pdu 0 xs))
      ∙ (ap (λ n. take n (written pdu 0 xs))
            (let z : length (written pdu 0 xs) ≡ 0 + length xs = omega arith in z)
          ∙ take-written pdu 0 xs (omega arith))

module _ {ℓ κ} {A : Type ℓ} {B : Type κ} where
  pub length-map : (xs : List A) (f : A → B) → length (map f xs) ≡ length xs
  length-map [] f = refl
  length-map (x ∷ xs) f = ap suc (length-map xs f)

  pub get_or-map :
      (xs : List A) (f : A → B) (i : ℕ) (d : A) → get_or (map f xs) i (f d) ≡ f (get_or xs i d)
  get_or-map [] f i d = refl
  get_or-map (x ∷ xs) f zero d = refl
  get_or-map (x ∷ xs) f (suc i) d = get_or-map xs f i d
