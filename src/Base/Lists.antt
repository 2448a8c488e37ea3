-- ===== src/Base/Lists.antt =====
-- Lists measured and indexed by native numbers, under the library's names.
use Prim.Native.Nat.{ℕ, zero, suc, ◌+◌, ◌-◌, ◌<◌, min}
use mathlib.Core.Path.{◌≡◌, refl, ap, ◌∙◌}
use mathlib.Core.List.{List, [], ◌∷◌, ◌++◌, map}
use mathlib.Core.Option.{Option, none, some}
use native.Mathlib.Omega.{arith}

module _ {ℓ} {A : Type ℓ} where
  abbrev pub length : List A → ℕ
  length [] = 0
  length (x ∷ xs) = suc (length xs)

  abbrev pub get_elem? : List A → ℕ → Option A
  get_elem? [] i = none
  get_elem? (x ∷ xs) zero = some x
  get_elem? (x ∷ xs) (suc i) = get_elem? xs i

  abbrev pub set : List A → ℕ → A → List A
  set [] i v = []
  set (x ∷ xs) zero v = v ∷ xs
  set (x ∷ xs) (suc i) v = x ∷ set xs i v

  abbrev pub take : ℕ → List A → List A
  take zero xs = []
  take (suc n) [] = []
  take (suc n) (x ∷ xs) = x ∷ take n xs

  abbrev pub drop : ℕ → List A → List A
  drop zero xs = xs
  drop (suc n) [] = []
  drop (suc n) (x ∷ xs) = drop n xs

  abbrev pub All {κ} : (A → Type κ) → List A → Type κ
  All P [] = Unit {κ}
  All P (x ∷ xs) = P x × All P xs

module _ {ℓ} {A : Type ℓ} where
  pub length-append : (xs ys : List A) → length (xs ++ ys) ≡ length xs + length ys
  length-append [] ys = omega arith
  length-append (x ∷ xs) ys = omega (arith, length-append xs ys)

  pub length-take : (n : ℕ) (xs : List A) → length (take n xs) ≡ min n (length xs)
  length-take zero xs = omega arith
  length-take (suc n) [] = omega arith
  length-take (suc n) (x ∷ xs) = omega (arith, length-take n xs)

  pub length-drop : (n : ℕ) (xs : List A) → length (drop n xs) ≡ length xs - n
  length-drop zero xs = omega arith
  length-drop (suc n) [] = omega arith
  length-drop (suc n) (x ∷ xs) = omega (arith, length-drop n xs)

  pub length-set : (xs : List A) (i : ℕ) (v : A) → length (set xs i v) ≡ length xs
  length-set [] i v = refl
  length-set (x ∷ xs) zero v = refl
  length-set (x ∷ xs) (suc i) v = ap suc (length-set xs i v)

  pub take-append : (xs ys : List A) → take (length xs) (xs ++ ys) ≡ xs
  take-append [] ys = refl
  take-append (x ∷ xs) ys = ap (λ t. x ∷ t) (take-append xs ys)

  pub drop-append : (xs ys : List A) → drop (length xs) (xs ++ ys) ≡ ys
  drop-append [] ys = refl
  drop-append (x ∷ xs) ys = drop-append xs ys

  pub drop-nil : (n : ℕ) → drop {A = A} n [] ≡ []
  drop-nil zero = refl
  drop-nil (suc n) = refl

  pub take-nil : (n : ℕ) → take {A = A} n [] ≡ []
  take-nil zero = refl
  take-nil (suc n) = refl

  -- Dropping past a start that was dropped already.
  pub drop-drop : (i n : ℕ) (xs : List A) → drop n (drop i xs) ≡ drop (i + n) xs
  drop-drop zero n xs = ap (λ k. drop k xs) (omega arith)
  drop-drop (suc i) zero [] = ground arith
  drop-drop (suc i) (suc n) [] = ground (arith, drop-nil (suc i + suc n))
  drop-drop (suc i) n (x ∷ xs) =
      let step : suc (i + n) ≡ suc i + n = omega arith in
      drop-drop i n xs ∙ ap (λ k. drop k (x ∷ xs)) step

  pub drop-take : (n k : ℕ) (xs : List A) → drop n (take k xs) ≡ take (k - n) (drop n xs)
  drop-take zero k xs = ground arith
  drop-take (suc n) zero xs = ground arith
  drop-take (suc n) (suc k) [] = ground (arith, take-nil (suc k - suc n))
  drop-take (suc n) (suc k) (x ∷ xs) = ground (arith, drop-take n k xs)

  pub get_elem?-drop : (i j : ℕ) (xs : List A) → get_elem? (drop i xs) j ≡ get_elem? xs (i + j)
  get_elem?-drop zero j xs = ap (get_elem? xs) (omega arith)
  get_elem?-drop (suc i) j [] = refl
  get_elem?-drop (suc i) j (x ∷ xs) = ground (arith, get_elem?-drop i j xs)

  pub get_elem?-take :
      (n j : ℕ) (xs : List A) → j < length (take n xs) → get_elem? (take n xs) j ≡ get_elem? xs j
  get_elem?-take zero j xs h = absurd (omega arith)
  get_elem?-take (suc n) j [] h = refl
  get_elem?-take (suc n) zero (x ∷ xs) h = refl
  get_elem?-take (suc n) (suc j) (x ∷ xs) h = get_elem?-take n j xs (omega arith)

  pub get_elem?-eq-some :
      (xs : List A) (i : ℕ) → i < length xs → (a : A) × (get_elem? xs i ≡ some a)
  get_elem?-eq-some [] i h = absurd (omega arith)
  get_elem?-eq-some (x ∷ xs) zero h = (x, refl)
  get_elem?-eq-some (x ∷ xs) (suc i) h = get_elem?-eq-some xs i (omega arith)

module _ {ℓ κ} {A : Type ℓ} {B : Type κ} where
  pub length-map : (xs : List A) (f : A → B) → length (map f xs) ≡ length xs
  length-map [] f = refl
  length-map (x ∷ xs) f = ap suc (length-map xs f)

pub take-length {ℓ} : {A : Type ℓ} (l : List A) → take (length l) l ≡ l
take-length [] = refl
take-length (x ∷ l) = ap (λ t. x ∷ t) (take-length l)
