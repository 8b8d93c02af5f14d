-- ===== src/Prelude/Lists.antt =====
-- Lists measured and indexed by native numbers, under the library's names.
use Prim.Native.Nat.{ℕ, zero, suc, ◌+◌, ◌*◌, ◌≤◌, ◌<◌}
use mathlib.Core.List.{List, [], ◌∷◌, ◌++◌}
use mathlib.Core.Option.{Option, none, some}
use mathlib.Core.Path.{◌≡◌, refl, ap, ◌∙◌}
use native.Mathlib.Omega.{arith}

module _ {ℓ} {A : Type ℓ} where
  abbrev pub length : List A → ℕ
  length [] = 0
  length (_ ∷ xs) = suc (length xs)

  abbrev pub get_elem? : List A → ℕ → Option A
  get_elem? [] _ = none
  get_elem? (x ∷ _) zero = some x
  get_elem? (_ ∷ xs) (suc i) = get_elem? xs i

  -- a write out of bounds changes nothing
  abbrev pub set : List A → ℕ → A → List A
  set [] _ _ = []
  set (_ ∷ xs) zero v = v ∷ xs
  set (x ∷ xs) (suc i) v = x ∷ set xs i v

  abbrev pub take : ℕ → List A → List A
  take zero _ = []
  take (suc _) [] = []
  take (suc n) (x ∷ xs) = x ∷ take n xs

  abbrev pub drop : ℕ → List A → List A
  drop zero xs = xs
  drop (suc _) [] = []
  drop (suc n) (_ ∷ xs) = drop n xs

  abbrev pub tail : List A → List A
  tail [] = []
  tail (_ ∷ xs) = xs

module _ {ℓ} {A : Type ℓ} where
  pub length-append : (xs ys : List A) → length (xs ++ ys) ≡ length xs + length ys
  length-append [] ys = omega arith
  length-append (x ∷ xs) ys = omega (arith, length-append xs ys)

  pub length-set : (xs : List A) (i : ℕ) (v : A) → length (set xs i v) ≡ length xs
  length-set [] i v = refl
  length-set (x ∷ xs) zero v = refl
  length-set (x ∷ xs) (suc i) v = ap suc (length-set xs i v)

  -- an index below the length is found
  pub get_elem?-lt_length :
      (xs : List A) (i : ℕ) → i < length xs → (x : A) × (get_elem? xs i ≡ some x)
  get_elem?-lt_length [] i h = elim h [ ]
  get_elem?-lt_length (x ∷ xs) zero h = (x, refl)
  get_elem?-lt_length (x ∷ xs) (suc i) h = get_elem?-lt_length xs i (omega arith)

  pub drop-get_elem? :
      (xs : List A) (n : ℕ) {x : A} → get_elem? xs n ≡ some x → drop n xs ≡ x ∷ drop (suc n) xs
  drop-get_elem? [] n h = cc
  drop-get_elem? (y ∷ xs) zero h = cc
  drop-get_elem? (y ∷ xs) (suc n) h = drop-get_elem? xs n h

  pub drop-set : (xs : List A) (n : ℕ) (v : A) → drop (suc n) (set xs n v) ≡ drop (suc n) xs
  drop-set [] n v = refl
  drop-set (y ∷ xs) zero v = refl
  drop-set (y ∷ xs) (suc n) v = drop-set xs n v

  pub take-set :
      (xs : List A) (n : ℕ) (v : A)
      → n < length xs
      → take (suc n) (set xs n v) ≡ take n xs ++ v ∷ []
  take-set [] n v h = elim h [ ]
  take-set (y ∷ xs) zero v h = refl
  take-set (y ∷ xs) (suc n) v h = ap (◌∷◌ y) (take-set xs n v (omega arith))

  pub take_of_length-le : (n : ℕ) (xs : List A) → length xs ≤ n → take n xs ≡ xs
  take_of_length-le zero [] _ = refl
  take_of_length-le zero (x ∷ xs) short = absurd (omega (arith, short))
  take_of_length-le (suc n) [] _ = refl
  take_of_length-le (suc n) (x ∷ xs) short =
      let rest : take n xs ≡ xs = take_of_length-le n xs (omega (arith, short)) in rw rest refl

  pub drop_of_length-le : (n : ℕ) (xs : List A) → length xs ≤ n → drop n xs ≡ []
  drop_of_length-le zero [] h = refl
  drop_of_length-le zero (x ∷ xs) h = absurd (omega arith)
  drop_of_length-le (suc n) [] h = refl
  drop_of_length-le (suc n) (x ∷ xs) h = drop_of_length-le n xs (omega arith)

  pub length-drop-take : (n : ℕ) (xs : List A) → length (drop n xs ++ take n xs) ≡ length xs
  length-drop-take zero xs = length-append xs [] ∙ omega arith
  length-drop-take (suc n) [] = refl
  length-drop-take (suc n) (x ∷ xs) = omega (
    arith,
    length-append (drop n xs) (take n xs),
    length-append (drop n xs) (x ∷ take n xs),
    length-drop-take n xs,
  )

module _ {ℓ} {A : Type ℓ} where
  -- the sum of a number for each element
  abbrev pub sum_by : (A → ℕ) → List A → ℕ
  sum_by f [] = 0
  sum_by f (x ∷ xs) = f x + sum_by f xs

  pub sum_by-set :
      (f : A → ℕ) (xs : List A) (i : ℕ) (y : A) {x : A}
      → get_elem? xs i ≡ some x
      → sum_by f (set xs i y) + f x ≡ sum_by f xs + f y
  sum_by-set f [] i y h = cc
  sum_by-set f (z ∷ xs) zero y {x} h = let e : z ≡ x = cc in omega (arith, ap f e)
  sum_by-set f (z ∷ xs) (suc i) y h = omega (arith, sum_by-set f xs i y h)

  pub sum_by-le :
      (f : A → ℕ) (xs : List A) (i : ℕ) {x : A} → get_elem? xs i ≡ some x → f x ≤ sum_by f xs
  sum_by-le f [] i h = cc
  sum_by-le f (z ∷ xs) zero {x} h = let e : z ≡ x = cc in omega (arith, ap f e)
  sum_by-le f (z ∷ xs) (suc i) h = omega (arith, sum_by-le f xs i h)

  -- `n` copies
  abbrev pub replicate : ℕ → A → List A
  replicate zero _ = []
  replicate (suc n) x = x ∷ replicate n x

  pub length-replicate : (n : ℕ) (x : A) → length (replicate n x) ≡ n
  length-replicate zero x = refl
  length-replicate (suc n) x = ap suc (length-replicate n x)

  pub sum_by-replicate : (f : A → ℕ) (n : ℕ) (x : A) → sum_by f (replicate n x) ≡ n * f x
  sum_by-replicate f zero x = omega arith
  sum_by-replicate f (suc n) x = grind (arith, sum_by-replicate f n x)
