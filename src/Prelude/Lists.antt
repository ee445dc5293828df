-- ===== src/Prelude/Lists.antt =====
-- Lists measured by native numbers, predicates over their elements, and lookups by a test.
use Prim.Native.Nat.{ℕ, zero, suc, ◌+◌, ◌≤◌}
use mathlib.Core.Path.{◌≡◌, refl, ap}
use mathlib.Core.Bool.{Bool}
use mathlib.Core.Logic.{inl, inr}
use mathlib.Core.List.{List, [], ◌∷◌, ◌++◌}
use mathlib.Core.Option.{Option, none, some}
use native.Mathlib.Omega.{arith}
use crew_im.Prelude.Tests.{if◌then◌else◌, Bool-cases}

-- Every element has the property.
abbrev pub All {ℓ κ} : {A : Type ℓ} → (A → Type κ) → List A → Type κ
All P [] = Unit
All P (x ∷ xs) = P x × All P xs

module _ {ℓ} {A : Type ℓ} where
  abbrev pub length : List A → ℕ
  length [] = 0
  length (x ∷ xs) = suc (length xs)

  abbrev pub take : ℕ → List A → List A
  take zero xs = []
  take (suc n) [] = []
  take (suc n) (x ∷ xs) = x ∷ take n xs

  abbrev pub drop : ℕ → List A → List A
  drop zero xs = xs
  drop (suc n) [] = []
  drop (suc n) (x ∷ xs) = drop n xs

  -- `xs[len(xs)-1]`, if there is one.
  abbrev pub last? : List A → Option A
  last? [] = none
  last? (x ∷ []) = some x
  last? (x ∷ y ∷ xs) = last? (y ∷ xs)

  -- The elements that pass a test, in their order.
  abbrev pub keep : (A → Bool) → List A → List A
  keep p [] = []
  keep p (x ∷ xs) = let rest = keep p xs in if p x then x ∷ rest else rest

  abbrev pub get_elem? : List A → ℕ → Option A
  get_elem? [] n = none
  get_elem? (x ∷ xs) zero = some x
  get_elem? (x ∷ xs) (suc n) = get_elem? xs n

  abbrev pub set : List A → ℕ → A → List A
  set [] n a = []
  set (x ∷ xs) zero a = a ∷ xs
  set (x ∷ xs) (suc n) a = x ∷ set xs n a

  -- The sum of the elements' weights.
  abbrev pub total : (A → ℕ) → List A → ℕ
  total f [] = 0
  total f (x ∷ xs) = f x + total f xs

  pub length-set : (xs : List A) (n : ℕ) (a : A) → length (set xs n a) ≡ length xs
  length-set [] n a = refl
  length-set (x ∷ xs) zero a = refl
  length-set (x ∷ xs) (suc n) a = ap suc (length-set xs n a)

  pub total-set :
      (f : A → ℕ) (xs : List A) (n : ℕ) (old a : A)
      → get_elem? xs n ≡ some old
      → total f (set xs n a) + f old ≡ total f xs + f a
  total-set f [] n old a h = cc
  total-set f (x ∷ xs) zero old a h = ground (arith)
  total-set f (x ∷ xs) (suc n) old a h = omega (arith, total-set f xs n old a h)

  pub total-append : (f : A → ℕ) (xs ys : List A) → total f (xs ++ ys) ≡ total f xs + total f ys
  total-append f [] ys = omega arith
  total-append f (x ∷ xs) ys = omega (arith, total-append f xs ys)

  pub length-append : (xs ys : List A) → length (xs ++ ys) ≡ length xs + length ys
  length-append [] ys = omega arith
  length-append (x ∷ xs) ys = omega (arith, length-append xs ys)

  pub take-append : (xs ys : List A) → take (length xs) (xs ++ ys) ≡ xs
  take-append [] ys = refl
  take-append (x ∷ xs) ys = ap (◌∷◌ x) (take-append xs ys)

  pub drop-append : (xs ys : List A) → drop (length xs) (xs ++ ys) ≡ ys
  drop-append [] ys = refl
  drop-append (x ∷ xs) ys = drop-append xs ys

  pub last?-append : (xs : List A) (a : A) → last? (xs ++ a ∷ []) ≡ some a
  last?-append [] a = refl
  last?-append (x ∷ []) a = refl
  last?-append (x ∷ y ∷ xs) a = last?-append (y ∷ xs) a

  pub length-keep-le : (p : A → Bool) (xs : List A) → length (keep p xs) ≤ length xs
  length-keep-le p [] = omega arith
  length-keep-le p (x ∷ xs) = ground (arith, length-keep-le p xs)

module _ {ℓ κ} {A : Type ℓ} (P : A → Type κ) where
  pub All-append : (xs ys : List A) → All P xs → All P ys → All P (xs ++ ys)
  All-append [] ys h k = k
  All-append (x ∷ xs) ys h k = (h.0, All-append xs ys h.1 k)

  pub All-keep : (p : A → Bool) (xs : List A) → All P xs → All P (keep p xs)
  All-keep p [] h = h
  All-keep p (x ∷ xs) h = elim (Bool-cases (p x)) [
    | inl e ↦ rw e (h.0, All-keep p xs h.1)
    | inr e ↦ rw e (All-keep p xs h.1)
  ]

  pub All-map {μ} : {Q : A → Type μ} (xs : List A) → ((a : A) → P a → Q a) → All P xs → All Q xs
  All-map [] f h = tt
  All-map (x ∷ xs) f h = (f x h.0, All-map xs f h.1)

-- The list without the element at an index.
abbrev pub remove_at : {A : Type 0} → ℕ → List A → List A
remove_at n [] = []
remove_at zero (a ∷ as') = as'
remove_at (suc n) (a ∷ as') = a ∷ remove_at n as'

pub last?-nil : {A : Type 0} (xs : List A) → last? xs ≡ none → xs ≡ []
last?-nil [] e = refl
last?-nil (x ∷ []) e = cc
last?-nil (x ∷ y ∷ ys) e = cc (last?-nil (y ∷ ys) e)
