-- ===== src/Tasks/Listing/Order.antt =====
-- That the order of the tasks is one where no two are of one time: `ORDER BY` of tasks.go.
use crew_im.Prelude.{
  ℕ, ◌≡◌, ◌≢◌, refl, inl, inr, List, [], ◌∷◌, arith, All, Bool-cases, ltb, ◌∙◌, ap, sym,
}
use crew_im.Understanding.Context.{insert_latest, latest_first}

module _ {A : Type 0} (age : A → ℕ) where
  -- No two have one age.
  abbrev pub Apart : List A → Type 0
  Apart [] = Unit {0}
  Apart (x ∷ xs) = All (λ y. age x ≢ age y) xs × Apart xs

  insert_latest-swap :
      (a b : A) (xs : List A)
      → age a ≢ age b
      → insert_latest age a (insert_latest age b xs) ≡ insert_latest age b (insert_latest age a xs)
  unfolding insert_latest
  insert_latest-swap a b [] h = ground arith
  insert_latest-swap a b (x ∷ xs) h = ground (arith, insert_latest-swap a b xs h)

  latest_first-insert_latest :
      (key : A → ℕ) (x : A) (ys : List A)
      → All (λ y. age x ≢ age y) ys
      → latest_first age (insert_latest key x ys) ≡ latest_first age (x ∷ ys)
  unfolding latest_first insert_latest
  latest_first-insert_latest key x [] h = refl
  latest_first-insert_latest key x (y ∷ ys) h = elim (Bool-cases (ltb (key x) (key y))) [
    | inl e ↦ rw e (
        ap (insert_latest age y) (latest_first-insert_latest key x ys h.1)
        ∙ sym (insert_latest-swap x y (latest_first age ys) h.0))
    | inr e ↦ rw e refl
  ]

module _ {A : Type 0} (key : A → ℕ) (P : A → Type 0) where
  All-insert_latest : (x : A) (ys : List A) → P x → All P ys → All P (insert_latest key x ys)
  unfolding insert_latest
  All-insert_latest x [] p h = (p, tt)
  All-insert_latest x (y ∷ ys) p h = elim (Bool-cases (ltb (key x) (key y))) [
    | inl e ↦ rw e (h.0, All-insert_latest x ys p h.1)
    | inr e ↦ rw e (p, h)
  ]

  All-latest_first : (xs : List A) → All P xs → All P (latest_first key xs)
  unfolding latest_first
  All-latest_first [] h = tt
  All-latest_first (x ∷ xs) h =
      All-insert_latest x (latest_first key xs) h.0 (All-latest_first xs h.1)

-- Where no two have one age, it does not matter how they were ordered before.
pub latest_first-latest_first :
    {A : Type 0} (age key : A → ℕ) (xs : List A)
    → Apart age xs
    → latest_first age (latest_first key xs) ≡ latest_first age xs
unfolding latest_first
latest_first-latest_first age key [] h = refl
latest_first-latest_first age key (x ∷ xs) h =
    latest_first-insert_latest age key x (latest_first key xs)
      (All-latest_first key (λ y. age x ≢ age y) xs h.0)
    ∙ ap (insert_latest age x) (latest_first-latest_first age key xs h.1)
