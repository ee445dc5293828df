-- ===== src/World/Table.antt =====
-- Tables as lists of rows, each row with a number for its primary key.
use crew_im.Prelude.{
  ℕ, suc, ◌≡◌, refl, ap, Option, none, some, List, [], ◌∷◌, ◌++◌, arith, ◌==◌, if◌then◌else◌,
  length, keep, ◌≢◌, ltb,
}

module _ {A : Type 0} (key : A → ℕ) where
  -- The row with a key.
  unfoldable pub find_by : ℕ → List A → Option A
  find_by k [] = none
  find_by k (r ∷ rs) = if key r == k then some r else find_by k rs

  -- The rows with a key are changed.
  unfoldable pub update_by : ℕ → (A → A) → List A → List A
  update_by k f [] = []
  update_by k f (r ∷ rs) = (if key r == k then f r else r) ∷ update_by k f rs

abbrev pub map_option : {A B : Type 0} → (A → B) → Option A → Option B
map_option f none = none
map_option f (some a) = some (f a)

-- `ORDER BY … ASC`
unfoldable pub insert_ascending : {A : Type 0} → (A → ℕ) → A → List A → List A
insert_ascending key a [] = a ∷ []
insert_ascending key a (b ∷ bs) =
    let rest = insert_ascending key a bs in if ltb (key b) (key a) then b ∷ rest else a ∷ b ∷ bs

unfoldable pub ascending : {A : Type 0} → (A → ℕ) → List A → List A
unfolding insert_ascending
ascending key [] = []
ascending key (a ∷ as') = insert_ascending key a (ascending key as')

-- The rows of a user.
abbrev pub of_user : {A : Type 0} → (A → ℕ) → ℕ → List A → List A
of_user key user rows = keep (λ r. key r == user) rows

module _ {A : Type 0} (key : A → ℕ) where
  -- A row of somebody else is none of the user's.
  pub of_user-append :
      (user : ℕ) (rows : List A) (r : A)
      → key r ≢ user
      → of_user key user (rows ++ r ∷ []) ≡ of_user key user rows
  of_user-append user [] r h = ground arith
  of_user-append user (x ∷ rows) r h = ground (arith, of_user-append user rows r h)

  -- Where the key stays, only the row with the key changes.
  pub find_by-update_by :
      (j k : ℕ) (f : A → A) (rs : List A)
      → ((r : A) → key (f r) ≡ key r)
      → find_by key j (update_by key k f rs)
        ≡ (if k == j then map_option f (find_by key j rs) else find_by key j rs)
  unfolding find_by update_by
  find_by-update_by j k f [] same = ground arith
  find_by-update_by j k f (r ∷ rs) same = ground (arith, same r, find_by-update_by j k f rs same)

  -- A new row is found where no row had its key.
  pub find_by-append :
      (j : ℕ) (r : A) (rs : List A)
      → find_by key j (rs ++ r ∷ []) ≡ elim (find_by key j rs) [
        | some old ↦ some old
        | none ↦ if key r == j then some r else none
      ]
  unfolding find_by
  find_by-append j r [] = refl
  find_by-append j r (x ∷ rs) = ground (arith, find_by-append j r rs)

  pub length-update_by :
      (k : ℕ) (f : A → A) (rs : List A) → length (update_by key k f rs) ≡ length rs
  unfolding update_by
  length-update_by k f [] = refl
  length-update_by k f (r ∷ rs) = ap suc (length-update_by k f rs)
