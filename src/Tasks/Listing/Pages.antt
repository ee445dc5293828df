-- ===== src/Tasks/Listing/Pages.antt =====
-- The pages of ListTasks together: tasks.go.
use crew_im.Understanding.Context.{latest_first}
use crew_im.Tasks.Listing.Order.{Apart, latest_first-latest_first}
use crew_im.Prelude.{
  keep, ◌^◌, ℕ, zero, suc, ◌+◌, ◌-◌, ◌*◌, ◌%◌, ◌≤◌, String, ◌≡◌, refl, sym, ap, ◌∙◌, Bool, true,
  false, Option, none, some, List, [], ◌∷◌, ◌++◌, map, arith, ltb, length, take, drop,
}
use mathlib.Core.List.{map-append}
use crew_im.Model.{Task, TaskRef}
use crew_im.World.{World, Services, ticked}
use crew_im.Tasks.Listing.{
  Ties, matches, list_tasks, page_of, limit_of, page_with, session_filter, TaskQuery, TaskRow,
  max_int, matching, row_of, offset_of, select_page,
}

take-nil : {A : Type 0} (n : ℕ) → take {A = A} n [] ≡ []
take-nil zero = refl
take-nil (suc n) = refl

drop-nil : {A : Type 0} (n : ℕ) → drop {A = A} n [] ≡ []
drop-nil zero = refl
drop-nil (suc n) = refl

take-add :
    {A : Type 0} (m n k : ℕ) (xs : List A) → k ≡ m + n → take k xs ≡ take m xs ++ take n (drop m xs)
take-add zero n k xs e = let e' : k ≡ n = omega arith in rw e' refl
take-add (suc m) n k [] e = let e' : k ≡ suc (m + n) = omega arith in rw e' (sym (take-nil n))
take-add (suc m) n k (x ∷ xs) e =
    let e' : k ≡ suc (m + n) = omega arith in rw e' (ap (◌∷◌ x) (take-add m n (m + n) xs refl))

drop-add : {A : Type 0} (m n k : ℕ) (xs : List A) → k ≡ m + n → drop n (drop m xs) ≡ drop k xs
drop-add zero n k xs e = let e' : k ≡ n = omega arith in rw e' refl
drop-add (suc m) n k [] e = drop-nil n ∙ sym (drop-nil k)
drop-add (suc m) n k (x ∷ xs) e =
    let e' : k ≡ suc (m + n) = omega arith in rw e' (drop-add m n (m + n) xs refl)

abbrev rows_in : Option (List TaskRow × ℕ × ℕ) → List TaskRow
rows_in none = []
rows_in (some (rows, page, limit)) = rows

-- The rows of several requests, one after the other.
unfoldable pub walk : Services → Ties → ℕ → List TaskQuery → World → List TaskRow
walk sv ties user [] w = []
walk sv ties user (q ∷ qs) w =
    let (reply, w') = list_tasks sv ties user q w in rows_in reply ++ walk sv ties user qs w'

-- The requests ask for one page after the other, from the one after `k` on, with one limit and filter.
abbrev pub Pages : ℕ → ℕ → String → TaskRef → List TaskQuery → Type 0
Pages k limit status session [] = Unit {0}
Pages k limit status session (q ∷ qs) =
    (page_of q.page ≡ k + 1)
    × (limit_of q.limit ≡ limit)
    × (q.status ≡ status)
    × (q.session_id ≡ session)
    × Pages (k + 1) limit status session qs

offset_of-le :
    (k limit : ℕ)
    → k * limit ≤ max_int
    → (offset_of (k + 1) limit ≡ k * limit) × (ltb max_int (offset_of (k + 1) limit) ≡ false)
unfolding offset_of
offset_of-le k limit h =
    let e : (k + 1 - 1) ≡ k = omega arith in
    rw e (let same : k * limit % 2 ^ 64 ≡ k * limit = omega arith in rw same (refl, ground arith))

module _ (sv : Services) (ties : Ties) (user limit : ℕ) (status : String) (session : TaskRef)
    (in_session : Task → Bool) (up : (n : ℕ) → sv.db_ok n ≡ true)
    (filter : session_filter session ≡ some in_session) where
  -- The tasks that match, the latest first.
  abbrev in_order : World → List Task
  in_order w =
      latest_first (λ (t : Task). t.created_at) (keep (matches user status in_session) w.tasks)

  -- No two of them were created at one time.
  abbrev pub NoTies : World → Type 0
  NoTies w = Apart (λ (t : Task). t.created_at) (keep (matches user status in_session) w.tasks)

  list_tasks-page :
      (k : ℕ) (q : TaskQuery) (w : World)
      → page_of q.page ≡ k + 1
      → limit_of q.limit ≡ limit
      → q.status ≡ status
      → q.session_id ≡ session
      → k * limit ≤ max_int
      → NoTies w
      → list_tasks sv ties user q w
        ≡ (some (map row_of (take limit (drop (k * limit) (in_order w))), k + 1, limit), ticked w)
  unfolding list_tasks page_with select_page matching
  list_tasks-page k q w p l s f h apart =
      let (off, in_range) = offset_of-le k limit h in
      let one =
        latest_first-latest_first (λ (t : Task). t.created_at) (ties w.tick)
          (keep (matches user status in_session) w.tasks) apart in
      rw (p, l, s, f) (rw filter (rw (up w.tick) (rw (in_range) (rw (off, one) refl))))

  rows_from :
      (qs : List TaskQuery) (k m n : ℕ) (w : World)
      → Pages k limit status session qs
      → m ≡ k * limit
      → n ≡ length qs * limit
      → m + n ≤ max_int
      → NoTies w
      → walk sv ties user qs w ≡ map row_of (take n (drop m (in_order w)))
  unfolding walk
  rows_from [] k m n w p a b h apart = let z : n ≡ 0 = omega arith in rw z refl
  rows_from (q ∷ qs) k m n w (page, l, s, f, rest) a b h apart =
      let ms = in_order w in
      let r = length qs * limit in
      let total : n ≡ limit + r = grind arith in
      let next : m + limit ≡ (k + 1) * limit = grind arith in
      let here = list_tasks-page k q w page l s f (omega arith) apart in
      let later =
        rows_from qs (k + 1) (m + limit) r (ticked w) rest next refl (omega arith) apart in
      rw here (
        rw later (
          rw (← a) (
            rw (take-add limit r n (drop m ms) total) (
              rw (drop-add m limit (m + limit) ms refl) (
                sym (map-append row_of (take limit (drop m ms)) (take r (drop (m + limit) ms))))))))

  -- With a database that works and tasks that nobody changes, of which no two that match were created
  -- at one time, requests for the pages 1, 2, 3 and so on with one limit and filter give together the
  -- first of the user's tasks that match, the latest first, as many as the limit times the pages: none
  -- is left out and none comes twice. The order in which each query puts tasks of one time is left
  -- open.
  pub walk-Pages :
      (qs : List TaskQuery) (w : World)
      → Pages 0 limit status session qs
      → length qs * limit ≤ max_int
      → NoTies w
      → walk sv ties user qs w ≡ map row_of (take (length qs * limit) (in_order w))
  walk-Pages qs w p h apart =
      rows_from qs 0 0 (length qs * limit) w p (omega arith) refl (omega arith) apart
