-- ===== src/Tasks/Batch.antt =====
-- `BatchConfirm` of tasks.go against `ConfirmTask`, and whose tasks a user's requests can touch.
use crew_im.Prelude.{
  ℕ, ◌+◌, ◌≡◌, refl, ◌≢◌, ◌⊎◌, inl, inr, true, some, List, [], ◌∷◌, ◌++◌, arith, ◌==◌,
  if◌then◌else◌, All, All-append, All-map,
}
use crew_im.Model.{Task, waiting_confirm}
use crew_im.World.{World, Services}
use crew_im.Tasks.{
  TaskHandler, confirm_task, batch_one, batch_loop, batch_confirm, select_status, Reply,
  confirmed_tasks,
}
use crew_im.Tasks.Actions.{Action, confirm, act, row, row-act, code_of}

-- One round of the loop is a `ConfirmTask`, with the reply kept in the list of ids.
pub batch_one-eq :
    (sv : Services) (h : TaskHandler) (user id : ℕ) (confirmed : List ℕ) (w : World)
    → let (reply, w') = confirm_task sv h user id w in
      (((batch_one sv h user id confirmed w).1 ≡ w')
        × ((batch_one sv h user id confirmed w).0
            ≡ (if code_of reply == 200 then confirmed ++ id ∷ [] else confirmed)))
unfolding batch_one confirm_task
batch_one-eq sv h user id confirmed w = (ground arith, ground arith)

-- The specification: the tasks are confirmed one by one, and those that were are listed.
unfoldable pub confirm_each : Services → TaskHandler → ℕ → List ℕ → List ℕ → World → List ℕ × World
confirm_each sv h user [] confirmed w = (confirmed, w)
confirm_each sv h user (id ∷ ids) confirmed w =
    let (reply, w') = confirm_task sv h user id w in
    confirm_each sv h user ids (if code_of reply == 200 then confirmed ++ id ∷ [] else confirmed) w'

-- The loop of `BatchConfirm` leaves the same database, pushes and jobs as a `ConfirmTask` for each
-- id in turn, and lists exactly the ids whose `ConfirmTask` replies with success, whichever
-- statements fail.
pub batch_loop-eq-confirm_each :
    (sv : Services) (h : TaskHandler) (user : ℕ) (ids confirmed : List ℕ) (w : World)
    → batch_loop sv h user ids confirmed w ≡ confirm_each sv h user ids confirmed w
unfolding batch_loop confirm_each
batch_loop-eq-confirm_each sv h user [] confirmed w = refl
batch_loop-eq-confirm_each sv h user (id ∷ ids) confirmed w =
    let (world, list) = batch_one-eq sv h user id confirmed w in
    rw (world, list) (batch_loop-eq-confirm_each sv h user ids _ (confirm_task sv h user id w).1)

-- No element stands in the list twice.
abbrev pub Distinct : List ℕ → Type 0
Distinct [] = Unit
Distinct (x ∷ xs) = All (λ y. x ≢ y) xs × Distinct xs

Distinct-snoc : (xs : List ℕ) (a : ℕ) → Distinct xs → All (λ y. y ≢ a) xs → Distinct (xs ++ a ∷ [])
Distinct-snoc [] a d h = (tt, tt)
Distinct-snoc (x ∷ xs) a d h =
    (All-append (λ y. x ≢ y) xs (a ∷ []) d.0 (h.0, tt), Distinct-snoc xs a d.1 h.1)

-- The user's tasks that no longer wait for a confirmation.
abbrev Settled : ℕ → World → ℕ → Type 0
Settled user w id = select_status id user w ≢ some waiting_confirm

-- With a database that works, a round settles its task and unsettles none.
batch_one-Settled :
    (sv : Services) (h : TaskHandler) (user id j : ℕ) (confirmed : List ℕ) (w : World)
    → ((n : ℕ) → sv.db_ok n ≡ true)
    → Settled user w j ⊎ (j ≡ id)
    → Settled user (batch_one sv h user id confirmed w).1 j
unfolding select_status act
batch_one-Settled sv h user id j confirmed w ok s =
    rw ((batch_one-eq sv h user id confirmed w).0)
      (λ e. ground (arith, row-act sv h confirm user id j w, ok w.tick, ok (w.tick + 1)))

batch_loop-Settled :
    (sv : Services) (h : TaskHandler) (user id : ℕ) (confirmed : List ℕ) (w : World)
    → ((n : ℕ) → sv.db_ok n ≡ true)
    → All (Settled user w) confirmed
    → All (Settled user (batch_one sv h user id confirmed w).1) confirmed
batch_loop-Settled sv h user id confirmed w ok s =
    All-map (Settled user w) confirmed
      (λ j k. batch_one-Settled sv h user id j confirmed w ok (inl k)) s

-- A task that is listed was waiting.
batch_one_listed :
    (sv : Services) (h : TaskHandler) (user id : ℕ) (confirmed : List ℕ) (w : World)
    → ((batch_one sv h user id confirmed w).0 ≡ confirmed)
      ⊎ (((batch_one sv h user id confirmed w).0 ≡ confirmed ++ id ∷ [])
          × (select_status id user w ≡ some waiting_confirm))
unfolding batch_one select_status
batch_one_listed sv h user id confirmed w = ground arith

batch_loop-Distinct :
    (sv : Services) (h : TaskHandler) (user : ℕ) (ids confirmed : List ℕ) (w : World)
    → ((n : ℕ) → sv.db_ok n ≡ true)
    → All (Settled user w) confirmed
    → Distinct confirmed
    → Distinct (batch_loop sv h user ids confirmed w).0
unfolding batch_loop
batch_loop-Distinct sv h user [] confirmed w ok s d = d
batch_loop-Distinct sv h user (id ∷ ids) confirmed w ok s d =
    let (next, w') = batch_one sv h user id confirmed w in
    elim (batch_one_listed sv h user id confirmed w) [
      | inl same ↦
          batch_loop-Distinct sv h user ids next w' ok
            (rw same (batch_loop-Settled sv h user id confirmed w ok s)) (rw same d)
      | inr (more, waiting) ↦
          batch_loop-Distinct sv h user ids next w' ok
            (rw more (
              All-append (Settled user w') confirmed (id ∷ [])
                (batch_loop-Settled sv h user id confirmed w ok s)
                (batch_one-Settled sv h user id id confirmed w ok (inr refl), tt)))
            (rw more (
              Distinct-snoc confirmed id d
                (All-map (Settled user w) confirmed (λ j k e. k (rw e waiting)) s)))
    ]

abbrev pub confirmed_of : Reply → List ℕ
confirmed_of (confirmed_tasks ids n) = ids
confirmed_of _ = []

-- With a database that works, `BatchConfirm` confirms no task twice, however often the body of the
-- request names it.
pub batch_confirm-Distinct :
    (sv : Services) (h : TaskHandler) (user : ℕ) (ids : List ℕ) (w : World)
    → ((n : ℕ) → sv.db_ok n ≡ true)
    → Distinct (confirmed_of (batch_confirm sv h user ids w).0)
unfolding batch_confirm
batch_confirm-Distinct sv h user [] w ok = tt
batch_confirm-Distinct sv h user (id ∷ ids) w ok =
    batch_loop-Distinct sv h user (id ∷ ids) [] w ok tt tt

-- A request of a user about tasks.
pub data Request : Type 0 where
  one : Action → ℕ → Request
  batch : List ℕ → Request

unfoldable pub serve : Services → TaskHandler → ℕ → List Request → World → World
serve sv h user [] w = w
serve sv h user (one a id ∷ rs) w = serve sv h user rs (act sv h a user id w).1
serve sv h user (batch ids ∷ rs) w = serve sv h user rs (batch_confirm sv h user ids w).1

act-foreign :
    (sv : Services) (h : TaskHandler) (a : Action) (user id j : ℕ) (w : World) (t : Task)
    → row j w ≡ some t
    → t.user_id ≢ user
    → row j (act sv h a user id w).1 ≡ some t
unfolding select_status
act-foreign sv h a user id j w t e f = ground (arith, row-act sv h a user id j w)

batch_loop-foreign :
    (sv : Services) (h : TaskHandler) (user j : ℕ) (ids confirmed : List ℕ) (w : World) (t : Task)
    → row j w ≡ some t
    → t.user_id ≢ user
    → row j (batch_loop sv h user ids confirmed w).1 ≡ some t
unfolding batch_loop act
batch_loop-foreign sv h user j [] confirmed w t e f = e
batch_loop-foreign sv h user j (id ∷ ids) confirmed w t e f =
    let (next, w') = batch_one sv h user id confirmed w in
    batch_loop-foreign sv h user j ids next w' t
      (rw ((batch_one-eq sv h user id confirmed w).0) (act-foreign sv h confirm user id j w t e f))
      f

-- Whatever requests about tasks a user makes, and whichever statements fail, each row of a task
-- that belongs to somebody else stays as it was.
pub serve-foreign :
    (sv : Services) (h : TaskHandler) (user j : ℕ) (rs : List Request) (w : World) (t : Task)
    → row j w ≡ some t
    → t.user_id ≢ user
    → row j (serve sv h user rs w) ≡ some t
unfolding serve batch_confirm
serve-foreign sv h user j [] w t e f = e
serve-foreign sv h user j (one a id ∷ rs) w t e f =
    serve-foreign sv h user j rs (act sv h a user id w).1 t (act-foreign sv h a user id j w t e f) f
serve-foreign sv h user j (batch [] ∷ rs) w t e f = serve-foreign sv h user j rs w t e f
serve-foreign sv h user j (batch (id ∷ ids) ∷ rs) w t e f =
    serve-foreign sv h user j rs (batch_confirm sv h user (id ∷ ids) w).1 t
      (batch_loop-foreign sv h user j (id ∷ ids) [] w t e f) f
