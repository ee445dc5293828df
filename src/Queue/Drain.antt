-- ===== src/Queue/Drain.antt =====
-- The queue's jobs come to an end: what the workers' moves do to the work that is left.
use crew_im.Prelude.{
  ℕ, suc, ◌+◌, ◌*◌, ◌≤◌, ◌≡◌, refl, ap, inl, inr, Option, none, some, List, [], ◌∷◌, arith, ltb,
  Bool-cases, length, length-append, total, get_elem?, total-set,
}
use crew_im.Model.{UnderstandingResult}
use crew_im.Queue.{
  TaskQueue, Move, moved, capacity, understand_worker, execute_worker, work, send_execute,
  set_understand, set_execute, understand_move, execute_move, after_understand, take_understand,
  take_execute, UnderstandWorker, ExecuteWorker, awaiting, reading, sending, idle, running,
}
use crew_im.Queue.Bounds.{Leaves}

-- How many moves a worker, and the whole queue, has left at most.
unfoldable pub understand_load : UnderstandWorker → ℕ
understand_load awaiting = 0
understand_load (reading id) = 4
understand_load (sending id) = 3

unfoldable pub execute_load : ExecuteWorker → ℕ
execute_load idle = 0
execute_load (running id) = 1

unfoldable pub load : TaskQueue → ℕ
load q =
    5 * length q.understand_ch
    + 2 * length q.execute_ch
    + total understand_load q.understand_workers
    + total execute_load q.execute_workers

-- A queue with less work left.
abbrev LessThan : TaskQueue → TaskQueue → Type 0
LessThan q q' = load q' + 1 ≤ load q

after_understand-load :
    (id : ℕ) (result : Option UnderstandingResult)
    → understand_load (after_understand id result) ≤ 3
unfolding understand_load after_understand
after_understand-load id none = omega arith
after_understand-load id (some r) = ground arith

take_understand-load :
    (i : ℕ) (q : TaskQueue) (ids : List ℕ)
    → q.understand_ch ≡ ids
    → get_elem? q.understand_workers i ≡ some awaiting
    → Leaves (LessThan q) (take_understand i q ids)
unfolding take_understand set_understand load understand_load
take_understand-load i q [] k h = tt
take_understand-load i q (id ∷ ids) k h =
    omega
      (arith, ap length k, total-set understand_load q.understand_workers i awaiting (reading id) h)

take_execute-load :
    (i : ℕ) (q : TaskQueue) (ids : List ℕ)
    → q.execute_ch ≡ ids
    → get_elem? q.execute_workers i ≡ some idle
    → Leaves (LessThan q) (take_execute i q ids)
unfolding take_execute set_execute load execute_load
take_execute-load i q [] k h = tt
take_execute-load i q (id ∷ ids) k h =
    omega (arith, ap length k, total-set execute_load q.execute_workers i idle (running id) h)

sent-load :
    (i id : ℕ) (q : TaskQueue)
    → get_elem? q.understand_workers i ≡ some (sending id)
    → Leaves (LessThan q) (send_execute id (set_understand i awaiting q))
unfolding send_execute set_understand load understand_load
sent-load i id q h = elim (Bool-cases q.closed) [
  | inl c ↦ rw c tt
  | inr c ↦ rw c (elim (Bool-cases (ltb (length q.execute_ch) capacity)) [
    | inl l ↦ rw l (
        omega (
          arith,
          length-append q.execute_ch (id ∷ []),
          total-set understand_load q.understand_workers i (sending id) awaiting h,
        ))
    | inr l ↦ rw l tt
  ])
]

understand_move-load :
    (i : ℕ) (result : Option UnderstandingResult) (q : TaskQueue) (found : Option UnderstandWorker)
    → get_elem? q.understand_workers i ≡ found
    → Leaves (LessThan q) (understand_move i result q found)
unfolding understand_move set_understand load understand_load
understand_move-load i result q none h = tt
understand_move-load i result q (some awaiting) h = take_understand-load i q q.understand_ch refl h
understand_move-load i result q (some (reading id)) h = omega (
  arith,
  after_understand-load id result,
  total-set understand_load q.understand_workers i (reading id) (after_understand id result) h,
)
understand_move-load i result q (some (sending id)) h = sent-load i id q h

execute_move-load :
    (i : ℕ) (q : TaskQueue) (found : Option ExecuteWorker)
    → get_elem? q.execute_workers i ≡ found
    → Leaves (LessThan q) (execute_move i q found)
unfolding execute_move set_execute load execute_load
execute_move-load i q none h = tt
execute_move-load i q (some idle) h = take_execute-load i q q.execute_ch refl h
execute_move-load i q (some (running id)) h =
    omega (arith, total-set execute_load q.execute_workers i (running id) idle h)

pub work-load : (m : Move) (q : TaskQueue) → Leaves (LessThan q) (work m q)
unfolding work
work-load (understand_worker i result) q =
    understand_move-load i result q (get_elem? q.understand_workers i) refl
work-load (execute_worker i) q = execute_move-load i q (get_elem? q.execute_workers i) refl

-- So many moves of the workers, one after the other, lead from a state to another.
pub data Worked (q : TaskQueue) : ℕ → TaskQueue → Type 0 where
  none_yet : Worked q 0 q
  after :
      {n : ℕ} {q' q'' : TaskQueue} (m : Move)
      → Worked q n q'
      → work m q' ≡ moved q''
      → Worked q (suc n) q''

-- The workers cannot go on for ever: in any order of their moves, with any outcome of the readings,
-- they make no more of them than the load of the queue counts, five for each task that waits to be
-- read and fewer for those that are further on.
pub Worked-load : (q q' : TaskQueue) (n : ℕ) → Worked q n q' → n + load q' ≤ load q
Worked-load q q' n none_yet = omega arith
Worked-load q q'' n (after {n = k} {q' = q'} m w h) =
    let less : LessThan q' q'' = rw h at (work-load m q') in
    omega (arith, Worked-load q q' k w, less)
