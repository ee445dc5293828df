-- ===== src/Queue/Ledger.antt =====
-- The books of the queue, of what comes in, stays and goes out: worker.go.
pub mod Balance
use crew_im.Prelude.{
  ℕ, zero, suc, refl, total, total-set, get_elem?, none, some, true, false, inl, inr, Bool-cases,
  arith, Option, ◌≡◌, ◌+◌, List, if◌then◌else◌, ltb, ◌==◌, ◌∷◌, ap, length, total-append, [],
}
use crew_im.Model.{UnderstandingResult}
use crew_im.Queue.{
  TaskQueue, Event, Outcome, blocked, panics, moved, step, start, new_task_queue, capacity,
  enqueue_understand, enqueue_execute, works, stop, understand_worker, execute_worker, work,
  send_understand, send_execute, set_understand, set_execute, understand_move, execute_move,
  after_understand, take_understand, take_execute, UnderstandWorker, ExecuteWorker, awaiting,
  reading, sending, idle, running,
}
use crew_im.Queue.Bounds.{Leaves}

-- How often a task is this one.
abbrev pub same : ℕ → ℕ → ℕ
same id k = if k == id then 1 else 0

unfoldable pub held : ℕ → UnderstandWorker → ℕ
held id awaiting = 0
held id (reading k) = same id k
held id (sending k) = same id k

unfoldable pub carried_out : ℕ → ExecuteWorker → ℕ
carried_out id idle = 0
carried_out id (running k) = same id k

-- How often the queue has a task: in its channels and at its workers.
unfoldable pub in_hand : ℕ → TaskQueue → ℕ
in_hand id q =
    total (same id) q.understand_ch
    + total (same id) q.execute_ch
    + total (held id) q.understand_workers
    + total (carried_out id) q.execute_workers

-- How often an event brings it in.
unfoldable pub entered : ℕ → Event → ℕ
entered id (enqueue_understand k) = same id k
entered id (enqueue_execute k) = same id k
entered id (works m) = 0
entered id stop = 0

-- Whether a worker is done with it: after a reading that failed or whose plan waits for a
-- confirmation, and after an execution.
unfoldable pub read_out : ℕ → Option UnderstandingResult → Option UnderstandWorker → ℕ
read_out id result none = 0
read_out id result (some awaiting) = 0
read_out id none (some (reading k)) = same id k
read_out id (some r) (some (reading k)) =
    if r.execution_plan.requires_confirmation then same id k else 0
read_out id result (some (sending k)) = 0

unfoldable pub ran_out : ℕ → Option ExecuteWorker → ℕ
ran_out id none = 0
ran_out id (some idle) = 0
ran_out id (some (running k)) = same id k

unfoldable pub finished : ℕ → Event → TaskQueue → ℕ
finished id (works (understand_worker i result)) q =
    read_out id result (get_elem? q.understand_workers i)
finished id (works (execute_worker i)) q = ran_out id (get_elem? q.execute_workers i)
finished id (enqueue_understand k) q = 0
finished id (enqueue_execute k) q = 0
finished id stop q = 0

-- Events one after the other, as far as none waits and none panics.
unfoldable pub run_events : List Event → TaskQueue → Outcome
run_events [] q = moved q
run_events (e ∷ es) q = elim (step e q) [
  | blocked ↦ blocked
  | panics ↦ panics
  | moved q' ↦ run_events es q'
]

unfoldable pub finished_by : ℕ → List Event → TaskQueue → ℕ
finished_by id [] q = 0
finished_by id (e ∷ es) q =
    finished id e q + elim (step e q) [ blocked ↦ 0 | panics ↦ 0 | moved q' ↦ finished_by id es q' ]
