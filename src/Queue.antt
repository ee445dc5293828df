-- ===== src/Queue.antt =====
-- `TaskQueue` of server/internal/queue/worker.go: two buffered channels and two kinds of workers. A
-- step is what one goroutine does between two points where it may wait; the outcome of `Understand`
-- comes with the step that ends it.
pub mod Bounds
pub mod Drain
pub mod Progress
pub mod Ledger
use crew_im.Prelude.{
  ℕ, zero, suc, ◌+◌, ◌-◌, ◌*◌, ◌/◌, ◌%◌, ◌≤◌, ◌<◌, String, ◌≡◌, refl, sym, ap, ◌∙◌, ◌≢◌, ◌↔◌, ◌⊎◌,
  inl, inr, Bool, true, false, ◌&&◌, ◌||◌, not, Option, none, some, List, [], ◌∷◌, ◌++◌, map, arith,
  ltb, leb, ◌==◌, if◌then◌else◌, ltb→lt, lt→ltb, leb→le, ==_iff, Bool-cases, Option-cases, All,
  length, take, last?, keep, length-append, last?-append, length-keep-le, All-append, All-keep,
  All-map, Bytes, bytes_eq, bytes_eq_iff, bytes_eq_refl, eq_of_bytes_eq, bytes_ne, is_empty, join,
  ◌<>◌, decimal, str_eq, str_eq_iff, trim_space, trim_prefix, trim_suffix, Result, ok, err,
  get_elem?, set,
}
use crew_im.Model.{UnderstandingResult}

-- `make(chan string, 100)`
abbrev pub capacity : ℕ
capacity = 100

-- Where `understandWorker` stands: at its `range`, in `Understand`, or at `EnqueueExecute`. A worker at
-- its `range` when the channel is closed and empty returns in the source; here it stays there, where
-- it makes no move any more.
pub data UnderstandWorker : Type 0 where
  awaiting : UnderstandWorker
  reading : ℕ → UnderstandWorker
  sending : ℕ → UnderstandWorker

-- Where `executeWorker` stands: at its `range`, also when it returns there after `Stop`, or in `Execute`.
pub data ExecuteWorker : Type 0 where
  idle : ExecuteWorker
  running : ℕ → ExecuteWorker

pub record TaskQueue : Type 0 where
  pub understand_ch : List ℕ
  pub execute_ch : List ℕ
  -- whether `Stop` has closed the channels
  pub closed : Bool
  pub understand_workers : List UnderstandWorker
  pub execute_workers : List ExecuteWorker

unfoldable pub new_task_queue : TaskQueue
new_task_queue = record {
  understand_ch = [];
  execute_ch = [];
  closed = false;
  understand_workers = [];
  execute_workers = [];
}

-- `Start`: so many workers of each kind more.
unfoldable pub start : ℕ → TaskQueue → TaskQueue
start zero q = q
start (suc n) q =
    let q' = start n q in
    record q' {
      understand_workers = awaiting ∷ q'.understand_workers;
      execute_workers = idle ∷ q'.execute_workers;
    }

-- What a goroutine's move comes to: it waits, the process panics, or there is a new state.
pub data Outcome : Type 0 where
  blocked : Outcome
  panics : Outcome
  moved : TaskQueue → Outcome

-- A send: it panics on a closed channel and waits on a full one.
unfoldable pub send_understand : ℕ → TaskQueue → Outcome
send_understand id q =
    if q.closed
    then panics
    else if ltb (length q.understand_ch) capacity
    then moved (record q { understand_ch = q.understand_ch ++ id ∷ [] })
    else blocked

unfoldable pub send_execute : ℕ → TaskQueue → Outcome
send_execute id q =
    if q.closed
    then panics
    else if ltb (length q.execute_ch) capacity
    then moved (record q { execute_ch = q.execute_ch ++ id ∷ [] })
    else blocked

unfoldable pub set_understand : ℕ → UnderstandWorker → TaskQueue → TaskQueue
set_understand i u q = record q { understand_workers = set q.understand_workers i u }

unfoldable pub set_execute : ℕ → ExecuteWorker → TaskQueue → TaskQueue
set_execute i e q = record q { execute_workers = set q.execute_workers i e }

-- After `Understand`: an error, or a result, whose plan is executed at once or waits.
unfoldable pub after_understand : ℕ → Option UnderstandingResult → UnderstandWorker
after_understand id none = awaiting
after_understand id (some r) =
    if not r.execution_plan.requires_confirmation then sending id else awaiting

unfoldable pub take_understand : ℕ → TaskQueue → List ℕ → Outcome
take_understand i q [] = blocked
take_understand i q (id ∷ ids) =
    moved (set_understand i (reading id) (record q { understand_ch = ids }))

unfoldable pub understand_move :
    ℕ → Option UnderstandingResult → TaskQueue → Option UnderstandWorker → Outcome
unfolding take_understand
understand_move i result q none = blocked
understand_move i result q (some awaiting) = take_understand i q q.understand_ch
understand_move i result q (some (reading id)) =
    moved (set_understand i (after_understand id result) q)
understand_move i result q (some (sending id)) = send_execute id (set_understand i awaiting q)

take_execute : ℕ → TaskQueue → List ℕ → Outcome
take_execute i q [] = blocked
take_execute i q (id ∷ ids) = moved (set_execute i (running id) (record q { execute_ch = ids }))

unfoldable pub execute_move : ℕ → TaskQueue → Option ExecuteWorker → Outcome
unfolding take_execute
execute_move i q none = blocked
execute_move i q (some idle) = take_execute i q q.execute_ch
execute_move i q (some (running id)) = moved (set_execute i idle q)

-- The moves of the workers.
pub data Move : Type 0 where
  understand_worker : ℕ → Option UnderstandingResult → Move
  execute_worker : ℕ → Move

unfoldable pub work : Move → TaskQueue → Outcome
work (understand_worker i result) q = understand_move i result q (get_elem? q.understand_workers i)
work (execute_worker i) q = execute_move i q (get_elem? q.execute_workers i)

-- The moves of the process: the handlers' sends, the workers' and `Stop`.
pub data Event : Type 0 where
  enqueue_understand : ℕ → Event
  enqueue_execute : ℕ → Event
  works : Move → Event
  stop : Event

unfoldable pub step : Event → TaskQueue → Outcome
step (enqueue_understand id) q = send_understand id q
step (enqueue_execute id) q = send_execute id q
step (works m) q = work m q
step stop q = if q.closed then panics else moved (record q { closed = true })
