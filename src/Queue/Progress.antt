-- ===== src/Queue/Progress.antt =====
-- The queue never stands still while a task waits, and comes to rest.
use crew_im.Prelude.{
  ℕ, zero, suc, ◌+◌, ◌≤◌, ◌≡◌, refl, ap, ◌∙◌, ◌⊎◌, inl, inr, false, Option, none, some, List, [],
  ◌∷◌, ◌++◌, arith, ltb, Bool-cases, length, get_elem?, total,
}
use crew_im.Model.{UnderstandingResult}
use crew_im.Queue.{
  TaskQueue, Move, moved, capacity, understand_worker, execute_worker, work, works, step, start,
  new_task_queue, send_execute, set_understand, set_execute, understand_move, execute_move,
  take_understand, take_execute, UnderstandWorker, ExecuteWorker, awaiting, reading, sending, idle,
  running,
}
use crew_im.Queue.Bounds.{Leaves, Reaches, Bounded, step-Bounded, Reaches-Bounded}
use crew_im.Queue.Drain.{load, understand_load, execute_load, Worked, none_yet, after, work-load}

-- A worker's next move, where there is one.
abbrev pub CanMove : TaskQueue → Type 0
CanMove q = (m : Move) × (q' : TaskQueue) × (work m q ≡ moved q')

-- Some `executeWorker` is in `Execute`, or all are at their `range`.
running_or_idle :
    (ws : List ExecuteWorker)
    → ((i : ℕ) × (id : ℕ) × (get_elem? ws i ≡ some (running id)))
      ⊎ ((total execute_load ws ≡ 0) × (1 ≤ length ws → get_elem? ws 0 ≡ some idle))
unfolding execute_load
running_or_idle [] = inr (refl, λ h. absurd (omega arith))
running_or_idle (running id ∷ ws) = inl (0, id, refl)
running_or_idle (idle ∷ ws) = elim (running_or_idle ws) [
  | inl (i, id, h) ↦ inl (suc i, id, h)
  | inr (h, k) ↦ inr (omega (arith, h), λ l. refl)
]

busy_or_awaiting :
    (ws : List UnderstandWorker)
    → ((i : ℕ) × (id : ℕ) × (get_elem? ws i ≡ some (reading id)))
      ⊎ ((i : ℕ) × (id : ℕ) × (get_elem? ws i ≡ some (sending id)))
      ⊎ ((total understand_load ws ≡ 0) × (1 ≤ length ws → get_elem? ws 0 ≡ some awaiting))
unfolding understand_load
busy_or_awaiting [] = inr (inr (refl, λ h. absurd (omega arith)))
busy_or_awaiting (reading id ∷ ws) = inl (0, id, refl)
busy_or_awaiting (sending id ∷ ws) = inr (inl (0, id, refl))
busy_or_awaiting (awaiting ∷ ws) = elim (busy_or_awaiting ws) [
  | inl (i, id, h) ↦ inl (suc i, id, h)
  | inr (inl (i, id, h)) ↦ inr (inl (suc i, id, h))
  | inr (inr (h, k)) ↦ inr (inr (omega (arith, h), λ l. refl))
]

understand_takes :
    (result : Option UnderstandingResult) (q : TaskQueue) (ids : List ℕ)
    → q.understand_ch ≡ ids
    → get_elem? q.understand_workers 0 ≡ some awaiting
    → 1 ≤ length ids
    → CanMove q
unfolding work understand_move take_understand
understand_takes result q [] k h l = absurd (omega arith)
understand_takes result q (id ∷ ids) k h l =
    (understand_worker 0 result, _, ap (understand_move 0 result q) h ∙ ap (take_understand 0 q) k)

sends_at_once :
    (id : ℕ) (q : TaskQueue)
    → q.closed ≡ false
    → q.execute_ch ≡ []
    → send_execute id q ≡ moved (record q { execute_ch = q.execute_ch ++ id ∷ [] })
unfolding send_execute
sends_at_once id q c empty = rw c (rw empty refl)

-- With nothing in the second channel, and its workers at rest, a worker of the first kind moves.
understand_moves :
    (result : Option UnderstandingResult) (q : TaskQueue)
    → q.closed ≡ false
    → 1 ≤ length q.understand_workers
    → q.execute_ch ≡ []
    → total execute_load q.execute_workers ≡ 0
    → 1 ≤ load q
    → CanMove q
unfolding work understand_move send_execute set_understand load
understand_moves result q c some_worker empty rest left =
    elim (busy_or_awaiting q.understand_workers) [
      | inl (i, id, h) ↦ (understand_worker i result, _, ap (understand_move i result q) h)
      | inr (inl (i, id, h)) ↦ (
        understand_worker i result,
        _,
        ap (understand_move i result q) h ∙ sends_at_once id _ c empty,
      )
      | inr (inr (h, k)) ↦
          understand_takes result q q.understand_ch refl (k some_worker)
            (omega (arith, ap length empty))
    ]

execute_moves :
    (result : Option UnderstandingResult) (q : TaskQueue) (ids : List ℕ)
    → q.closed ≡ false
    → 1 ≤ length q.understand_workers
    → get_elem? q.execute_workers 0 ≡ some idle
    → total execute_load q.execute_workers ≡ 0
    → q.execute_ch ≡ ids
    → 1 ≤ load q
    → CanMove q
unfolding work execute_move take_execute
execute_moves result q [] c u h rest k left = understand_moves result q c u k rest left
execute_moves result q (id ∷ ids) c u h rest k left =
    (execute_worker 0, _, ap (execute_move 0 q) h ∙ ap (take_execute 0 q) k)

moves :
    (result : Option UnderstandingResult) (q : TaskQueue)
    → q.closed ≡ false
    → 1 ≤ length q.understand_workers
    → 1 ≤ length q.execute_workers
    → 1 ≤ load q
    → CanMove q
unfolding work execute_move
moves result q c u e left = elim (running_or_idle q.execute_workers) [
  | inl (i, id, h) ↦ (execute_worker i, _, ap (execute_move i q) h)
  | inr (h, k) ↦ execute_moves result q q.execute_ch c u (k e) h refl left
]

-- The workers' moves do not close the channels.
abbrev IsOpen : TaskQueue → Type 0
IsOpen q = q.closed ≡ false

send_execute-IsOpen :
    (id : ℕ) (q : TaskQueue) → q.closed ≡ false → Leaves IsOpen (send_execute id q)
unfolding send_execute
send_execute-IsOpen id q c =
    rw c (elim (Bool-cases (ltb (length q.execute_ch) capacity)) [
      | inl l ↦ rw l refl
      | inr l ↦ rw l tt
    ])

take_understand-IsOpen :
    (i : ℕ) (q : TaskQueue) (ids : List ℕ)
    → q.closed ≡ false
    → Leaves IsOpen (take_understand i q ids)
unfolding take_understand set_understand
take_understand-IsOpen i q [] c = tt
take_understand-IsOpen i q (id ∷ ids) c = c

take_execute-IsOpen :
    (i : ℕ) (q : TaskQueue) (ids : List ℕ) → q.closed ≡ false → Leaves IsOpen (take_execute i q ids)
unfolding take_execute set_execute
take_execute-IsOpen i q [] c = tt
take_execute-IsOpen i q (id ∷ ids) c = c

understand_move-IsOpen :
    (i : ℕ) (result : Option UnderstandingResult) (q : TaskQueue) (found : Option UnderstandWorker)
    → q.closed ≡ false
    → Leaves IsOpen (understand_move i result q found)
unfolding understand_move set_understand
understand_move-IsOpen i result q none c = tt
understand_move-IsOpen i result q (some awaiting) c = take_understand-IsOpen i q q.understand_ch c
understand_move-IsOpen i result q (some (reading id)) c = c
understand_move-IsOpen i result q (some (sending id)) c = send_execute-IsOpen id _ c

execute_move-IsOpen :
    (i : ℕ) (q : TaskQueue) (found : Option ExecuteWorker)
    → q.closed ≡ false
    → Leaves IsOpen (execute_move i q found)
unfolding execute_move set_execute
execute_move-IsOpen i q none c = tt
execute_move-IsOpen i q (some idle) c = take_execute-IsOpen i q q.execute_ch c
execute_move-IsOpen i q (some (running id)) c = c

work-IsOpen : (m : Move) (q : TaskQueue) → q.closed ≡ false → Leaves IsOpen (work m q)
unfolding work
work-IsOpen (understand_worker i result) q c =
    understand_move-IsOpen i result q (get_elem? q.understand_workers i) c
work-IsOpen (execute_worker i) q c = execute_move-IsOpen i q (get_elem? q.execute_workers i) c

Worked-before :
    (q q' q'' : TaskQueue) (n : ℕ) (m : Move)
    → work m q ≡ moved q'
    → Worked q' n q''
    → Worked q (suc n) q''
Worked-before q q' q'' n m h none_yet = after m none_yet h
Worked-before q q' q'' n m h (after {n = k} {q' = p} m' w h') =
    after m' (Worked-before q q' p k m h w) h'

zero_or_more : (n : ℕ) → (n ≡ 0) ⊎ (1 ≤ n)
zero_or_more zero = inl refl
zero_or_more (suc n) = inr (omega arith)

-- The moves that empty a queue, by its load.
drained :
    (result : Option UnderstandingResult) (workers fuel : ℕ) (q : TaskQueue)
    → load q ≤ fuel
    → q.closed ≡ false
    → Bounded (suc workers) q
    → (n : ℕ) × (q' : TaskQueue) × Worked q n q' × (load q' ≡ 0)
unfolding step
drained result workers zero q l c b = (0, q, none_yet, omega arith)
drained result workers (suc fuel) q l c b = elim (zero_or_more (load q)) [
  | inl z ↦ (0, q, none_yet, z)
  | inr p ↦
      let (m, q', h) =
        moves result q c (omega (arith, b.understand_count)) (omega (arith, b.execute_count)) p in
      let less : load q' + 1 ≤ load q = rw h at (work-load m q) in
      let open' : IsOpen q' = rw h at (work-IsOpen m q c) in
      let bounded : Bounded (suc workers) q' = rw h at (step-Bounded (suc workers) (works m) q b) in
      let (n, q'', w, z) = drained result workers fuel q' (omega arith) open' bounded in
      (suc n, q'', Worked-before q q' q'' n m h w, z)
]

-- From the start on, with at least one worker of each kind and until the shutdown, the queue never
-- stands still while there is work: whenever a task waits in a channel or is in a worker's hands,
-- some worker can move, whatever a reading that ends then comes to. No full channel locks it up.
pub never_stuck :
    (result : Option UnderstandingResult) (workers : ℕ) (q : TaskQueue)
    → Reaches (start (suc workers) new_task_queue) q
    → q.closed ≡ false
    → 1 ≤ load q
    → CanMove q
never_stuck result workers q r c left =
    let b = Reaches-Bounded (suc workers) q r in
    moves result q c (omega (arith, b.understand_count)) (omega (arith, b.execute_count)) left

-- From the start on, with at least one worker of each kind and until the shutdown, the workers'
-- moves alone can bring the queue to rest: every task that was taken is worked off, the channels are
-- empty and all workers wait.
pub comes_to_rest :
    (result : Option UnderstandingResult) (workers : ℕ) (q : TaskQueue)
    → Reaches (start (suc workers) new_task_queue) q
    → q.closed ≡ false
    → (n : ℕ) × (q' : TaskQueue) × Worked q n q' × (load q' ≡ 0)
comes_to_rest result workers q r c =
    drained result workers (load q) q (omega arith) c (Reaches-Bounded (suc workers) q r)
