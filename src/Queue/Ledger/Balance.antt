-- ===== src/Queue/Ledger/Balance.antt =====
-- Proof that the books of the queue balance: worker.go.
use crew_im.Prelude.{
  ℕ, zero, suc, refl, total, total-set, get_elem?, none, some, inl, inr, Bool-cases, arith, Option,
  ◌≡◌, ◌+◌, List, ltb, ◌∷◌, ap, length, total-append, [],
}
use crew_im.Model.{UnderstandingResult}
use crew_im.Queue.{
  TaskQueue, Event, Outcome, blocked, panics, moved, step, start, new_task_queue, capacity,
  enqueue_understand, enqueue_execute, works, stop, understand_worker, execute_worker, work,
  send_understand, send_execute, set_understand, set_execute, understand_move, execute_move,
  after_understand, take_understand, take_execute, UnderstandWorker, ExecuteWorker, awaiting,
  reading, sending, idle, running,
}
use crew_im.Queue.Bounds.{Leaves}
use crew_im.Queue.Ledger.{
  same, held, carried_out, in_hand, entered, read_out, ran_out, finished, run_events, finished_by,
}

moved-inj : (q r : TaskQueue) → moved q ≡ moved r → q ≡ r
moved-inj q r h = cc

module _ (id : ℕ) where
  -- So much comes in and so much goes out, and the rest stays.
  abbrev Balanced : ℕ → ℕ → TaskQueue → TaskQueue → Type 0
  Balanced new done q q' = in_hand id q' + done ≡ in_hand id q + new

  send_understand-Balanced :
      (k : ℕ) (q : TaskQueue) → Leaves (Balanced (same id k) 0 q) (send_understand k q)
  unfolding send_understand in_hand
  send_understand-Balanced k q = elim (Bool-cases q.closed) [
    | inl c ↦ rw c tt
    | inr c ↦ rw c (elim (Bool-cases (ltb (length q.understand_ch) capacity)) [
      | inl l ↦ rw l (omega (arith, total-append (same id) q.understand_ch (k ∷ [])))
      | inr l ↦ rw l tt
    ])
  ]

  send_execute-Balanced :
      (k : ℕ) (q : TaskQueue) → Leaves (Balanced (same id k) 0 q) (send_execute k q)
  unfolding send_execute in_hand
  send_execute-Balanced k q = elim (Bool-cases q.closed) [
    | inl c ↦ rw c tt
    | inr c ↦ rw c (elim (Bool-cases (ltb (length q.execute_ch) capacity)) [
      | inl l ↦ rw l (omega (arith, total-append (same id) q.execute_ch (k ∷ [])))
      | inr l ↦ rw l tt
    ])
  ]

  sent-Balanced :
      (i k : ℕ) (q : TaskQueue)
      → get_elem? q.understand_workers i ≡ some (sending k)
      → Leaves (Balanced 0 0 q) (send_execute k (set_understand i awaiting q))
  unfolding send_execute set_understand in_hand held
  sent-Balanced i k q h =
      let put = total-set (held id) q.understand_workers i (sending k) awaiting h in
      elim (Bool-cases q.closed) [
        | inl c ↦ rw c tt
        | inr c ↦ rw c (elim (Bool-cases (ltb (length q.execute_ch) capacity)) [
          | inl l ↦ rw l (omega (arith, put, total-append (same id) q.execute_ch (k ∷ [])))
          | inr l ↦ rw l tt
        ])
      ]

  take_understand-Balanced :
      (i : ℕ) (q : TaskQueue) (ids : List ℕ)
      → q.understand_ch ≡ ids
      → get_elem? q.understand_workers i ≡ some awaiting
      → Leaves (Balanced 0 0 q) (take_understand i q ids)
  unfolding take_understand set_understand in_hand held
  take_understand-Balanced i q [] e h = tt
  take_understand-Balanced i q (k ∷ ids) e h = omega (
    arith,
    ap (total (same id)) e,
    total-set (held id) q.understand_workers i awaiting (reading k) h,
  )

  take_execute-Balanced :
      (i : ℕ) (q : TaskQueue) (ids : List ℕ)
      → q.execute_ch ≡ ids
      → get_elem? q.execute_workers i ≡ some idle
      → Leaves (Balanced 0 0 q) (take_execute i q ids)
  unfolding take_execute set_execute in_hand carried_out
  take_execute-Balanced i q [] e h = tt
  take_execute-Balanced i q (k ∷ ids) e h = omega (
    arith,
    ap (total (same id)) e,
    total-set (carried_out id) q.execute_workers i idle (running k) h,
  )

  read_out-held :
      (k : ℕ) (result : Option UnderstandingResult)
      → held id (after_understand k result) + read_out id result (some (reading k)) ≡ same id k
  unfolding held after_understand read_out
  read_out-held k none = omega arith
  read_out-held k (some r) = ground arith

  understand_move-Balanced :
      (i : ℕ) (result : Option UnderstandingResult) (q : TaskQueue)
      (found : Option UnderstandWorker)
      → get_elem? q.understand_workers i ≡ found
      → Leaves (Balanced 0 (read_out id result found) q) (understand_move i result q found)
  unfolding understand_move set_understand in_hand held read_out
  understand_move-Balanced i result q none h = tt
  understand_move-Balanced i result q (some awaiting) h =
      take_understand-Balanced i q q.understand_ch refl h
  understand_move-Balanced i result q (some (reading k)) h = omega (
    arith,
    read_out-held k result,
    total-set (held id) q.understand_workers i (reading k) (after_understand k result) h,
  )
  understand_move-Balanced i result q (some (sending k)) h = sent-Balanced i k q h

  execute_move-Balanced :
      (i : ℕ) (q : TaskQueue) (found : Option ExecuteWorker)
      → get_elem? q.execute_workers i ≡ found
      → Leaves (Balanced 0 (ran_out id found) q) (execute_move i q found)
  unfolding execute_move set_execute in_hand carried_out ran_out
  execute_move-Balanced i q none h = tt
  execute_move-Balanced i q (some idle) h = take_execute-Balanced i q q.execute_ch refl h
  execute_move-Balanced i q (some (running k)) h =
      omega (arith, total-set (carried_out id) q.execute_workers i (running k) idle h)

  step-Balanced :
      (e : Event) (q : TaskQueue) → Leaves (Balanced (entered id e) (finished id e q) q) (step e q)
  unfolding step work entered finished in_hand
  step-Balanced (enqueue_understand k) q = send_understand-Balanced k q
  step-Balanced (enqueue_execute k) q = send_execute-Balanced k q
  step-Balanced (works (understand_worker i result)) q =
      understand_move-Balanced i result q (get_elem? q.understand_workers i) refl
  step-Balanced (works (execute_worker i)) q =
      execute_move-Balanced i q (get_elem? q.execute_workers i) refl
  step-Balanced stop q = ground arith

  run_events-Balanced :
      (es : List Event) (q r : TaskQueue)
      → run_events es q ≡ moved r
      → in_hand id r + finished_by id es q ≡ in_hand id q + total (entered id) es
  unfolding run_events finished_by
  run_events-Balanced [] q r h = let same_state = moved-inj q r h in rw same_state (omega arith)
  run_events-Balanced (e ∷ es) q r h =
      by_outcome (step e q) refl (λ q'. run_events-Balanced es q' r)
    where
      by_outcome :
          (o : Outcome)
          → step e q ≡ o
          → ((q' : TaskQueue)
              → run_events es q' ≡ moved r
              → in_hand id r + finished_by id es q' ≡ in_hand id q' + total (entered id) es)
          → in_hand id r + finished_by id (e ∷ es) q ≡ in_hand id q + total (entered id) (e ∷ es)
      by_outcome blocked at_step rest =
          let stuck : blocked ≡ moved r = rw (at_step, run_events) at h in cc
      by_outcome panics at_step rest =
          let stuck : panics ≡ moved r = rw (at_step, run_events) at h in cc
      by_outcome (moved q') at_step rest =
          let later : run_events es q' ≡ moved r = rw (at_step, run_events) at h in
          let one : in_hand id q' + finished id e q ≡ in_hand id q + entered id e =
            rw at_step at (step-Balanced e q) in
          rw (at_step, finished_by) (omega (arith, one, rest q' later))

  start-in_hand : (n : ℕ) → in_hand id (start n new_task_queue) ≡ 0
  unfolding start new_task_queue in_hand held carried_out
  start-in_hand zero = omega arith
  start-in_hand (suc n) = omega (arith, start-in_hand n)

-- For each sequence of moves of handlers, workers and `Stop` from the start on, in any order and with
-- any outcome of the readings, each of which can be made when its turn comes: as often as a task was
-- enqueued, so often it is in a channel or at a worker, or a worker is done with it. None is lost and
-- none is doubled.
pub run_events-accounts :
    (n id : ℕ) (es : List Event) (q : TaskQueue)
    → run_events es (start n new_task_queue) ≡ moved q
    → in_hand id q + finished_by id es (start n new_task_queue) ≡ total (entered id) es
run_events-accounts n id es q h =
    omega (arith, run_events-Balanced id es (start n new_task_queue) q h, start-in_hand id n)
