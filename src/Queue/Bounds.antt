-- ===== src/Queue/Bounds.antt =====
-- What holds of the channels and workers in every state of the queue.
use crew_im.Prelude.{
  ℕ, zero, suc, ◌≤◌, ◌≡◌, refl, ap, ◌∙◌, inl, inr, Option, none, some, List, [], ◌∷◌, arith, ltb,
  ltb→lt, Bool-cases, length, length-append, get_elem?, length-set,
}
use crew_im.Model.{UnderstandingResult}
use crew_im.Queue.{
  TaskQueue, Event, Outcome, blocked, panics, moved, step, start, new_task_queue, capacity,
  enqueue_understand, enqueue_execute, works, stop, understand_worker, execute_worker, work,
  send_understand, send_execute, set_understand, set_execute, understand_move, execute_move,
  take_understand, take_execute, UnderstandWorker, ExecuteWorker, awaiting, reading, sending, idle,
  running,
}

-- The events lead from a state to another.
pub data Reaches (q : TaskQueue) : TaskQueue → Type 0 where
  here : Reaches q q
  further : {q' q'' : TaskQueue} (e : Event) → Reaches q q' → step e q' ≡ moved q'' → Reaches q q''

-- No channel holds more than its capacity, and there are so many workers of each kind.
pub record Bounded (n : ℕ) (q : TaskQueue) : Type 0 where
  pub understand_bound : length q.understand_ch ≤ capacity
  pub execute_bound : length q.execute_ch ≤ capacity
  pub understand_count : length q.understand_workers ≡ n
  pub execute_count : length q.execute_workers ≡ n

-- What an outcome leaves, where it leaves a state.
abbrev pub Leaves {ℓ} : (TaskQueue → Type ℓ) → Outcome → Type ℓ
Leaves P blocked = Unit
Leaves P panics = Unit
Leaves P (moved q) = P q

start-Bounded : (n : ℕ) → Bounded n (start n new_task_queue)
unfolding start new_task_queue
start-Bounded zero = record {
  understand_bound = omega arith;
  execute_bound = omega arith;
  understand_count = refl;
  execute_count = refl;
}
start-Bounded (suc n) =
    let b = start-Bounded n in
    record {
      understand_bound = b.understand_bound;
      execute_bound = b.execute_bound;
      understand_count = ap suc b.understand_count;
      execute_count = ap suc b.execute_count;
    }

module _ (n : ℕ) where
  send_understand-Bounded :
      (id : ℕ) (q : TaskQueue) → Bounded n q → Leaves (Bounded n) (send_understand id q)
  unfolding send_understand
  send_understand-Bounded id q b = elim (Bool-cases q.closed) [
    | inl c ↦ rw c tt
    | inr c ↦ rw c (elim (Bool-cases (ltb (length q.understand_ch) capacity)) [
      | inl l ↦ rw l (record {
        understand_bound = omega (arith, length-append q.understand_ch (id ∷ []), ltb→lt _ _ l);
        execute_bound = b.execute_bound;
        understand_count = b.understand_count;
        execute_count = b.execute_count;
      })
      | inr l ↦ rw l tt
    ])
  ]

  send_execute-Bounded :
      (id : ℕ) (q : TaskQueue) → Bounded n q → Leaves (Bounded n) (send_execute id q)
  unfolding send_execute
  send_execute-Bounded id q b = elim (Bool-cases q.closed) [
    | inl c ↦ rw c tt
    | inr c ↦ rw c (elim (Bool-cases (ltb (length q.execute_ch) capacity)) [
      | inl l ↦ rw l (record {
        understand_bound = b.understand_bound;
        execute_bound = omega (arith, length-append q.execute_ch (id ∷ []), ltb→lt _ _ l);
        understand_count = b.understand_count;
        execute_count = b.execute_count;
      })
      | inr l ↦ rw l tt
    ])
  ]

  set_understand-Bounded :
      (i : ℕ) (u : UnderstandWorker) (q : TaskQueue)
      → Bounded n q
      → Bounded n (set_understand i u q)
  unfolding set_understand
  set_understand-Bounded i u q b = record {
    understand_bound = b.understand_bound;
    execute_bound = b.execute_bound;
    understand_count = length-set q.understand_workers i u ∙ b.understand_count;
    execute_count = b.execute_count;
  }

  set_execute-Bounded :
      (i : ℕ) (e : ExecuteWorker) (q : TaskQueue) → Bounded n q → Bounded n (set_execute i e q)
  unfolding set_execute
  set_execute-Bounded i e q b = record {
    understand_bound = b.understand_bound;
    execute_bound = b.execute_bound;
    understand_count = b.understand_count;
    execute_count = length-set q.execute_workers i e ∙ b.execute_count;
  }

  take_understand-Bounded :
      (i : ℕ) (q : TaskQueue) (ids : List ℕ)
      → length ids ≤ capacity
      → Bounded n q
      → Leaves (Bounded n) (take_understand i q ids)
  unfolding take_understand
  take_understand-Bounded i q [] h b = tt
  take_understand-Bounded i q (id ∷ ids) h b = set_understand-Bounded i (reading id) _ (record {
    understand_bound = omega arith;
    execute_bound = b.execute_bound;
    understand_count = b.understand_count;
    execute_count = b.execute_count;
  })

  take_execute-Bounded :
      (i : ℕ) (q : TaskQueue) (ids : List ℕ)
      → length ids ≤ capacity
      → Bounded n q
      → Leaves (Bounded n) (take_execute i q ids)
  unfolding take_execute
  take_execute-Bounded i q [] h b = tt
  take_execute-Bounded i q (id ∷ ids) h b = set_execute-Bounded i (running id) _ (record {
    understand_bound = b.understand_bound;
    execute_bound = omega arith;
    understand_count = b.understand_count;
    execute_count = b.execute_count;
  })

  understand_move-Bounded :
      (i : ℕ) (result : Option UnderstandingResult) (q : TaskQueue)
      (found : Option UnderstandWorker)
      → Bounded n q
      → Leaves (Bounded n) (understand_move i result q found)
  unfolding understand_move
  understand_move-Bounded i result q none b = tt
  understand_move-Bounded i result q (some awaiting) b =
      take_understand-Bounded i q q.understand_ch b.understand_bound b
  understand_move-Bounded i result q (some (reading id)) b = set_understand-Bounded i _ q b
  understand_move-Bounded i result q (some (sending id)) b =
      send_execute-Bounded id _ (set_understand-Bounded i awaiting q b)

  execute_move-Bounded :
      (i : ℕ) (q : TaskQueue) (found : Option ExecuteWorker)
      → Bounded n q
      → Leaves (Bounded n) (execute_move i q found)
  unfolding execute_move
  execute_move-Bounded i q none b = tt
  execute_move-Bounded i q (some idle) b = take_execute-Bounded i q q.execute_ch b.execute_bound b
  execute_move-Bounded i q (some (running id)) b = set_execute-Bounded i idle q b

  pub step-Bounded : (e : Event) (q : TaskQueue) → Bounded n q → Leaves (Bounded n) (step e q)
  unfolding step work
  step-Bounded (enqueue_understand id) q b = send_understand-Bounded id q b
  step-Bounded (enqueue_execute id) q b = send_execute-Bounded id q b
  step-Bounded (works (understand_worker i result)) q b =
      understand_move-Bounded i result q (get_elem? q.understand_workers i) b
  step-Bounded (works (execute_worker i)) q b =
      execute_move-Bounded i q (get_elem? q.execute_workers i) b
  step-Bounded stop q b = elim (Bool-cases q.closed) [
    | inl c ↦ rw c tt
    | inr c ↦ rw c (record {
      understand_bound = b.understand_bound;
      execute_bound = b.execute_bound;
      understand_count = b.understand_count;
      execute_count = b.execute_count;
    })
  ]

  -- In every state that is reached from the start with n workers of each kind no channel holds more
  -- than a hundred tasks, and there are n places of workers of each kind.
  pub Reaches-Bounded : (q : TaskQueue) → Reaches (start n new_task_queue) q → Bounded n q
  Reaches-Bounded q here = start-Bounded n
  Reaches-Bounded q (further {q' = q'} e r h) = rw h at (step-Bounded e q' (Reaches-Bounded q' r))
