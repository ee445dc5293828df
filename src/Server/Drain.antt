-- ===== src/Server/Drain.antt =====
-- That the workers come to the end of their jobs, and the tasks with them: worker.go.
use crew_im.Prelude.{
  none, some, refl, get_elem?, ℕ, List, Option, ◌≡◌, [], true, ◌++◌, ◌+◌, ◌≤◌, suc, arith, All, ◌∷◌,
  ◌<◌, some, zero, Option-cases, inl, inr, ap, ◌⊎◌, false, not, ◌||◌, ◌∙◌,
}
use crew_im.World.{World, Enqueued}
use crew_im.Model.{UnderstandingResult, Task}
use crew_im.Tasks.Actions.{row}
use crew_im.Understanding.{understand}
use crew_im.Understanding.Outcome.{understand-Decides, understand_fails}
use crew_im.Runner.Rounds.{IsQuiet}
use crew_im.Orchestrator.Jobs.{execute-enqueued}
use crew_im.Server.{Program, Move, works, hand_on, do_job, work, move, run_moves}
use crew_im.Server.Waiting.{waits, Pending, is_executing}
use crew_im.Server.Pending.{run_moves-Pending}

-- How many moves of the workers the jobs take: a command may leave an execution behind.
unfoldable pub load : List Enqueued → ℕ
load [] = 0
load (Enqueued.understand id ∷ js) = 2 + load js
load (Enqueued.execute id ∷ js) = 1 + load js

-- The workers go on, one job after the other.
unfoldable pub shift : ℕ → List Move
shift zero = []
shift (suc n) = works 0 ∷ shift n

load-append : (js ks : List Enqueued) → load (js ++ ks) ≡ load js + load ks
unfolding load
load-append [] ks = omega arith
load-append (Enqueued.understand id ∷ js) ks = ground (arith, load-append js ks)
load-append (Enqueued.execute id ∷ js) ks = ground (arith, load-append js ks)

hand_on-load :
    (id : ℕ) (result : Option UnderstandingResult) (w : World)
    → load (hand_on id result w).enqueued ≤ load w.enqueued + 1
unfolding hand_on load
hand_on-load id none w = omega arith
hand_on-load id (some r) w =
    let more : load (w.enqueued ++ Enqueued.execute id ∷ []) ≡ load w.enqueued + 1 =
      load-append w.enqueued (Enqueued.execute id ∷ []) in
    ground arith

load_zero : (js : List Enqueued) → load js ≡ 0 → js ≡ []
unfolding load
load_zero [] e = refl
load_zero (Enqueued.understand id ∷ js) e = absurd (omega (arith, e))
load_zero (Enqueued.execute id ∷ js) e = absurd (omega (arith, e))

head_of :
    (js : List Enqueued) → (js ≡ []) ⊎ ((job : Enqueued) × (ks : List Enqueued) × (js ≡ job ∷ ks))
head_of [] = inl refl
head_of (job ∷ js) = inr (job, js, refl)

module _ (p : Program) (up : (n : ℕ) → p.services.db_ok n ≡ true)
    (quiet : All IsQuiet p.runner.registry) where
  do_job-load :
      (job : Enqueued) (w : World) → load (do_job p job w).enqueued < load (job ∷ w.enqueued)
  unfolding do_job load
  do_job-load (Enqueued.understand id) w =
      elim (Option-cases (understand p.services p.understanding id w).0) [
        | inl e ↦
            (let (same, jobs) = understand_fails p.services p.understanding id id w e in
              rw e (rw jobs (omega arith)))
        | inr (r, e) ↦
            (let d = understand-Decides p.services p.understanding id r w up e in
              let w' = (understand p.services p.understanding id w).1 in
              let more = hand_on-load id (some r) w' in rw e (omega (arith, more, ap load d.jobs)))
      ]
  do_job-load (Enqueued.execute id) w =
      rw (execute-enqueued p.services p.runner id w quiet) (omega arith)

  -- With a database that works, the workers bring the jobs to their end, in no more moves than their load.
  shift-enqueued :
      (n : ℕ) (w : World) → load w.enqueued ≤ n → (run_moves p (shift n) w).enqueued ≡ []
  unfolding run_moves shift move work load
  shift-enqueued zero w h = load_zero w.enqueued (omega (arith, h))
  shift-enqueued (suc n) w h = elim (head_of w.enqueued) [
    | inl e ↦
        (let nothing : get_elem? w.enqueued 0 ≡ none = rw e refl in
          let same : work p 0 (get_elem? w.enqueued 0) w ≡ w = ap (λ o. work p 0 o w) nothing in
          ap (λ u. (run_moves p (shift n) u).enqueued) same
          ∙ shift-enqueued n w (rw e (omega arith)))
    | inr (job, js, e) ↦
        let less = do_job-load job (record w { enqueued = js }) in
        rw e (
          shift-enqueued n (do_job p job (record w { enqueued = js }))
            (omega (arith, less, h, ap load e)))
  ]

is_executing-waits :
    (o : Option Task) (js : List Enqueued)
    → js ≡ []
    → (id : ℕ) → (not (is_executing o) || waits id js) ≡ true
    → is_executing o ≡ false
unfolding waits
is_executing-waits o js e id h = let h' = rw e at h in ground arith

-- Whatever happened until now, as requests, commands, follow-ups, jobs of the workers, ticks and
-- routines, each done to its end, from a world in which each executing task had its execution among
-- the jobs: with a database that works, a queue and tools that keep to their tables, the workers
-- come to the end of all jobs when they do as many as the load of those that wait, and then no task is
-- executing.
pub shift-settles :
    (p : Program) (ms : List Move) (w : World)
    → ((n : ℕ) → p.services.db_ok n ≡ true)
    → All IsQuiet p.runner.registry
    → p.tasks.has_queue ≡ true
    → p.commands.has_queue ≡ true
    → ((j : ℕ) → Pending j w)
    → let v = run_moves p ms w in
      let rest = run_moves p (shift (load v.enqueued)) v in
      (rest.enqueued ≡ []) × ((j : ℕ) → is_executing (row j rest) ≡ false)
shift-settles p ms w up quiet queue queue' h =
    let v = run_moves p ms w in
    let n = load v.enqueued in
    let rest = run_moves p (shift n) v in
    let none_left = shift-enqueued p up quiet n v (omega arith) in
    let pending =
      run_moves-Pending p up quiet (shift n) v queue queue'
        (run_moves-Pending p up quiet ms w queue queue' h) in
    (none_left, λ j. is_executing-waits (row j rest) rest.enqueued none_left j (pending j))
