-- ===== src/Server/Workers.antt =====
-- That the workers lose no execution: the loops of worker.go.
use crew_im.Prelude.{
  false, true, get_elem?, remove_at, ℕ, ◌≡◌, refl, ◌⊎◌, inl, inr, Bool, true, ◌||◌, not, Option,
  none, some, [], ◌∷◌, ◌++◌, arith, ◌==◌, if◌then◌else◌, ==_iff, Bool-cases, Option-cases, All,
}
use crew_im.Model.{Task, executing, waiting_confirm, UnderstandingResult}
use crew_im.World.{ticked, World, Enqueued, ticked}
use crew_im.World.Table.{map_option}
use crew_im.Tasks.Actions.{row}
use crew_im.Understanding.{understand}
use crew_im.Understanding.Outcome.{understand-Decides, understand_fails}
use crew_im.Runner.Rounds.{IsQuiet}
use crew_im.Orchestrator.{execute, steps_of}
use crew_im.Orchestrator.Outcome.{execute-EndsIn, verdict, goes_well}
use crew_im.Orchestrator.Jobs.{execute-enqueued, execute_missing}
use crew_im.Server.{Program, hand_on, do_job, work}
use crew_im.Server.Waiting.{
  waits, Pending, is_status, waits-append, waits-remove_at, status_Pending,
}

verdict_settled : (well b : Bool) → (not (is_status (verdict well).0) || b) ≡ true
verdict_settled true b = refl
verdict_settled false b = refl

module _ (p : Program) (up : (n : ℕ) → p.services.db_ok n ≡ true)
    (quiet : All IsQuiet p.runner.registry) where
  hand_on-Pending :
      (j id : ℕ) (result : Option UnderstandingResult) (w : World)
      → Pending j w
      → Pending j (hand_on id result w)
  unfolding hand_on
  hand_on-Pending j id none w h = h
  hand_on-Pending j id (some r) w h =
      let more = waits-append j w.enqueued (Enqueued.execute id ∷ []) in ground arith

  handed_on-Pending :
      (id : ℕ) (r : UnderstandingResult) (v w : World)
      → map_option (λ (u : Task). u.status) (row id w)
        ≡ map_option
            (λ (u : Task).
              if r.execution_plan.requires_confirmation then waiting_confirm else executing)
            (row id v)
      → Pending id (hand_on id (some r) w)
  unfolding hand_on waits
  handed_on-Pending id r v w h = elim (Bool-cases r.execution_plan.requires_confirmation) [
    | inl e ↦ rw e (status_Pending id waiting_confirm (row id v) w (rw e at h) refl)
    | inr e ↦
        (let jobs = w.enqueued ++ Enqueued.execute id ∷ [] in
          let there : waits id jobs ≡ true =
            ground (arith, waits-append id w.enqueued (Enqueued.execute id ∷ [])) in
          rw e (
            status_Pending id executing (row id v) (record w { enqueued = jobs }) (rw e at h)
              there))
  ]

  read-Pending :
      (j id : ℕ) (v : World) → Pending j v → Pending j (do_job p (Enqueued.understand id) v)
  unfolding do_job
  read-Pending j id v h = elim (Option-cases (understand p.services p.understanding id v).0) [
    | inl e ↦
        (let (same, jobs) = understand_fails p.services p.understanding id j v e in
          rw e (rw (same, jobs) h))
    | inr (r, e) ↦
        (let d = understand-Decides p.services p.understanding id r v up e in
          let w' = (understand p.services p.understanding id v).1 in
          rw e (elim (Bool-cases (id == j)) [
            | inl here ↦
                let same = (==_iff id j).0 here in
                rw (← same) (handed_on-Pending id r v w' d.addressed)
            | inr other ↦ hand_on-Pending j id (some r) w' (rw (d.others j other, d.jobs) h)
          ]))
  ]

  executed-Pending :
      (j id : ℕ) (v : World)
      → (id == j) ≡ true ⊎ Pending j v
      → Pending j (do_job p (Enqueued.execute id) v)
  unfolding do_job
  executed-Pending j id v h =
      let jobs = execute-enqueued p.services p.runner id v quiet in
      elim (Option-cases (row id v)) [
        | inl missing ↦
            (let same = execute_missing p.services p.runner id v missing in
              rw (same, jobs)
                (elim h [
                  | inl here ↦ (let at_j = (==_iff id j).0 here in rw (← at_j) (rw missing refl))
                  | inr pending ↦ pending
                ]))
        | inr (t, there) ↦
            (let e = execute-EndsIn p.services p.runner id t v up quiet there in
              elim (Bool-cases (id == j)) [
                | inl here ↦
                    (let at_j = (==_iff id j).0 here in
                      rw (← at_j) (
                        let o =
                          goes_well p.services p.runner id t.user_id (steps_of t.execution_plan)
                            (ticked v) in
                        let v' = (execute p.services p.runner id v).1 in
                        status_Pending id (verdict o).0 (row id v) v' e.addressed
                          (verdict_settled o (waits id v'.enqueued))))
                | inr other ↦
                    rw (e.others j other, jobs) (elim h [ inl here ↦ cc | inr pending ↦ pending ])
              ])
      ]

  pub work-Pending :
      (j i : ℕ) (o : Option Enqueued) (w : World)
      → get_elem? w.enqueued i ≡ o
      → Pending j w
      → Pending j (work p i o w)
  unfolding work waits
  work-Pending j i none w e h = h
  work-Pending j i (some (Enqueued.understand id)) w e h =
      let rest = waits-remove_at j i (Enqueued.understand id) w.enqueued e in
      read-Pending j id (record w { enqueued = remove_at i w.enqueued }) (rw rest at h)
  work-Pending j i (some (Enqueued.execute id)) w e h =
      let rest = waits-remove_at j i (Enqueued.execute id) w.enqueued e in
      executed-Pending j id (record w { enqueued = remove_at i w.enqueued })
        (elim (Bool-cases (id == j)) [ inl here ↦ inl here | inr other ↦ inr (ground arith) ])
