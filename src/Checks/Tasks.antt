-- ===== src/Checks/Tasks.antt =====
-- The task actions at concrete inputs.
use crew_im.Prelude.{
  ◌+◌, ◌≡◌, refl, true, ◌&&◌, none, some, [], ◌∷◌, ◌++◌, arith, ◌==◌, if◌then◌else◌,
}
use crew_im.Model.{waiting_confirm, executing}
use crew_im.World.{execute}
use crew_im.World.Table.{update_by, find_by, map_option}
use crew_im.Tasks.{
  batch_one, TaskHandler, task_status, confirmed_tasks, confirm_task, batch_confirm, batch_loop,
  select_status,
}
use crew_im.Tasks.Actions.{
  confirm, cancel, retry, act, row, step_of, moved, row-act, reply-act, granted_status, code_of,
  refusal_code, job_of,
}
use crew_im.Tasks.Batch.{
  confirm_each, batch_loop-eq-confirm_each, Distinct, confirmed_of, batch_confirm-Distinct, one,
  batch, serve, serve-foreign,
}
use crew_im.Checks.Data.{services, task, world}

abbrev pub handler : TaskHandler
handler = record { has_queue = true }

row-act_example :
    row 10 (act services handler confirm 1 10 world).1
    ≡ elim (step_of services confirm 1 10 world) [
      | none ↦ row 10 world
      | some s ↦
          if 10 == 10 && services.db_ok (world.tick + 1)
          then map_option (moved confirm (services.now (world.tick + 1)) s) (row 10 world)
          else row 10 world
    ]
row-act_example = row-act services handler confirm 1 10 10 world

-- The waiting task is confirmed, and handed to the workers; a second time it is refused.
confirms :
    confirm_task services handler 1 10 world
    ≡ (task_status 10 executing, (confirm_task services handler 1 10 world).1)
unfolding confirm_task select_status find_by
confirms = refl

confirms_once :
    let w = (batch_confirm services handler 1 (10 ∷ 10 ∷ 20 ∷ []) world).1 in
    ((batch_confirm services handler 1 (10 ∷ 10 ∷ 20 ∷ []) world).0 ≡ confirmed_tasks (10 ∷ []) 1)
    × (w.enqueued ≡ (execute 10 ∷ []))
unfolding batch_confirm batch_loop batch_one select_status find_by update_by
confirms_once = (refl, refl)

reply-act_example :
    let (reply, w') = act services handler retry 1 10 world in
    (granted_status reply ≡ step_of services retry 1 10 world)
    × (code_of reply ≡ elim (step_of services retry 1 10 world) [
      | none ↦
          refusal_code retry (if services.db_ok world.tick then select_status 10 1 world else none)
      | some s ↦ 200
    ])
    × (w'.enqueued ≡ elim (step_of services retry 1 10 world) [
      | none ↦ world.enqueued
      | some s ↦ if handler.has_queue then world.enqueued ++ job_of retry 10 else world.enqueued
    ])
reply-act_example = reply-act services handler retry 1 10 world

batch_loop-eq-confirm_each_example :
    batch_loop services handler 1 (10 ∷ 10 ∷ 20 ∷ []) [] world
    ≡ confirm_each services handler 1 (10 ∷ 10 ∷ 20 ∷ []) [] world
batch_loop-eq-confirm_each_example =
    batch_loop-eq-confirm_each services handler 1 (10 ∷ 10 ∷ 20 ∷ []) [] world

batch_confirm-Distinct_example :
    Distinct (confirmed_of (batch_confirm services handler 1 (10 ∷ 10 ∷ 20 ∷ []) world).0)
batch_confirm-Distinct_example =
    batch_confirm-Distinct services handler 1 (10 ∷ 10 ∷ 20 ∷ []) world (λ n. refl)

foreign_task : row 20 world ≡ some (task 20 2 waiting_confirm)
unfolding find_by
foreign_task = refl

serve-foreign_example :
    row 20 (serve services handler 1 (one cancel 20 ∷ batch (10 ∷ 20 ∷ []) ∷ []) world)
    ≡ some (task 20 2 waiting_confirm)
serve-foreign_example =
    serve-foreign services handler 1 20 (one cancel 20 ∷ batch (10 ∷ 20 ∷ []) ∷ []) world
      (task 20 2 waiting_confirm) foreign_task (omega arith)
