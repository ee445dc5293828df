-- ===== src/Checks/Server.antt =====
-- Runs of the whole server at concrete inputs.
use crew_im.Prelude.{ℕ, ◌≡◌, refl, List, [], ◌∷◌, false, arith, some}
use crew_im.Model.{waiting_confirm}
use crew_im.World.Table.{update_by, find_by}
use crew_im.Runner.{AgentRunner}
use crew_im.Tools.Box.{tools, tools-IsQuiet}
use crew_im.Tasks.Actions.{row, confirm, act}
use crew_im.Tasks.Batch.{one, serve}
use crew_im.World.Foreign.{Foreign}
use crew_im.Server.{move, Program, Move, asks, commands, follows_up, works, goes, ticks, run_moves}
use crew_im.Server.Waiting.{Pending, is_executing}
use crew_im.Server.Owners.{Deed, moves, deletes_account, deed, run_deeds, SparedTask, run_deeds-row}
use crew_im.Checks.Login.{handler as login_handler}
use crew_im.Tasks.{confirm_task, select_status}
use crew_im.Server.Drain.{load, shift, shift-settles}
use crew_im.Server.Pending.{run_moves-Pending}
use crew_im.Checks.Data.{services, world, task}
use crew_im.Checks.Tasks.{handler as task_handler}
use crew_im.Checks.Commands.{body, unreachable, handler as command_handler}
use crew_im.Checks.Reading.{reader}
use crew_im.Checks.Schedules.{calendar}
use crew_im.Checks.Toolbox.{box}
use crew_im.Claude.Client.{new_claude_client}

-- An agent with all tools.
abbrev agent : AgentRunner
agent = record {
  claude = new_claude_client "" "key" "";
  registry = tools services box;
  is_open_router = false;
}

abbrev server : Program
server = record {
  services = services;
  tasks = task_handler;
  commands = command_handler;
  understanding = reader;
  runner = agent;
  calendar = calendar;
}

-- A confirmation, a command and a follow-up, which the workers take up while the scheduler ticks.
abbrev day : List Move
day =
    asks 1 (one confirm 10)
    ∷ commands 1 body
    ∷ works 1
    ∷ ticks
    ∷ follows_up 1 10 "and dinner"
    ∷ works 0
    ∷ goes 0 unreachable
    ∷ works 0
    ∷ []

nothing-Pending : (j : ℕ) → Pending j world
unfolding find_by
nothing-Pending j = ground arith

run_moves-Pending_example : Pending 10 (run_moves server day world)
run_moves-Pending_example =
    run_moves-Pending server (λ n. refl) (tools-IsQuiet services box) day world refl refl
      nothing-Pending 10

shift-settles_example :
    let v = run_moves server day world in
    let rest = run_moves server (shift (load v.enqueued)) v in
    (rest.enqueued ≡ []) × ((j : ℕ) → is_executing (row j rest) ≡ false)
shift-settles_example =
    shift-settles server day world (λ n. refl) (tools-IsQuiet services box) refl refl
      nothing-Pending

-- User 1 has a task confirmed and executed and deletes the account, while the task of user 2 waits.
abbrev errand : List Deed
errand = moves (asks 1 (one confirm 10)) ∷ moves (works 0) ∷ moves ticks ∷ deletes_account 1 ∷ []

errand-SparedTask : SparedTask server login_handler 2 20 errand world
unfolding deed move serve act confirm_task select_status find_by update_by
errand-SparedTask = (λ e. cc, (refl, (tt, (λ e. cc, tt))))

task_there : row 20 world ≡ some (task 20 2 waiting_confirm)
unfolding find_by
task_there = refl

run_deeds-row_example :
    row 20 (run_deeds server login_handler errand world) ≡ some (task 20 2 waiting_confirm)
run_deeds-row_example =
    run_deeds-row server login_handler (λ n. refl) (tools-IsQuiet services box) 20
      (task 20 2 waiting_confirm) errand world task_there errand-SparedTask
