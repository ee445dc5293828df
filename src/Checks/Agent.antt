-- ===== src/Checks/Agent.antt =====
-- Runs of the agent and executions of tasks at concrete inputs.
use crew_im.Prelude.{◌≡◌, refl, false, none, some, [], arith, ◌+◌, ◌*◌}
use crew_im.Model.{cancelled}
use crew_im.World.{ticked}
use crew_im.World.Table.{find_by}
use crew_im.Tools.Registry.{Definition, success}
use crew_im.Claude.Client.{new_claude_client, call, get_text_response, call_anthropic_direct}
use crew_im.Runner.{
  AgentRunner, RunConfig, finished, run_failed, out_of_rounds, error_text, run, rounds,
}
use crew_im.Runner.Cut.{run_cut}
use crew_im.Tasks.Actions.{row}
use crew_im.Orchestrator.{steps_of, execute}
use crew_im.Orchestrator.Outcome.{EndsIn, verdict, goes_well, execute-EndsIn}
use crew_im.Checks.Data.{services, cut_services, task, world}

abbrev runner : AgentRunner
runner = record { claude = new_claude_client "" "key" ""; registry = []; is_open_router = false }

abbrev config : RunConfig
config = record { user_id = 1; task_id = 10; sub_task_id = none; description = "call" }

echo_tool : Definition
echo_tool = record { name = "echo"; description = ""; execute = λ ps ctx w. (success [], w) }

run_done : (run services runner config world).0 ≡ finished "done" 0
unfolding run rounds new_claude_client call call_anthropic_direct get_text_response
run_done = refl

run_cut_example :
    ((run cut_services runner config world).0 ≡ run_failed out_of_rounds)
    × (error_text out_of_rounds ≡ "agent exceeded maximum 10 rounds")
    × ((run cut_services runner config world).1 ≡ record world { tick = world.tick + 1 + 10 * 2 })
unfolding new_claude_client
run_cut_example =
    run_cut cut_services runner config world (λ t q. ("part", refl)) refl refl (λ t u. omega arith)

cancelled_task : row 11 world ≡ some (task 11 1 cancelled)
unfolding find_by
cancelled_task = refl

execute-EndsIn_example :
    let t = task 11 1 cancelled in
    let final =
      verdict (goes_well services runner 11 1 (steps_of t.execution_plan) (ticked world)) in
    EndsIn 11 1 final.0 final.1 world (execute services runner 11 world).1
execute-EndsIn_example =
    execute-EndsIn services runner 11 (task 11 1 cancelled) world (λ n. refl) tt cancelled_task
