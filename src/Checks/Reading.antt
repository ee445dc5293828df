-- ===== src/Checks/Reading.antt =====
-- Readings of commands at concrete inputs.
use crew_im.Prelude.{trim_space, trim_suffix, trim_prefix, ◌≡◌, refl, none, some}
use crew_im.Model.{executing}
use crew_im.World.Table.{find_by}
use crew_im.Claude.Client.{new_claude_client, call, get_text_response, call_anthropic_direct}
use crew_im.Understanding.{
  UnderstandingService, understand, ask_model, after_call, record_answer, interpret, strip_fences,
}
use crew_im.Tasks.Actions.{row}
use crew_im.Understanding.Outcome.{Decides, understand-Decides, understand_fails}
use crew_im.Checks.Data.{services, world}

-- A parser that takes nothing, so that every answer becomes a plan of one step.
abbrev pub reader : UnderstandingService
reader = record { claude = new_claude_client "" "key" ""; parse = λ s. none }

-- No service has a key.
abbrev keyless : UnderstandingService
keyless = record { claude = new_claude_client "" "" ""; parse = λ s. none }

understand_done : (understand services reader 10 world).0 ≡ some (interpret none "done")
unfolding understand ask_model after_call record_answer new_claude_client call call_anthropic_direct
    get_text_response strip_fences find_by trim_space trim_suffix trim_prefix
understand_done = refl

understand-keyless : (understand services keyless 10 world).0 ≡ none
unfolding understand ask_model after_call new_claude_client call call_anthropic_direct find_by
understand-keyless = refl

understand-Decides_example : Decides 10 executing world (understand services reader 10 world).1
unfolding interpret
understand-Decides_example =
    understand-Decides services reader 10 (interpret none "done") world (λ n. refl) understand_done

understand_fails_example :
    (row 20 (understand services keyless 10 world).1 ≡ row 20 world)
    × ((understand services keyless 10 world).1.enqueued ≡ world.enqueued)
understand_fails_example = understand_fails services keyless 10 20 world understand-keyless
