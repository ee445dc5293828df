-- ===== src/Checks/Commands.antt =====
-- Commands at concrete inputs.
use crew_im.Prelude.{◌≡◌, true, false, none, some, [], ◌∷◌}
use crew_im.Model.{uuid, no_uuid}
use crew_im.World.{understand}
use crew_im.Commands.{CommandHandler, Gateway, create_command, route_via_gateway}
use crew_im.Commands.Body.{CommandBody, read_body, command_text}
use crew_im.Commands.Effects.{Answers}
use crew_im.Commands.Effects.Replies.{create_command-Answers, route_via_gateway_jobs}
use crew_im.Checks.Data.{services, world}

abbrev pub handler : CommandHandler
handler = record { has_queue = true; has_open_claw = false; transcribe = none }

abbrev pub body : CommandBody
body = record {
  content_type = [];
  form = record {
    text = "";
    parent_task_id = no_uuid "";
    session_id = no_uuid "";
    audio = none;
    parts = [];
  };
  json = record { text = some "order lunch"; parent_task_id = none; session_id = some (uuid 5) };
}

create_command-Answers_example :
    Answers true 1
      (command_text (read_body none body).text)
      world
      (create_command services handler 1 body world).0
      (create_command services handler 1 body world).1
create_command-Answers_example = create_command-Answers services handler 1 body world

abbrev pub unreachable : Gateway
unreachable = record { connected = false; message_sent = false }

route_via_gateway_jobs_example :
    ((route_via_gateway handler unreachable 1 10 world).1.tasks ≡ world.tasks)
    × ((route_via_gateway handler unreachable 1 10 world).1.enqueued ≡ understand 10 ∷ [])
route_via_gateway_jobs_example = route_via_gateway_jobs handler unreachable 1 10 world
