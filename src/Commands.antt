-- ===== src/Commands.antt =====
-- `CommandHandler` of server/internal/handler/commands.go: a command comes in as a form with files or
-- as JSON, becomes a task, and goes to the workers or to the user's OpenClaw gateway. Uploads,
-- transcription and the gateway's connection are outcomes given with the request.
pub mod Body
pub mod Effects
use crew_im.Prelude.{
  ℕ, zero, suc, ◌+◌, ◌-◌, ◌*◌, ◌/◌, ◌%◌, ◌≤◌, ◌<◌, String, ◌≡◌, refl, sym, ap, ◌∙◌, ◌≢◌, ◌↔◌, ◌⊎◌,
  inl, inr, Bool, true, false, ◌&&◌, ◌||◌, not, Option, none, some, List, [], ◌∷◌, ◌++◌, map, arith,
  ltb, leb, ◌==◌, if◌then◌else◌, ltb→lt, lt→ltb, leb→le, ==_iff, Bool-cases, Option-cases, All,
  length, take, last?, keep, length-append, last?-append, length-keep-le, All-append, All-keep,
  All-map, Bytes, bytes_eq, bytes_eq_iff, bytes_eq_refl, eq_of_bytes_eq, bytes_ne, is_empty, join,
  ◌<>◌, decimal, str_eq, str_eq_iff, trim_space, trim_prefix, trim_suffix, Result, ok, err,
}
use crew_im.Model.{
  Task, TaskStatus, TaskBrief, PushEvent, TaskRef, uuid, no_uuid, Params, created, task_created,
  task_progress,
}
use crew_im.World.{
  World, Services, Io, Session, UserProfile, understand, route_via_open_claw, ◌>>=◌, ◌>>◌, pure,
  query_row, insert_row, exec, send, start, enqueue, is_none,
}
use crew_im.World.Table.{find_by, update_by, map_option}
use crew_im.Tools.Registry.{string_param}
use crew_im.Commands.Body.{CommandBody, Command, read_body, command_text}

pub record CommandHandler : Type 0 where
  -- whether `Queue`, `OpenClawClient` and `ASR` are not nil
  pub has_queue : Bool
  pub has_open_claw : Bool
  -- `ASR.Transcribe`, where there is one: the text of a saved file, or an error
  pub transcribe : Option (String → Option String)

pub data CommandReply : Type 0 where
  http_error : ℕ → CommandReply
  accepted : ℕ → Bool → CommandReply

-- The value of a UUID column: `none` is a text that the statement cannot take.
unfoldable pub column : Option TaskRef → Option (Option ℕ)
column none = some none
column (some (uuid n)) = some (some n)
column (some (no_uuid s)) = none

unfoldable pub created_event : ℕ → String → ℕ → PushEvent
created_event id input at = record {
  event_type = task_created;
  task_id = none;
  task = some (record {
    id = some id;
    input_text = input;
    understanding = "";
    status = created;
    created_at = some at;
    steps = [];
  });
  message = "";
  result = none;
  reason = "";
  step = none;
  session_id = none;
  title = "";
}

unfoldable pub new_task : ℕ → ℕ → ℕ → Option ℕ → Option ℕ → Command → String → Task
new_task id user now session parent c text = record {
  id = id;
  user_id = user;
  session_id = session;
  parent_task_id = parent;
  input_text = some text;
  input_audio_url = c.audio_url;
  input_image_urls = c.image_urls;
  understanding = none;
  execution_plan = none;
  risk_level = none;
  intent_type = none;
  status = created;
  result = none;
  error = none;
  created_at = now;
  updated_at = now;
}

-- `INSERT INTO tasks … RETURNING id, created_at`
insert_at : Services → ℕ → Command → String → Option (Option ℕ) → Option (Option ℕ) → Io (Option ℕ)
insert_at sv user c text (some session) (some parent) w =
    insert_row sv (λ id v. is_none (find_by (λ (t : Task). t.id) id v.tasks))
      (λ id v. record v {
        tasks = v.tasks ++ new_task id user (sv.now w.tick) session parent c text ∷ [];
      })
      w
insert_at sv user c text session parent w = insert_row sv (λ id v. false) (λ id v. v) w

unfoldable pub insert_task : Services → ℕ → Command → String → Io (Option ℕ)
unfolding insert_at column
insert_task sv user c text =
    insert_at sv user c text (column c.session_id) (column c.parent_task_id)

-- `UPDATE sessions SET updated_at = NOW() WHERE id = $1`
unfoldable pub touch_session : Services → Option ℕ → Io (Unit {0})
touch_session sv none w = (tt, w)
touch_session sv (some session) w = (
  tt,
  (exec sv
      (λ v. record v {
        sessions =
            update_by (λ (s : Session). s.id) session (λ s. record s { updated_at = sv.now w.tick })
              v.sessions;
      })
      w).1,
)

session_of : Option TaskRef → Option ℕ
session_of (some (uuid n)) = some n
session_of _ = none

-- `GetGatewayURL` of openclaw/client.go
gateway_in : Option UserProfile → String
gateway_in none = ""
gateway_in (some p) = string_param p.profile "openclaw_gateway_url"

unfoldable pub get_gateway_url : Services → ℕ → Io String
unfolding gateway_in
get_gateway_url sv user w =
    let (p, w') =
      query_row sv (λ v. find_by (λ (p : UserProfile). p.user_id) user v.user_profiles) w in
    (gateway_in p, w')

-- The task goes to the gateway, where the user has one, or to the workers.
unfoldable pub route : Services → CommandHandler → ℕ → ℕ → String → Io CommandReply
route sv h user id input w =
    let (url, w₁) = get_gateway_url sv user w in
    if h.has_open_claw
    then (if not (is_empty url)
        then (accepted id true, (start (route_via_open_claw user id input) w₁).1)
        else (accepted id false, (enqueue h.has_queue (understand id) w₁).1))
    else (accepted id false, (enqueue h.has_queue (understand id) w).1)

inserted : Services → CommandHandler → ℕ → Option TaskRef → String → ℕ → Option ℕ → Io CommandReply
inserted sv h user session input at none w = (http_error 500, w)
inserted sv h user session input at (some id) w =
    let (touched, w₁) = touch_session sv (session_of session) w in
    let (told, w₂) = send user (created_event id input at) w₁ in route sv h user id input w₂

unfoldable pub create_command : Services → CommandHandler → ℕ → CommandBody → Io CommandReply
unfolding inserted session_of
create_command sv h user body w =
    let c = read_body h.transcribe body in
    if is_empty (command_text c.text)
    then (http_error 400, w)
    else (let (id, w') = insert_task sv user c (command_text c.text) w in
        inserted sv h user c.session_id (command_text c.text) (sv.now w.tick) id w')

-- How the connection to the gateway and the message to it come out.
pub record Gateway : Type 0 where
  pub connected : Bool
  pub message_sent : Bool

unfoldable pub gateway_progress : ℕ → PushEvent
gateway_progress id = record {
  event_type = task_progress;
  task_id = some id;
  task = none;
  message = "正在通过 OpenClaw 处理…";
  result = none;
  reason = "";
  step = none;
  session_id = none;
  title = "";
}

-- `routeViaOpenClaw`, the routine: the workers take over where the gateway fails.
unfoldable pub route_via_gateway : CommandHandler → Gateway → ℕ → ℕ → Io (Unit {0})
route_via_gateway h g user id w =
    if not g.connected
    then enqueue h.has_queue (understand id) w
    else (let (told, w') = send user (gateway_progress id) w in
        if g.message_sent then (tt, w') else enqueue h.has_queue (understand id) w')

-- The session of a parent that belongs to the user.
inherited : ℕ → Option Task → Option ℕ
inherited user none = none
inherited user (some t) = if t.user_id == user then t.session_id else none

no_session : Option (Option ℕ) → Option ℕ
no_session none = none
no_session (some s) = s

as_ref : Option ℕ → Option TaskRef
as_ref none = none
as_ref (some n) = some (uuid n)

followed : Services → CommandHandler → ℕ → Option ℕ → String → ℕ → Option ℕ → Io CommandReply
followed sv h user session text at none w = (http_error 500, w)
followed sv h user session text at (some id) w =
    let (touched, w₁) = touch_session sv session w in
    let (told, w₂) = send user (created_event id text at) w₁ in
    (accepted id false, (enqueue h.has_queue (understand id) w₂).1)

unfoldable pub follow_up : Services → CommandHandler → ℕ → ℕ → String → Io CommandReply
unfolding followed inherited no_session as_ref
follow_up sv h user parent text w =
    if is_empty text
    then (http_error 400, w)
    else (let (found, w₁) =
          query_row sv
            (λ v.
              map_option (λ (t : Task). inherited user (some t))
                (find_by (λ (t : Task). t.id) parent v.tasks))
            w in
        let session = no_session found in
        let c : Command = record {
          text = some text;
          parent_task_id = some (uuid parent);
          session_id = as_ref session;
          audio_url = none;
          image_urls = [];
        } in
        let (id, w₂) = insert_task sv user c text w₁ in
        followed sv h user session text (sv.now w₁.tick) id w₂)
