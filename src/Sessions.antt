-- ===== src/Sessions.antt =====
-- `SessionHandler` of server/internal/handler/sessions.go over the tables of sessions and tasks. A
-- body that cannot be decoded is `none`. The identifier of a path is that of a row.
pub mod Owners
use crew_im.Prelude.{
  ℕ, zero, suc, ◌+◌, ◌-◌, ◌*◌, ◌/◌, ◌%◌, ◌≤◌, ◌<◌, String, ◌≡◌, refl, sym, ap, ◌∙◌, ◌≢◌, ◌↔◌, ◌⊎◌,
  inl, inr, Bool, true, false, ◌&&◌, ◌||◌, not, Option, none, some, List, [], ◌∷◌, ◌++◌, map, arith,
  ltb, leb, ◌==◌, if◌then◌else◌, ltb→lt, lt→ltb, leb→le, ==_iff, Bool-cases, Option-cases, All,
  length, take, last?, keep, length-append, last?-append, length-keep-le, All-append, All-keep,
  All-map, Bytes, bytes_eq, bytes_eq_iff, bytes_eq_refl, eq_of_bytes_eq, bytes_ne, is_empty, join,
  ◌<>◌, decimal, str_eq, str_eq_iff, trim_space, trim_prefix, trim_suffix, Result, ok, err,
}
use crew_im.Model.{Task, TaskRef, uuid, no_uuid}
use crew_im.World.{World, Services, Session, Io, exec, insert_row, query_row, clock, is_none}
use crew_im.World.Table.{find_by, update_by}
use crew_im.Understanding.Context.{latest_first}
use crew_im.Orchestrator.{or_empty}

pub record CreateRequest : Type 0 where
  -- `no_uuid ""` where the request has none
  pub id : TaskRef
  pub title : Option String

pub data SessionReply : Type 0 where
  http_error : ℕ → SessionReply
  created : ℕ → Option String → ℕ → SessionReply
  success : SessionReply

abbrev pub new_session : ℕ → ℕ → Option String → ℕ → Session
new_session id user title now = record {
  id = id;
  user_id = user;
  title = title;
  created_at = now;
  updated_at = now;
}

-- `COALESCE(EXCLUDED.title, sessions.title)`
coalesce : Option String → Option String → Option String
coalesce none old = old
coalesce (some s) old = some s

-- `INSERT INTO sessions … ON CONFLICT (id) DO UPDATE SET …`
unfoldable pub upsert : ℕ → ℕ → Option String → ℕ → List Session → List Session
unfolding coalesce
upsert id user title now rows =
    if is_none (find_by (λ (s : Session). s.id) id rows)
    then rows ++ new_session id user title now ∷ []
    else update_by (λ (s : Session). s.id) id
        (λ s. record s { title = coalesce title s.title; updated_at = now }) rows

reply_created : Option String → ℕ → Option ℕ → SessionReply
reply_created title at none = http_error 500
reply_created title at (some id) = created id title at

create_with : Services → ℕ → Option String → TaskRef → Io SessionReply
unfolding reply_created
create_with sv user title (uuid id) w =
    let (done, w') =
      exec sv (λ v. record v { sessions = upsert id user title (sv.now w.tick) v.sessions }) w in
    (if done then created id title (sv.now w'.tick) else http_error 500, w')
create_with sv user title (no_uuid s) w =
    if is_empty s
    then (let (id, w') =
          insert_row sv (λ id v. is_none (find_by (λ (s : Session). s.id) id v.sessions))
            (λ id v. record v {
              sessions = v.sessions ++ new_session id user title (sv.now w.tick) ∷ [];
            })
            w in
        (reply_created title (sv.now w.tick) id, w'))
    else (http_error 500, (exec sv (λ v. v) w).1)

unfoldable pub create_session : Services → ℕ → Option CreateRequest → Io SessionReply
unfolding create_with
create_session sv user none w = (http_error 400, w)
create_session sv user (some r) w = create_with sv user r.title r.id w

-- `UPDATE sessions SET title = $1, updated_at = NOW() WHERE id = $2 AND user_id = $3`
unfoldable pub update_session : Services → ℕ → ℕ → Option String → Io SessionReply
update_session sv user id none w = (http_error 400, w)
update_session sv user id (some title) w =
    let (done, w') =
      exec sv
        (λ v. record v {
          sessions =
              update_by (λ (s : Session). s.id) id
                (λ s.
                  if s.user_id == user
                  then record s { title = some title; updated_at = sv.now w.tick }
                  else s)
                v.sessions;
        })
        w in
    (if done then success else http_error 500, w')

unfoldable pub is_owned : ℕ → ℕ → Session → Bool
is_owned user id s = s.id == id && s.user_id == user

-- Whether a task refers to the session: `session_id UUID REFERENCES sessions(id)`.
refers : ℕ → List Task → Bool
refers id [] = false
refers id (t ∷ ts) = elim t.session_id [ none ↦ false | some s ↦ s == id ] || refers id ts

unfoldable pub is_referred : ℕ → List Task → Bool
unfolding refers
is_referred id ts = refers id ts

any_owned : ℕ → ℕ → List Session → Bool
any_owned user id [] = false
any_owned user id (s ∷ ss) = is_owned user id s || any_owned user id ss

-- `DELETE FROM sessions WHERE id = $1 AND user_id = $2`: the foreign key makes it fail where it would
-- delete a session that a task refers to.
unfoldable pub delete_session : Services → ℕ → ℕ → Io SessionReply
unfolding any_owned
delete_session sv user id w =
    if any_owned user id w.sessions && is_referred id w.tasks
    then (http_error 500, (exec sv (λ v. v) w).1)
    else (let (done, w') =
          exec sv (λ v. record v { sessions = keep (λ s. not (is_owned user id s)) v.sessions })
            w in
        (if done then success else http_error 500, w'))

-- A row of the list: the session and the words of its last task.
pub record Listed : Type 0 where
  pub session : Session
  pub last_message : Option String

in_session : ℕ → Task → Bool
in_session id t = elim t.session_id [ none ↦ false | some s ↦ s == id ]

first_input : List Task → Option String
first_input [] = none
first_input (t ∷ ts) = t.input_text

-- `none` is the reply 500.
unfoldable pub list_sessions : Services → ℕ → Io (Option (List Listed))
unfolding in_session first_input
list_sessions sv user = query_row sv (λ w. some (
    map
      (λ (s : Session). record {
        session = s;
        last_message =
            first_input
              (latest_first (λ (t : Task). t.created_at) (keep (in_session s.id) w.tasks));
      })
      (take 50 (
        latest_first (λ (s : Session). s.updated_at)
          (keep (λ (s : Session). s.user_id == user) w.sessions)))))
