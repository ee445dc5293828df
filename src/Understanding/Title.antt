-- ===== src/Understanding/Title.antt =====
-- `autoTitleSession` of server/internal/service/understanding.go, the routine that names a session
-- after its first command.
pub mod Bounds
use crew_im.Prelude.{
  ℕ, zero, suc, String, Bool, true, false, ◌||◌, not, Option, none, some, List, ltb, ◌==◌,
  if◌then◌else◌, length, keep, is_empty, ◌<>◌, trim_space, Result, ok, err,
}
use Prim.Native.Char.{code}
use Prim.Native.String.{count}
use crew_im.Model.{Task, PushEvent, session_updated}
use crew_im.Claude.Client.{ClaudeClient, call_simple}
use crew_im.World.{World, Services, Io, Session, query_row, exec, send}
use crew_im.World.Table.{find_by, update_by}

-- `string(runes[:n])`; a `String` is a list of runes.
unfoldable pub first_runes : ℕ → String → String
first_runes zero s = ""
first_runes (suc n) String.[] = ""
first_runes (suc n) (String.◌∷◌ c s) = String.◌∷◌ c (first_runes n s)

-- A rune of "\"「」『』"
abbrev is_quote : ℕ → Bool
is_quote c = c == b'"' || c == 0x300C || c == 0x300D || c == 0x300E || c == 0x300F

trim_left : String → String
trim_left String.[] = String.[]
trim_left (String.◌∷◌ c s) =
    let rest = trim_left s in if is_quote (code c) then rest else String.◌∷◌ c s

unless_quote : ℕ → String → String → String
unless_quote c whole String.[] = if is_quote c then String.[] else whole
unless_quote c whole (String.◌∷◌ d t) = whole

trim_right : String → String
unfolding unless_quote
trim_right String.[] = String.[]
trim_right (String.◌∷◌ c s) =
    let rest = trim_right s in unless_quote (code c) (String.◌∷◌ c rest) rest

-- `strings.Trim(title, "\"「」『』")`
unfoldable pub trim_quotes : String → String
unfolding trim_left trim_right
trim_quotes s = trim_left (trim_right s)

-- At most fifteen runes: where there are more, fourteen and an ellipsis.
unfoldable pub shortened : String → String
shortened s = if ltb 15 (count s) then first_runes 14 s <> "…" else s

unfoldable pub clean_title : String → String
clean_title s = shortened (trim_quotes (trim_space s))

-- The model's title, or the command itself.
or_input : String → Result String → String
or_input input (err e) = input
or_input input (ok s) = s

abbrev pub no_title : Option String → Bool
no_title none = true
no_title (some s) = is_empty s

-- `*currentTitle` of the row that was read.
title_read : Option Session → Option String
title_read none = none
title_read (some s) = s.title

count_tasks : ℕ → List Task → ℕ
count_tasks session tasks =
    length (keep (λ (t : Task). elim t.session_id [ none ↦ false | some s ↦ s == session ]) tasks)

unfoldable pub title_event : ℕ → String → PushEvent
title_event session title = record {
  event_type = session_updated;
  task_id = none;
  task = none;
  message = "";
  result = none;
  reason = "";
  step = none;
  session_id = some session;
  title = title;
}

-- `UPDATE sessions SET title = $1, … WHERE id = $2 AND (title IS NULL OR title = '')`
unfoldable pub set_title : Services → ℕ → String → World → World
set_title sv session title w =
    (exec sv
      (λ v. record v {
        sessions =
            update_by (λ (s : Session). s.id) session
              (λ s.
                if no_title s.title
                then record s { title = some title; updated_at = sv.now w.tick }
                else s)
              v.sessions;
      })
      w).1

-- From the model's answer on.
name_session : Services → ℕ → ℕ → String → Io (Unit {0})
name_session sv user session title w =
    if is_empty title
    then (tt, w)
    else send user (title_event session title) (set_title sv session title w)

abbrev title_prompt : String
title_prompt = "你是一个标题生成器。根据用户的指令，生成一个简洁的会话标题（5-8个字）。只输出标题本身，不要引号、标点或解释。"

ask_title : Services → ClaudeClient → ℕ → ℕ → String → Io (Unit {0})
unfolding name_session or_input
ask_title sv claude user session input w =
    let (answer, w') = call_simple sv claude title_prompt input 50 w in
    name_session sv user session (clean_title (or_input input answer)) w'

unless_many : Services → ClaudeClient → ℕ → ℕ → String → Option ℕ → Io (Unit {0})
unfolding ask_title
unless_many sv claude user session input none w = ask_title sv claude user session input w
unless_many sv claude user session input (some n) w =
    if ltb 1 n then (tt, w) else ask_title sv claude user session input w

unfoldable pub auto_title_session : Services → ClaudeClient → ℕ → ℕ → String → Io (Unit {0})
unfolding unless_many title_read count_tasks
auto_title_session sv claude user session input w =
    let (row, w₁) = query_row sv (λ v. find_by (λ (s : Session). s.id) session v.sessions) w in
    if not (no_title (title_read row))
    then (tt, w₁)
    else (let (n, w₂) = query_row sv (λ v. some (count_tasks session v.tasks)) w₁ in
        unless_many sv claude user session input n w₂)
