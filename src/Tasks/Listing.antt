-- ===== src/Tasks/Listing.antt =====
-- `ListTasks` and `GetTask` of server/internal/handler/tasks.go. An `int` has 64 bits; a text that
-- `strconv.Atoi` reads as a negative number counts as 0 here, since both are below 1.
pub mod Order
pub mod Pages
use crew_im.Prelude.{
  ℕ, zero, suc, ◌+◌, ◌-◌, ◌*◌, ◌/◌, ◌%◌, ◌≤◌, ◌<◌, String, ◌≡◌, refl, sym, ap, ◌∙◌, ◌≢◌, ◌↔◌, ◌⊎◌,
  inl, inr, Bool, true, false, ◌&&◌, ◌||◌, not, Option, none, some, List, [], ◌∷◌, ◌++◌, map, arith,
  ltb, leb, ◌==◌, if◌then◌else◌, ltb→lt, lt→ltb, leb→le, ==_iff, Bool-cases, Option-cases, All,
  length, take, drop, take-append, drop-append, last?, keep, length-append, last?-append,
  length-keep-le, All-append, All-keep, All-map, Bytes, bytes_eq, bytes_eq_iff, bytes_eq_refl,
  eq_of_bytes_eq, bytes_ne, is_empty, join, ◌<>◌, decimal, str_eq, str_eq_iff, trim_space,
  trim_prefix, trim_suffix, Result, ok, err, ◌^◌,
}
use Prim.Native.Char.{code}
use Prim.Native.String
use crew_im.Model.{Task, TaskStatus, TaskRef, uuid, no_uuid, SubTask}
use crew_im.World.{World, Services, Io, exec, query_row, query_rows}
use crew_im.World.Table.{find_by, ascending}
use crew_im.Understanding.Context.{latest_first, status_text}

pub record TaskQuery : Type 0 where
  pub status : String
  pub session_id : TaskRef
  pub page : String
  pub limit : String

-- The columns that are selected.
pub record TaskRow : Type 0 where
  pub id : ℕ
  pub user_id : ℕ
  pub input_text : Option String
  pub understanding : Option String
  pub status : TaskStatus
  pub created_at : ℕ
  pub updated_at : ℕ

abbrev pub max_int : ℕ
max_int = 2 ^ 63 - 1

-- The number of a text of digits, if it is one.
digits_from : ℕ → String → Option ℕ
digits_from acc String.[] = some acc
digits_from acc (String.◌∷◌ c s) =
    let rest = digits_from (acc * 10 + (code c - b'0')) s in
    if leb b'0' (code c) && leb (code c) b'9' then rest else none

digits : String → Option ℕ
unfolding digits_from
digits String.[] = none
digits (String.◌∷◌ c s) = digits_from 0 (String.◌∷◌ c s)

-- An error of the syntax gives 0, one of the range the largest number.
clamped : Option ℕ → ℕ
clamped none = 0
clamped (some n) = if ltb max_int n then max_int else n

unfoldable pub atoi : String → ℕ
unfolding digits clamped
atoi String.[] = 0
atoi (String.◌∷◌ c s) =
    if code c == b'-'
    then 0
    else clamped (if code c == b'+' then digits s else digits (String.◌∷◌ c s))

unfoldable pub page_of : String → ℕ
page_of s = let page = atoi s in if ltb page 1 then 1 else page

unfoldable pub limit_of : String → ℕ
limit_of s = let limit = atoi s in if ltb limit 1 || ltb 50 limit then 20 else limit

-- `(page - 1) * limit`, with the wrap-around of an `int`: from 2^63 on it is negative.
unfoldable pub offset_of : ℕ → ℕ → ℕ
offset_of page limit = (page - 1) * limit % 2 ^ 64

-- The filter by the session; `none` where the text is not empty and no UUID, which the query refuses.
unfoldable pub session_filter : TaskRef → Option (Task → Bool)
session_filter (uuid id) = some (λ t. elim t.session_id [ none ↦ false | some s ↦ s == id ])
session_filter (no_uuid s) = if is_empty s then some (λ t. true) else none

unfoldable pub matches : ℕ → String → (Task → Bool) → Task → Bool
matches user status in_session t =
    t.user_id == user && in_session t && (is_empty status || str_eq (status_text t.status) status)

-- All tasks that the query is about, the latest first; `ORDER BY created_at DESC` leaves it to the
-- database how it orders those of one time, here by some key.
unfoldable pub matching : ℕ → String → (Task → Bool) → (Task → ℕ) → List Task → List Task
matching user status in_session ties tasks =
    latest_first (λ (t : Task). t.created_at)
      (latest_first ties (keep (matches user status in_session) tasks))

unfoldable pub row_of : Task → TaskRow
row_of t = record {
  id = t.id;
  user_id = t.user_id;
  input_text = t.input_text;
  understanding = t.understanding;
  status = t.status;
  created_at = t.created_at;
  updated_at = t.updated_at;
}

-- How the database orders tasks of one time, at the tick of a query: it may do it otherwise each time.
abbrev pub Ties : Type 0
Ties = ℕ → Task → ℕ

-- `LIMIT … OFFSET …`; a negative offset is an error that shows as no rows.
unfoldable pub select_page : Ties → ℕ → String → (Task → Bool) → ℕ → ℕ → World → List TaskRow
unfolding row_of
select_page ties user status in_session page limit w =
    let offset = offset_of page limit in
    if ltb max_int offset
    then []
    else map row_of
        (take limit (drop offset (matching user status in_session (ties w.tick) w.tasks)))

page_with :
    Services → Ties → ℕ → String → ℕ → ℕ → Option (Task → Bool) → Io (Option (List TaskRow × ℕ × ℕ))
page_with sv ties user status page limit none w = (none, (exec sv (λ v. v) w).1)
page_with sv ties user status page limit (some in_session) w =
    let (rows, w') =
      query_row sv (λ v. some (select_page ties user status in_session page limit v)) w in
    (elim rows [ none ↦ none | some rs ↦ some (rs, page, limit) ], w')

-- The reply: the rows with the page and the limit that were taken, or 500.
unfoldable pub list_tasks : Services → Ties → ℕ → TaskQuery → Io (Option (List TaskRow × ℕ × ℕ))
unfolding page_with session_filter
list_tasks sv ties user q =
    page_with sv ties user q.status (page_of q.page) (limit_of q.limit)
      (session_filter q.session_id)

-- `ORDER BY step_index`
abbrev pub by_step : List SubTask → List SubTask
by_step = ascending (λ (s : SubTask). s.step_index)

pub data TaskReply : Type 0 where
  http_error : ℕ → TaskReply
  found : Task → List SubTask → TaskReply

with_steps : Services → ℕ → Option Task → Io TaskReply
with_steps sv id none w = (http_error 404, w)
with_steps sv id (some t) w =
    let (subs, w') =
      query_rows sv (λ v. by_step (keep (λ (s : SubTask). s.task_id == id) v.sub_tasks)) w in
    (found t subs, w')

owned : ℕ → Option Task → Option Task
owned user none = none
owned user (some t) = if t.user_id == user then some t else none

unfoldable pub get_task : Services → ℕ → ℕ → Io TaskReply
unfolding with_steps owned
get_task sv user id w =
    let (row, w') =
      query_row sv (λ v. some (owned user (find_by (λ (t : Task). t.id) id v.tasks))) w in
    elim row [ none ↦ (http_error 500, w') | some t ↦ with_steps sv id t w' ]
