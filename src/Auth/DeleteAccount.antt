-- ===== src/Auth/DeleteAccount.antt =====
-- `DeleteAccount` of server/internal/handler/auth.go: the statements in their order, each with what it
-- deletes. The last one fails where a push token of the user is left, by the foreign key of
-- push_tokens in server/internal/db/db.go.
pub mod Rest
use crew_im.Prelude.{
  ℕ, zero, suc, ◌+◌, ◌-◌, ◌*◌, ◌/◌, ◌%◌, ◌≤◌, ◌<◌, String, ◌≡◌, refl, sym, ap, ◌∙◌, ◌≢◌, ◌↔◌, ◌⊎◌,
  inl, inr, Bool, true, false, ◌&&◌, ◌||◌, not, Option, none, some, List, [], ◌∷◌, ◌++◌, map, arith,
  ltb, leb, ◌==◌, if◌then◌else◌, ltb→lt, lt→ltb, leb→le, ==_iff, Bool-cases, Option-cases, All,
  length, take, last?, keep, length-append, last?-append, length-keep-le, All-append, All-keep,
  All-map, Bytes, bytes_eq, bytes_eq_iff, bytes_eq_refl, eq_of_bytes_eq, bytes_ne, is_empty, join,
  ◌<>◌, decimal, str_eq, str_eq_iff, trim_space, trim_prefix, trim_suffix, Result, ok, err,
}
use crew_im.Model.{Task, SubTask}
use crew_im.World.{
  World, Services, Io, exec, ExecutionLog, Session, UserRule, User, UserProfile, UserAccount,
  PushToken, Memory, TaskItem, ScheduledJob,
}

-- A statement on a state: `none` where a foreign key refuses it.
abbrev pub Statement : Type 0
Statement = World → Option World

-- `DELETE FROM … WHERE …`
unfoldable pub delete_where : {A : Type 0} → (A → Bool) → List A → List A
delete_where p rows = keep (λ r. not (p r)) rows

-- `id IN (SELECT id FROM tasks WHERE user_id = $1)`
unfoldable pub is_task_of : ℕ → List Task → ℕ → Bool
is_task_of user [] id = false
is_task_of user (t ∷ ts) id = t.user_id == user && t.id == id || is_task_of user ts id

unfoldable pub has_token : ℕ → List PushToken → Bool
has_token user [] = false
has_token user (t ∷ ts) = t.user_id == user || has_token user ts

delete_user : ℕ → Statement
delete_user user w =
    if has_token user w.push_tokens
    then none
    else some (record w { users = delete_where (λ (u : User). u.id == user) w.users })

unfoldable pub delete_queries : ℕ → List Statement
unfolding delete_user
delete_queries user =
    (λ w. some (record w {
      execution_logs =
          delete_where (λ (l : ExecutionLog). is_task_of user w.tasks l.task_id) w.execution_logs;
    }))
    ∷ (λ w. some (record w {
      sub_tasks = delete_where (λ (s : SubTask). is_task_of user w.tasks s.task_id) w.sub_tasks;
    }))
    ∷ (λ w.
        some (record w { memories = delete_where (λ (m : Memory). m.user_id == user) w.memories }))
    ∷ (λ w.
        some (record w {
          task_items = delete_where (λ (i : TaskItem). i.user_id == user) w.task_items;
        }))
    ∷ (λ w. some (record w {
      scheduled_jobs = delete_where (λ (j : ScheduledJob). j.user_id == user) w.scheduled_jobs;
    }))
    ∷ (λ w. some (record w { tasks = delete_where (λ (t : Task). t.user_id == user) w.tasks }))
    ∷ (λ w.
        some (record w { sessions = delete_where (λ (s : Session). s.user_id == user) w.sessions }))
    ∷ (λ w. some (record w {
      user_accounts = delete_where (λ (a : UserAccount). a.user_id == user) w.user_accounts;
    }))
    ∷ (λ w.
        some (record w {
          user_rules = delete_where (λ (r : UserRule). r.user_id == user) w.user_rules;
        }))
    ∷ (λ w. some (record w {
      user_profiles = delete_where (λ (p : UserProfile). p.user_id == user) w.user_profiles;
    }))
    ∷ delete_user user
    ∷ []

or_same : World → Option World → World
or_same w none = w
or_same w (some v) = v

is_some : Option World → Bool
is_some none = false
is_some (some w) = true

-- `db.Pool.Exec(ctx, q, userID)`: true is no error.
unfoldable pub exec_statement : Services → Statement → Io Bool
unfolding or_same is_some
exec_statement sv q w =
    let (done, w') = exec sv (λ v. or_same v (q v)) w in (done && is_some (q w), w')

-- The loop over the queries, which the first error ends. True is `{"deleted": true}`, false 500.
unfoldable pub run_queries : Services → List Statement → Io Bool
run_queries sv [] w = (true, w)
run_queries sv (q ∷ qs) w =
    let (done, w') = exec_statement sv q w in
    let rest = run_queries sv qs w' in if done then rest else (false, w')

unfoldable pub delete_account : Services → ℕ → Io Bool
delete_account sv user = run_queries sv (delete_queries user)
