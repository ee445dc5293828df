-- ===== src/Understanding/Context.antt =====
-- What the model is told of a user beside the command: the queries of `Understand` in
-- server/internal/service/understanding.go.
use crew_im.Prelude.{
  ℕ, String, Bool, true, false, ◌&&◌, not, Option, none, some, List, [], ◌∷◌, map, ltb, ◌==◌,
  if◌then◌else◌, take, keep,
}
use crew_im.Model.{Task, TaskStatus, Params, waiting_confirm, executing}
use crew_im.World.{
  World, Services, Io, UserProfile, UserRule, Memory, ◌>>=◌, pure, query_row, query_rows, is_none,
}
use crew_im.World.Table.{find_by, map_option}
use crew_im.Orchestrator.{or_empty}
use crew_im.Understanding.Prompt.{UserContext}

-- The text of a status, as the column holds it.
unfoldable pub status_text : TaskStatus → String
status_text TaskStatus.created = "created"
status_text TaskStatus.understanding = "understanding"
status_text TaskStatus.waiting_confirm = "waiting_confirm"
status_text TaskStatus.executing = "executing"
status_text TaskStatus.paused = "paused"
status_text TaskStatus.completed = "completed"
status_text TaskStatus.failed = "failed"
status_text TaskStatus.cancelled = "cancelled"

-- `ORDER BY … DESC`: a row stands before those that are not later.
unfoldable pub insert_latest {ℓ} : {A : Type ℓ} → (A → ℕ) → A → List A → List A
insert_latest age a [] = a ∷ []
insert_latest age a (b ∷ bs) =
    let rest = insert_latest age a bs in if ltb (age a) (age b) then b ∷ rest else a ∷ b ∷ bs

unfoldable pub latest_first {ℓ} : {A : Type ℓ} → (A → ℕ) → List A → List A
unfolding insert_latest
latest_first age [] = []
latest_first age (a ∷ as') = insert_latest age a (latest_first age as')

in_session : ℕ → ℕ → Task → Bool
in_session session id t =
    elim t.session_id [ none ↦ false | some s ↦ s == session ] && not (t.id == id)

is_underway : TaskStatus → Bool
is_underway executing = true
is_underway waiting_confirm = true
is_underway _ = false

-- `COALESCE(understanding, input_text, '')`
label_of : Option String → Option String → String
label_of (some s) input = s
label_of none input = or_empty input

active_tasks : ℕ → ℕ → World → List (String × String)
unfolding in_session is_underway label_of
active_tasks session id w =
    map (λ (t : Task). (status_text t.status, label_of t.understanding t.input_text))
      (take 5 (
        latest_first (λ (t : Task). t.created_at)
          (keep (λ (t : Task). in_session session id t && is_underway t.status) w.tasks)))

session_history : ℕ → ℕ → World → List (String × String)
unfolding in_session
session_history session id w =
    map (λ (t : Task). (or_empty t.input_text, or_empty t.understanding))
      (take 5 (
        latest_first (λ (t : Task). t.created_at)
          (keep (λ (t : Task). in_session session id t && not (is_none t.understanding)) w.tasks)))

profile_of : ℕ → World → Option Params
profile_of user w =
    map_option (λ (p : UserProfile). p.profile)
      (find_by (λ (p : UserProfile). p.user_id) user w.user_profiles)

rules_of : ℕ → World → List String
rules_of user w =
    map (λ (r : UserRule). r.rule_text)
      (keep (λ (r : UserRule). r.user_id == user && r.active) w.user_rules)

memories_of : ℕ → World → List String
memories_of user w =
    map (λ (m : Memory). m.content)
      (take 10 (
        latest_first (λ (m : Memory). m.created_at)
          (keep (λ (m : Memory). m.user_id == user) w.memories)))

no_params : Option Params → Params
no_params none = []
no_params (some p) = p

-- The two queries that a task in a session makes.
in_session_rows :
    Services → Option ℕ → (ℕ → World → List (String × String)) → Io (List (String × String))
in_session_rows sv none select w = ([], w)
in_session_rows sv (some session) select w = query_rows sv (select session) w

unfoldable pub gather : Services → ℕ → Task → Io UserContext
unfolding in_session_rows active_tasks session_history profile_of rules_of memories_of no_params
gather sv id t = do
  profile ← query_row sv (profile_of t.user_id)
  rules ← query_rows sv (rules_of t.user_id)
  active ← in_session_rows sv t.session_id (λ session. active_tasks session id)
  history ← in_session_rows sv t.session_id (λ session. session_history session id)
  memories ← query_rows sv (memories_of t.user_id)
  pure (record {
    profile = no_params profile;
    rules = rules;
    active_tasks = active;
    history = history;
    memories = memories;
  })
