-- ===== src/Server/Owners.antt =====
-- Who changes a task, with the requests of all users besides those about tasks and commands: auth.go,
-- sessions.go and users.go.
use crew_im.Prelude.{ℕ, ◌≡◌, ◌≢◌, refl, none, some, true, List, [], ◌∷◌, Option, arith, All}
use crew_im.Model.{Task, uuid, no_uuid}
use crew_im.World.{World, Services}
use crew_im.Tasks.Actions.{row}
use crew_im.Sms.{CodeStore}
use crew_im.Auth.Login.{AuthHandler, LoginRequest, login}
use crew_im.Auth.Login.Grants.Rows.{login-tasks}
use crew_im.Auth.DeleteAccount.{delete_account}
use crew_im.Auth.DeleteAccount.Rest.{delete_account-row}
use crew_im.Sessions.Owners.{Request, serve, serve-tasks}
use crew_im.Users.{
  UserRequest, profile_is_read, profile_is_set, rules_are_read, rule_is_deleted, serve_user,
  get_profile, get_rules, update_profile, delete_rule,
}
use crew_im.Runner.Rounds.{IsQuiet}
use crew_im.Server.{Program, Move, move}
use crew_im.Server.Spared.{Spares, move-row}

-- What the server does: a move, or another request of a user.
pub data Deed : Type 0 where
  moves : Move → Deed
  deletes_account : ℕ → Deed
  about_sessions : ℕ → Request → Deed
  about_user : ℕ → UserRequest → Deed
  logs_in : ℕ → Option LoginRequest → CodeStore → Deed

unfoldable pub deed : Program → AuthHandler → Deed → World → World
deed p h (moves m) w = move p m w
deed p h (deletes_account user) w = (delete_account p.services user w).1
deed p h (about_sessions user q) w = serve p.services user q w
deed p h (about_user user q) w = serve_user p.services user q w
deed p h (logs_in verified r codes) w = (login p.services h verified r codes w).2

unfoldable pub run_deeds : Program → AuthHandler → List Deed → World → World
run_deeds p h [] w = w
run_deeds p h (d ∷ ds) w = run_deeds p h ds (deed p h d w)

-- Neither a request of the owner about tasks, nor a job about this task, nor the end of the owner's
-- account.
abbrev pub SparesTask : ℕ → ℕ → Deed → World → Type 0
SparesTask owner j (moves m) w = Spares owner j m w
SparesTask owner j (deletes_account user) w = owner ≢ user
SparesTask owner j (about_sessions user q) w = Unit
SparesTask owner j (about_user user q) w = Unit
SparesTask owner j (logs_in verified r codes) w = Unit

abbrev pub SparedTask : Program → AuthHandler → ℕ → ℕ → List Deed → World → Type 0
SparedTask p h owner j [] w = Unit
SparedTask p h owner j (d ∷ ds) w =
    SparesTask owner j d w × SparedTask p h owner j ds (deed p h d w)

serve_user-tasks :
    (sv : Services) (user : ℕ) (q : UserRequest) (w : World)
    → (serve_user sv user q w).tasks ≡ w.tasks
unfolding serve_user get_profile update_profile get_rules delete_rule
serve_user-tasks sv user profile_is_read w = refl
serve_user-tasks sv user (profile_is_set none) w = ground arith
serve_user-tasks sv user (profile_is_set (some p)) w = ground arith
serve_user-tasks sv user rules_are_read w = refl
serve_user-tasks sv user (rule_is_deleted (uuid id)) w = ground arith
serve_user-tasks sv user (rule_is_deleted (no_uuid s)) w = ground arith

module _ (p : Program) (h : AuthHandler) (up : (n : ℕ) → p.services.db_ok n ≡ true)
    (quiet : All IsQuiet p.runner.registry) where
  deed-row :
      (j : ℕ) (t : Task) (d : Deed) (w : World)
      → SparesTask t.user_id j d w
      → row j w ≡ some t
      → row j (deed p h d w) ≡ some t
  unfolding deed
  deed-row j t (moves m) w spared e = move-row p up quiet j t m w spared e
  deed-row j t (deletes_account user) w spared e = delete_account-row p.services user j t w e spared
  deed-row j t (about_sessions user q) w spared e = rw (serve-tasks p.services user q w) e
  deed-row j t (about_user user q) w spared e = rw (serve_user-tasks p.services user q w) e
  deed-row j t (logs_in verified r codes) w spared e =
      rw (login-tasks p.services h verified r codes w) e

  -- Over requests about tasks, commands, follow-ups, jobs of the workers, routines, ticks of the
  -- scheduler, logins, requests about sessions, profiles and rules, and deletions of accounts, each
  -- done to its end before the next, with a database that works and tools that keep to their tables:
  -- a task stays exactly as it is as long as its owner neither makes a request about tasks nor
  -- deletes the account, and no worker does a job about it.
  pub run_deeds-row :
      (j : ℕ) (t : Task) (ds : List Deed) (w : World)
      → row j w ≡ some t
      → SparedTask p h t.user_id j ds w
      → row j (run_deeds p h ds w) ≡ some t
  unfolding run_deeds
  run_deeds-row j t [] w e spared = e
  run_deeds-row j t (d ∷ ds) w e spared =
      run_deeds-row j t ds (deed p h d w) (deed-row j t d w spared.0 e) spared.1
