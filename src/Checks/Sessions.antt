-- ===== src/Checks/Sessions.antt =====
-- Requests about sessions at concrete inputs.
use crew_im.Prelude.{ℕ, ◌≡◌, refl, some, List, [], ◌∷◌, arith}
use crew_im.World.{World, Session}
use crew_im.World.Table.{find_by}
use crew_im.Sessions.Owners.{Request, rename, delete, owner, serve_all, serve_all-owner}
use crew_im.Model.{waiting_confirm}
use crew_im.Checks.Data.{services, world, task}

abbrev lunch : Session
lunch = record { id = 5; user_id = 1; title = some "lunch"; created_at = 0; updated_at = 0 }

-- User 1 has a session with a task in it.
abbrev with_session : World
with_session = record world {
  sessions = lunch ∷ [];
  tasks = record (task 10 1 waiting_confirm) { session_id = some 5 } ∷ [];
}

abbrev intrusions : List (ℕ × Request)
intrusions = (2, rename 5 (some "mine")) ∷ (2, delete 5) ∷ []

owner-with_session : owner 5 with_session ≡ some 1
unfolding find_by
owner-with_session = refl

serve_all-owner_example : owner 5 (serve_all services intrusions with_session) ≡ some 1
serve_all-owner_example =
    serve_all-owner services 5 1 intrusions with_session owner-with_session
      (omega arith, (omega arith, tt))
