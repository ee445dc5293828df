-- ===== src/Sessions/Owners.antt =====
-- To whom sessions belong, over the requests of sessions.go.
use crew_im.Prelude.{
  ℕ, String, ◌≡◌, refl, ◌≢◌, true, not, Option, none, some, List, [], ◌∷◌, arith, ◌==◌,
  if◌then◌else◌, All, keep,
}
use crew_im.Model.{TaskRef, uuid, no_uuid}
use crew_im.World.{World, Services, Session}
use crew_im.World.Table.{find_by, find_by-update_by, find_by-append, map_option}
use crew_im.Sessions.{
  http_error, is_referred, any_owned, coalesce, CreateRequest, create_session, update_session,
  delete_session, upsert, new_session, is_owned, create_with,
}

abbrev pub session_row : ℕ → World → Option Session
session_row j w = find_by (λ (s : Session). s.id) j w.sessions

-- The user of a session.
abbrev pub owner : ℕ → World → Option ℕ
owner j w = map_option (λ (s : Session). s.user_id) (session_row j w)

-- The requests that change sessions.
pub data Request : Type 0 where
  create : Option CreateRequest → Request
  rename : ℕ → Option String → Request
  delete : ℕ → Request

unfoldable pub serve : Services → ℕ → Request → World → World
serve sv user (create r) w = (create_session sv user r w).1
serve sv user (rename id title) w = (update_session sv user id title w).1
serve sv user (delete id) w = (delete_session sv user id w).1

abbrev owner_in : ℕ → List Session → Option ℕ
owner_in j rows = map_option (λ (s : Session). s.user_id) (find_by (λ (s : Session). s.id) j rows)

owner_in-upsert :
    (j id user : ℕ) (title : Option String) (now o : ℕ) (rows : List Session)
    → owner_in j rows ≡ some o
    → owner_in j (upsert id user title now rows) ≡ some o
unfolding upsert
owner_in-upsert j id user title now o rows h = ground (
  arith,
  find_by-append (λ (s : Session). s.id) j (new_session id user title now) rows,
  find_by-update_by (λ (s : Session). s.id) j id
      (λ s. record s { title = coalesce title s.title; updated_at = now }) rows (λ s. refl),
)

owner_in-kept :
    (j user id o : ℕ) (rows : List Session)
    → owner_in j rows ≡ some o
    → o ≢ user
    → owner_in j (keep (λ s. not (is_owned user id s)) rows) ≡ some o
unfolding find_by is_owned
owner_in-kept j user id o [] h f = ground arith
owner_in-kept j user id o (r ∷ rows) h f = ground (arith, owner_in-kept j user id o rows)

create_with-owner :
    (sv : Services) (user j o : ℕ) (title : Option String) (id : TaskRef) (w : World)
    → owner j w ≡ some o
    → owner j (create_with sv user title id w).1 ≡ some o
unfolding create_with
create_with-owner sv user j o title (uuid id) w h =
    ground (arith, owner_in-upsert j id user title (sv.now w.tick) o w.sessions h)
create_with-owner sv user j o title (no_uuid s) w h = ground (
  arith,
  find_by-append (λ (s : Session). s.id) j
      (new_session (sv.new_id w.tick) user title (sv.now w.tick)) w.sessions,
)

serve-owner :
    (sv : Services) (user j o : ℕ) (r : Request) (w : World)
    → owner j w ≡ some o
    → o ≢ user
    → owner j (serve sv user r w) ≡ some o
unfolding serve create_session update_session delete_session
serve-owner sv user j o (create none) w h f = h
serve-owner sv user j o (create (some r)) w h f = create_with-owner sv user j o r.title r.id w h
serve-owner sv user j o (rename id none) w h f = h
serve-owner sv user j o (rename id (some title)) w h f = ground (
  arith,
  find_by-update_by (λ (s : Session). s.id) j id
      (λ s.
        if s.user_id == user
        then record s { title = some title; updated_at = sv.now w.tick }
        else s)
      w.sessions (λ s. ground arith),
)
serve-owner sv user j o (delete id) w h f = ground (arith, owner_in-kept j user id o w.sessions h f)

any_owned-find_by :
    (user id : ℕ) (rows : List Session) (s : Session)
    → find_by (λ (s : Session). s.id) id rows ≡ some s
    → s.user_id ≡ user
    → any_owned user id rows ≡ true
unfolding find_by any_owned is_owned
any_owned-find_by user id [] s h o = cc
any_owned-find_by user id (r ∷ rows) s h o = ground (arith, any_owned-find_by user id rows s)

-- The requests of several users, in their order.
unfoldable pub serve_all : Services → List (ℕ × Request) → World → World
serve_all sv [] w = w
serve_all sv ((user, r) ∷ rs) w = serve_all sv rs (serve sv user r w)

-- Whatever requests about sessions other users make, and whichever statements fail, a session stays
-- there and stays its user's.
pub serve_all-owner :
    (sv : Services) (j o : ℕ) (rs : List (ℕ × Request)) (w : World)
    → owner j w ≡ some o
    → All (λ (r : ℕ × Request). o ≢ r.0) rs
    → owner j (serve_all sv rs w) ≡ some o
unfolding serve_all
serve_all-owner sv j o [] w h f = h
serve_all-owner sv j o ((user, r) ∷ rs) w h f =
    serve_all-owner sv j o rs (serve sv user r w) (serve-owner sv user j o r w h f.0) f.1

-- A session that a task refers to cannot be deleted by its user: the request fails with 500, and the
-- sessions and tasks stay as they were.
pub delete_session-referred :
    (sv : Services) (user id : ℕ) (w : World) (s : Session)
    → session_row id w ≡ some s
    → is_referred id w.tasks ≡ true
    → s.user_id ≡ user
    → ((delete_session sv user id w).0 ≡ http_error 500)
      × ((delete_session sv user id w).1.sessions ≡ w.sessions)
      × ((delete_session sv user id w).1.tasks ≡ w.tasks)
unfolding delete_session
delete_session-referred sv user id w s h r o =
    let found = any_owned-find_by user id w.sessions s h o in
    (ground (arith, found), ground (arith, found), ground arith)

create_with-tasks :
    (sv : Services) (user : ℕ) (title : Option String) (id : TaskRef) (w : World)
    → (create_with sv user title id w).1.tasks ≡ w.tasks
unfolding create_with
create_with-tasks sv user title (uuid id) w = ground arith
create_with-tasks sv user title (no_uuid s) w = ground arith

-- No request about sessions changes a task.
pub serve-tasks :
    (sv : Services) (user : ℕ) (q : Request) (w : World) → (serve sv user q w).tasks ≡ w.tasks
unfolding serve create_session update_session delete_session
serve-tasks sv user (create none) w = refl
serve-tasks sv user (create (some r)) w = create_with-tasks sv user r.title r.id w
serve-tasks sv user (rename id none) w = refl
serve-tasks sv user (rename id (some title)) w = ground arith
serve-tasks sv user (delete id) w = ground arith
