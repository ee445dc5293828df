-- ===== src/Auth/DeleteAccount/Rest.antt =====
-- What is left of an account: DeleteAccount of auth.go.
use crew_im.Prelude.{ℕ, ◌≡◌, refl, ◌≢◌, true, false, List, [], ◌∷◌, arith, ◌==◌, some}
use crew_im.World.Table.{of_user}
use crew_im.Tasks.Actions.{row}
use crew_im.World.Table.{find_by}
use crew_im.World.{User, World, Services}
use crew_im.Auth.DeleteAccount.{
  delete_where, has_token, delete_user, delete_queries, exec_statement, or_same, is_some,
  run_queries, delete_account, Task, Session, Memory, UserAccount,
}

delete_where-of_user :
    {A : Type 0} (key : A → ℕ) (user : ℕ) (rows : List A)
    → of_user key user (delete_where (λ r. key r == user) rows) ≡ []
unfolding delete_where
delete_where-of_user key user [] = refl
delete_where-of_user key user (r ∷ rows) = ground (arith, delete_where-of_user key user rows)

delete_where-others :
    {A : Type 0} (key : A → ℕ) (user v : ℕ) (rows : List A)
    → v ≢ user
    → of_user key v (delete_where (λ r. key r == user) rows) ≡ of_user key v rows
unfolding delete_where
delete_where-others key user v [] n = refl
delete_where-others key user v (r ∷ rows) n = ground (arith, delete_where-others key user v rows)

-- With a push token the account is never deleted: whatever else succeeds, the reply is an error and
-- the row of the user stays.
pub delete_account-has_token :
    (sv : Services) (user : ℕ) (w : World)
    → has_token user w.push_tokens ≡ true
    → ((delete_account sv user w).0 ≡ false) × ((delete_account sv user w).1.users ≡ w.users)
unfolding delete_account run_queries exec_statement or_same is_some delete_queries delete_user
delete_account-has_token sv user w h = (ground arith, ground arith)

tasks_deleted :
    (sv : Services) (user : ℕ) (w : World)
    → (delete_account sv user w).0 ≡ true
    → (of_user (λ (t : Task). t.user_id) user (delete_account sv user w).1.tasks ≡ [])
unfolding delete_account run_queries exec_statement or_same is_some delete_queries delete_user
tasks_deleted sv user w h =
    ground (arith, delete_where-of_user (λ (t : Task). t.user_id) user w.tasks)

sessions_deleted :
    (sv : Services) (user : ℕ) (w : World)
    → (delete_account sv user w).0 ≡ true
    → (of_user (λ (s : Session). s.user_id) user (delete_account sv user w).1.sessions ≡ [])
unfolding delete_account run_queries exec_statement or_same is_some delete_queries delete_user
sessions_deleted sv user w h =
    ground (arith, delete_where-of_user (λ (s : Session). s.user_id) user w.sessions)

memories_deleted :
    (sv : Services) (user : ℕ) (w : World)
    → (delete_account sv user w).0 ≡ true
    → (of_user (λ (m : Memory). m.user_id) user (delete_account sv user w).1.memories ≡ [])
unfolding delete_account run_queries exec_statement or_same is_some delete_queries delete_user
memories_deleted sv user w h =
    ground (arith, delete_where-of_user (λ (m : Memory). m.user_id) user w.memories)

accounts_deleted :
    (sv : Services) (user : ℕ) (w : World)
    → (delete_account sv user w).0 ≡ true
    → (of_user (λ (a : UserAccount). a.user_id) user (delete_account sv user w).1.user_accounts
        ≡ [])
unfolding delete_account run_queries exec_statement or_same is_some delete_queries delete_user
accounts_deleted sv user w h =
    ground (arith, delete_where-of_user (λ (a : UserAccount). a.user_id) user w.user_accounts)

users_deleted :
    (sv : Services) (user : ℕ) (w : World)
    → (delete_account sv user w).0 ≡ true
    → (of_user (λ (u : User). u.id) user (delete_account sv user w).1.users ≡ [])
unfolding delete_account run_queries exec_statement or_same is_some delete_queries delete_user
users_deleted sv user w h = ground (arith, delete_where-of_user (λ (u : User). u.id) user w.users)

-- Where the reply is that the account is deleted, no task, session, memory, platform account or row
-- of the user is left.
pub delete_account-of_user :
    (sv : Services) (user : ℕ) (w : World)
    → (delete_account sv user w).0 ≡ true
    → let v = (delete_account sv user w).1 in
      (of_user (λ (t : Task). t.user_id) user v.tasks ≡ [])
      × (of_user (λ (s : Session). s.user_id) user v.sessions ≡ [])
      × (of_user (λ (m : Memory). m.user_id) user v.memories ≡ [])
      × (of_user (λ (a : UserAccount). a.user_id) user v.user_accounts ≡ [])
      × (of_user (λ (u : User). u.id) user v.users ≡ [])
delete_account-of_user sv user w h = (
  tasks_deleted sv user w h,
  sessions_deleted sv user w h,
  memories_deleted sv user w h,
  accounts_deleted sv user w h,
  users_deleted sv user w h,
)

-- The tasks and sessions of every other user stay as they were, also where a statement fails.
pub delete_account-others :
    (sv : Services) (user v : ℕ) (w : World)
    → v ≢ user
    → (of_user (λ (t : Task). t.user_id) v (delete_account sv user w).1.tasks
        ≡ of_user (λ (t : Task). t.user_id) v w.tasks)
      × (of_user (λ (s : Session). s.user_id) v (delete_account sv user w).1.sessions
          ≡ of_user (λ (s : Session). s.user_id) v w.sessions)
unfolding delete_account run_queries exec_statement or_same is_some delete_queries delete_user
delete_account-others sv user v w n = (
  ground (arith, delete_where-others (λ (t : Task). t.user_id) user v w.tasks n),
  ground (arith, delete_where-others (λ (s : Session). s.user_id) user v w.sessions n),
)

find_by-delete_where :
    (user j : ℕ) (t : Task) (rows : List Task)
    → find_by (λ (u : Task). u.id) j rows ≡ some t
    → t.user_id ≢ user
    → find_by (λ (u : Task). u.id) j (delete_where (λ (u : Task). u.user_id == user) rows) ≡ some t
unfolding find_by delete_where
find_by-delete_where user j t [] h n = cc
find_by-delete_where user j t (u ∷ us) h n = ground (arith, find_by-delete_where user j t us)

-- A task of another user stays in its row.
pub delete_account-row :
    (sv : Services) (user j : ℕ) (t : Task) (w : World)
    → row j w ≡ some t
    → t.user_id ≢ user
    → row j (delete_account sv user w).1 ≡ some t
unfolding delete_account run_queries exec_statement or_same is_some delete_queries delete_user
delete_account-row sv user j t w h n = ground (arith, find_by-delete_where user j t w.tasks)
