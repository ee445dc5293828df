-- ===== src/Checks/Accounts.antt =====
-- The deletion of accounts at concrete inputs.
use crew_im.Prelude.{◌≡◌, refl, true, false, [], ◌∷◌, arith}
use crew_im.Model.{Task, waiting_confirm}
use crew_im.World.Table.{of_user}
use crew_im.World.{World, Session, Memory, UserAccount, User}
use crew_im.Auth.DeleteAccount.{
  has_token, delete_account, run_queries, exec_statement, delete_queries,
}
use crew_im.Auth.DeleteAccount.Rest.{
  delete_account-has_token, delete_account-of_user, delete_account-others,
}
use crew_im.Checks.Data.{services, world, task}

-- User 1 gets pushes on a device.
abbrev with_token : World
with_token = record world {
  push_tokens = record { id = 1; user_id = 1; device_token = "d"; updated_at = 0 } ∷ [];
}

token_there : has_token 1 with_token.push_tokens ≡ true
unfolding has_token
token_there = refl

delete_account-has_token_example :
    ((delete_account services 1 with_token).0 ≡ false)
    × ((delete_account services 1 with_token).1.users ≡ with_token.users)
delete_account-has_token_example = delete_account-has_token services 1 with_token token_there

account_deleted : (delete_account services 1 world).0 ≡ true
unfolding delete_account run_queries exec_statement delete_queries has_token
account_deleted = refl

delete_account-of_user_example :
    let v = (delete_account services 1 world).1 in
    (of_user (λ (t : Task). t.user_id) 1 v.tasks ≡ [])
    × (of_user (λ (s : Session). s.user_id) 1 v.sessions ≡ [])
    × (of_user (λ (m : Memory). m.user_id) 1 v.memories ≡ [])
    × (of_user (λ (a : UserAccount). a.user_id) 1 v.user_accounts ≡ [])
    × (of_user (λ (u : User). u.id) 1 v.users ≡ [])
delete_account-of_user_example = delete_account-of_user services 1 world account_deleted

delete_account-others_example :
    (of_user (λ (t : Task). t.user_id) 2 (delete_account services 1 world).1.tasks
      ≡ task 20 2 waiting_confirm ∷ [])
    × (of_user (λ (s : Session). s.user_id) 2 (delete_account services 1 world).1.sessions ≡ [])
delete_account-others_example = delete_account-others services 1 2 world (omega arith)
