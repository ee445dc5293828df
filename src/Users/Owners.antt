-- ===== src/Users/Owners.antt =====
-- Whose profile and rules a request changes: users.go.
use crew_im.Prelude.{
  ℕ, ◌+◌, ◌≡◌, refl, ◌≢◌, true, false, none, some, List, [], ◌∷◌, arith, ◌==◌, if◌then◌else◌,
}
use crew_im.Model.{Params, uuid, no_uuid}
use crew_im.World.{World, Services, UserProfile, UserRule}
use crew_im.World.Table.{find_by, update_by, of_user, find_by-update_by}
use crew_im.Users.{
  get_profile, update_profile, get_rules, delete_rule, UserRequest, profile_is_read, profile_is_set,
  rules_are_read, rule_is_deleted, serve_user,
}

of_user-update_by :
    (sv : Services) (owner user id : ℕ) (rs : List UserRule)
    → owner ≢ user
    → of_user
        (λ (r : UserRule). r.user_id)
        owner
        (update_by
          (λ (r : UserRule). r.id)
          id
          (λ r. if r.user_id == user then record r { active = false } else r)
          rs)
      ≡ of_user (λ (r : UserRule). r.user_id) owner rs
unfolding update_by
of_user-update_by sv owner user id [] h = refl
of_user-update_by sv owner user id (r ∷ rs) h =
    let ih = of_user-update_by sv owner user id rs h in ground arith

-- A request of somebody else leaves the profile and the rules of a user as they were.
pub serve_user-others :
    (sv : Services) (owner user : ℕ) (q : UserRequest) (w : World)
    → owner ≢ user
    → (find_by (λ (p : UserProfile). p.user_id) owner (serve_user sv user q w).user_profiles
        ≡ find_by (λ (p : UserProfile). p.user_id) owner w.user_profiles)
      × (of_user (λ (r : UserRule). r.user_id) owner (serve_user sv user q w).user_rules
          ≡ of_user (λ (r : UserRule). r.user_id) owner w.user_rules)
unfolding serve_user get_profile update_profile get_rules delete_rule
serve_user-others sv owner user profile_is_read w h = (refl, refl)
serve_user-others sv owner user (profile_is_set none) w h = (ground arith, ground arith)
serve_user-others sv owner user (profile_is_set (some p)) w h =
    let row =
      find_by-update_by (λ (p : UserProfile). p.user_id) owner user
        (λ q. record q { profile = p; updated_at = sv.now w.tick }) w.user_profiles (λ r. refl) in
    (ground arith, ground arith)
serve_user-others sv owner user rules_are_read w h = (refl, refl)
serve_user-others sv owner user (rule_is_deleted (no_uuid s)) w h = (ground arith, ground arith)
serve_user-others sv owner user (rule_is_deleted (uuid id)) w h =
    let rules = of_user-update_by sv owner user id w.user_rules h in (ground arith, ground arith)

-- With a database that works, a profile that was set is the one that is read.
pub get_profile-update_profile :
    (sv : Services) (user : ℕ) (p : Params) (old : UserProfile) (w : World)
    → ((n : ℕ) → sv.db_ok n ≡ true)
    → find_by (λ (p : UserProfile). p.user_id) user w.user_profiles ≡ some old
    → (get_profile sv user (update_profile sv user (some p) w)).0
      ≡ some (record old { profile = p; updated_at = sv.now w.tick })
unfolding get_profile update_profile
get_profile-update_profile sv user p old w up found =
    let row =
      find_by-update_by (λ (p : UserProfile). p.user_id) user user
        (λ q. record q { profile = p; updated_at = sv.now w.tick }) w.user_profiles (λ r. refl) in
    ground (arith, up w.tick, up (w.tick + 1))
