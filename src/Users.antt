-- ===== src/Users.antt =====
-- server/internal/handler/users.go: the profile and the rules of a user. A profile is an object; a body
-- without one is `none`, which the column refuses. Of a rule, `rule_parsed` and `created_at` are
-- left out.
pub mod Owners
use crew_im.Prelude.{
  ℕ, zero, suc, ◌+◌, ◌-◌, ◌*◌, ◌/◌, ◌%◌, ◌^◌, ◌≤◌, ◌<◌, String, ◌≡◌, refl, sym, ap, ◌∙◌, ◌≢◌, ◌↔◌,
  ◌⊎◌, inl, inr, Bool, true, false, ◌&&◌, ◌||◌, not, Option, none, some, List, [], ◌∷◌, ◌++◌, map,
  arith, ltb, leb, ◌==◌, if◌then◌else◌, ltb→lt, lt→ltb, leb→le, ==_iff, Bool-cases, Option-cases,
  All, length, take, drop, take-append, drop-append, last?, keep, length-append, last?-append,
  length-keep-le, All-append, All-keep, All-map, Bytes, bytes_eq, bytes_eq_iff, bytes_eq_refl,
  eq_of_bytes_eq, bytes_ne, is_empty, join, ◌<>◌, decimal, str_eq, str_eq_iff, trim_space,
  trim_prefix, trim_suffix, split, Result, ok, err,
}
use crew_im.Model.{Params, TaskRef, uuid, no_uuid}
use crew_im.World.{World, Services, Io, UserProfile, UserRule, query_row, exec}
use crew_im.World.Table.{find_by, update_by, of_user}

unfoldable pub get_profile : Services → ℕ → Io (Option UserProfile)
get_profile sv user w =
    query_row sv (λ v. find_by (λ (p : UserProfile). p.user_id) user v.user_profiles) w

-- The statement fails without a profile; the reply is a success in any case.
unfoldable pub update_profile : Services → ℕ → Option Params → World → World
update_profile sv user none w = (exec sv (λ v. v) w).1
update_profile sv user (some profile) w =
    (exec sv
      (λ v. record v {
        user_profiles =
            update_by (λ (p : UserProfile). p.user_id) user
              (λ p. record p { profile = profile; updated_at = sv.now w.tick }) v.user_profiles;
      })
      w).1

-- `none` is 500.
unfoldable pub get_rules : Services → ℕ → Io (Option (List UserRule))
get_rules sv user w =
    query_row sv
      (λ v. some (
        keep (λ (r : UserRule). r.active)
          (of_user (λ (r : UserRule). r.user_id) user v.user_rules)))
      w

-- `UPDATE user_rules SET active = false WHERE id = $1 AND user_id = $2`
unfoldable pub delete_rule : Services → ℕ → TaskRef → World → World
delete_rule sv user (no_uuid s) w = (exec sv (λ v. v) w).1
delete_rule sv user (uuid id) w =
    (exec sv
      (λ v. record v {
        user_rules =
            update_by (λ (r : UserRule). r.id) id
              (λ r. if r.user_id == user then record r { active = false } else r) v.user_rules;
      })
      w).1

pub data UserRequest : Type 0 where
  profile_is_read : UserRequest
  profile_is_set : Option Params → UserRequest
  rules_are_read : UserRequest
  rule_is_deleted : TaskRef → UserRequest

unfoldable pub serve_user : Services → ℕ → UserRequest → World → World
serve_user sv user profile_is_read w = (get_profile sv user w).1
serve_user sv user (profile_is_set p) w = update_profile sv user p w
serve_user sv user rules_are_read w = (get_rules sv user w).1
serve_user sv user (rule_is_deleted r) w = delete_rule sv user r w
