-- ===== src/Push.antt =====
-- server/internal/push/apns.go: the notifications that are sent to a user's devices, and how a device is
-- registered. What Apple's server answers is a parameter.
pub mod Safety
use crew_im.Prelude.{
  ℕ, zero, suc, ◌+◌, ◌-◌, ◌*◌, ◌/◌, ◌%◌, ◌^◌, ◌≤◌, ◌<◌, String, ◌≡◌, refl, sym, ap, ◌∙◌, ◌≢◌, ◌↔◌,
  ◌⊎◌, inl, inr, Bool, true, false, ◌&&◌, ◌||◌, not, Option, none, some, List, [], ◌∷◌, ◌++◌, map,
  arith, ltb, leb, ◌==◌, if◌then◌else◌, ltb→lt, lt→ltb, leb→le, ==_iff, Bool-cases, Option-cases,
  All, length, take, drop, take-append, drop-append, last?, keep, length-append, last?-append,
  length-keep-le, All-append, All-keep, All-map, Bytes, bytes_eq, bytes_eq_iff, bytes_eq_refl,
  eq_of_bytes_eq, bytes_ne, is_empty, join, ◌<>◌, decimal, str_eq, str_eq_iff, trim_space,
  trim_prefix, trim_suffix, split, Result, ok, err,
}
use Prim.Native.String.{len}
use crew_im.World.Table.{find_by}
use crew_im.World.{is_none, ticked, World, Services, Io, PushToken, query_row, exec}

pub record ApnsPusher : Type 0 where
  pub key_id : String
  pub team_id : String
  pub bundle_id : String
  pub production : Bool

pub record Notification : Type 0 where
  pub url : String
  pub topic : String
  pub title : String
  pub body : String

-- The status that Apple's server answers with, if the request succeeds.
abbrev pub Apns : Type 0
Apns = Notification → Option ℕ

unfoldable pub notification : ApnsPusher → String → String → String → Notification
notification p token title body = record {
  url =
      (if p.production then "https://api.push.apple.com" else "https://api.sandbox.push.apple.com")
      <> "/3/device/"
      <> token;
  topic = p.bundle_id;
  title = title;
  body = body;
}

-- `sendToAPNs`: whether it returns no error.
unfoldable pub send_to_apns : Apns → Notification → Bool
send_to_apns apns n = elim (apns n) [ none ↦ false | some status ↦ status == 200 ]

pub data PushOutcome : Type 0 where
  query_failed : PushOutcome
  -- the requests that were made
  pushed : List Notification → PushOutcome
  -- `token[:8]` of a shorter token
  panics : PushOutcome

and_then : Notification → PushOutcome → PushOutcome
and_then n query_failed = query_failed
and_then n (pushed ns) = pushed (n ∷ ns)
and_then n panics = panics

-- Where a request fails, the first eight bytes of the token are logged.
unfoldable pub push_each : ApnsPusher → Apns → String → String → List String → PushOutcome
unfolding and_then
push_each p apns title body [] = pushed []
push_each p apns title body (token ∷ tokens) =
    let n = notification p token title body in
    let rest = push_each p apns title body tokens in
    if not (send_to_apns apns n) && ltb (len token) 8 then panics else and_then n rest

push_to : ApnsPusher → Apns → String → String → Option (List String) → PushOutcome
push_to p apns title body none = query_failed
push_to p apns title body (some tokens) = push_each p apns title body tokens

abbrev pub tokens_of : ℕ → List PushToken → List String
tokens_of user ts =
    map (λ (t : PushToken). t.device_token) (keep (λ (t : PushToken). t.user_id == user) ts)

unfoldable pub push : Services → ApnsPusher → Apns → ℕ → String → String → Io PushOutcome
unfolding push_to
push sv p apns user title body w =
    let (tokens, w') = query_row sv (λ v. some (tokens_of user v.push_tokens)) w in
    (push_to p apns title body tokens, w')

abbrev pub is_token : ℕ → String → PushToken → Bool
is_token user token t = t.user_id == user && str_eq t.device_token token

-- `ON CONFLICT (user_id, device_token) DO UPDATE`
unfoldable pub upsert_token : ℕ → ℕ → String → ℕ → List PushToken → List PushToken
upsert_token id user token now [] =
    record { id = id; user_id = user; device_token = token; updated_at = now } ∷ []
upsert_token id user token now (t ∷ ts) =
    let rest = upsert_token id user token now ts in
    if is_token user token t then record t { updated_at = now } ∷ ts else t ∷ rest

unfoldable pub is_registered : ℕ → String → List PushToken → Bool
is_registered user token [] = false
is_registered user token (t ∷ ts) = is_token user token t || is_registered user token ts

-- Whether `RegisterToken` returns no error: a new row needs an identifier that is free.
unfoldable pub register_token : Services → ℕ → String → Io Bool
register_token sv user token w =
    let id = sv.new_id w.tick in
    let done =
      sv.db_ok w.tick
      && (is_registered user token w.push_tokens
          || is_none (find_by (λ (t : PushToken). t.id) id w.push_tokens)) in
    (
      done,
      ticked (
          if done
          then record w { push_tokens = upsert_token id user token (sv.now w.tick) w.push_tokens }
          else w),
    )

pub data Pusher : Type 0 where
  apns_pusher : ApnsPusher → Pusher
  mock_pusher : Pusher

unfoldable pub new_pusher : String → Pusher
new_pusher provider =
    if str_eq provider "apns"
    then apns_pusher (record { key_id = ""; team_id = ""; bundle_id = ""; production = false })
    else mock_pusher
