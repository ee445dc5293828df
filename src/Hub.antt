-- ===== src/Hub.antt =====
-- `Hub` of server/internal/ws/hub.go: who is connected, the handshake of a connection, and to whom an
-- event goes. Connections and users are numbers. What `jwt.Parse` makes of a token with the hub's
-- secret is a parameter, and so are the messages that arrive.
pub mod Handshake
use crew_im.Prelude.{
  ℕ, zero, suc, ◌+◌, ◌-◌, ◌*◌, ◌/◌, ◌%◌, ◌≤◌, ◌<◌, String, ◌≡◌, refl, sym, ap, ◌∙◌, ◌≢◌, ◌↔◌, ◌⊎◌,
  inl, inr, Bool, true, false, ◌&&◌, ◌||◌, not, Option, none, some, List, [], ◌∷◌, ◌++◌, map, arith,
  ltb, leb, ◌==◌, if◌then◌else◌, ltb→lt, lt→ltb, leb→le, ==_iff, Bool-cases, Option-cases, All,
  length, take, last?, keep, length-append, last?-append, length-keep-le, All-append, All-keep,
  All-map, Bytes, bytes_eq, bytes_eq_iff, bytes_eq_refl, eq_of_bytes_eq, bytes_ne, is_empty, join,
  ◌<>◌, decimal, str_eq, str_eq_iff, trim_space, trim_prefix, trim_suffix, Result, ok, err,
}

-- A token that `jwt.Parse` takes: whether it is valid and its claim `userId`, where that is a text
-- that is not empty.
pub record Token : Type 0 where
  pub valid : Bool
  pub user_id : Option ℕ

pub record Hub : Type 0 where
  -- the map of maps: a user without an entry has `none`
  pub conns : ℕ → Option (List ℕ)
  -- `jwt.Parse`: `none` is its error
  pub parse : String → Option Token

unfoldable pub new_hub : (String → Option Token) → Hub
new_hub parse = record { conns = λ user. none; parse = parse }

unfoldable pub is_elem : ℕ → List ℕ → Bool
is_elem c [] = false
is_elem c (d ∷ ds) = c == d || is_elem c ds

-- `h.conns[userID]`, where a missing entry counts as an empty map.
unfoldable pub entry : Option (List ℕ) → List ℕ
entry none = []
entry (some cs) = cs

unfoldable pub put_entry : ℕ → Option (List ℕ) → Hub → Hub
put_entry user e h = record h { conns = λ u. if user == u then e else h.conns u }

-- `m[conn] = true`
unfoldable pub with_conn : ℕ → List ℕ → List ℕ
with_conn c cs = if is_elem c cs then cs else c ∷ cs

-- `delete(m, conn)`
unfoldable pub without_conn : ℕ → List ℕ → List ℕ
without_conn c cs = keep (λ d. not (c == d)) cs

unfoldable pub add_conn : ℕ → ℕ → Hub → Hub
add_conn user c h = put_entry user (some (with_conn c (entry (h.conns user)))) h

unless_empty : List ℕ → Option (List ℕ)
unless_empty [] = none
unless_empty (c ∷ cs) = some (c ∷ cs)

unfoldable pub remove_conn : ℕ → ℕ → Hub → Hub
unfolding unless_empty
remove_conn user c h = put_entry user (unless_empty (without_conn c (entry (h.conns user)))) h

user_of : Option Token → Option ℕ
user_of none = none
user_of (some t) = if t.valid then t.user_id else none

-- `none` for "".
unfoldable pub verify_token : Hub → String → Option ℕ
unfolding user_of
verify_token h token = user_of (h.parse token)

-- The connections that `Send` writes to.
unfoldable pub recipients : ℕ → Hub → List ℕ
recipients user h = entry (h.conns user)

-- Where a connection's `HandleWS` stands.
pub data Handler : Type 0 where
  unauthenticated : Handler
  authenticated : ℕ → Handler
  closed : Handler

-- What `conn.ReadMessage` gives: an error, a message that is no JSON, or its type and token.
pub data Incoming : Type 0 where
  read_error : Incoming
  no_json : Incoming
  envelope : String → String → Incoming

-- What is written back.
pub data Reply : Type 0 where
  silent : Reply
  auth_ok : Reply
  auth_error : Reply
  auth_required : Reply

unfoldable pub greet : ℕ → Hub → Option ℕ → Hub × Handler × Reply
greet c h none = (h, closed, auth_error)
greet c h (some user) = (add_conn user c h, authenticated user, auth_ok)

-- One round of the loop of `HandleWS`, with the deferred function where it returns.
unfoldable pub handle_ws : ℕ → Hub → Handler → Incoming → Hub × Handler × Reply
handle_ws c h closed m = (h, closed, silent)
handle_ws c h unauthenticated read_error = (h, closed, silent)
handle_ws c h unauthenticated no_json = (h, unauthenticated, silent)
handle_ws c h unauthenticated (envelope type token) =
    if str_eq type "auth" then greet c h (verify_token h token) else (h, closed, auth_required)
handle_ws c h (authenticated user) read_error = (remove_conn user c h, closed, silent)
handle_ws c h (authenticated user) no_json = (h, authenticated user, silent)
handle_ws c h (authenticated user) (envelope type token) = (h, authenticated user, silent)
