-- ===== src/OpenClaw.antt =====
-- `Client` of server/internal/openclaw/client.go: the connections to the users' gateways, with the
-- goroutines that read from them and bring them back. A step is what one goroutine does between two
-- points where it may wait; a `*userConn` is the number of its place in the heap. What the network
-- does (`Dial`, `ReadMessage`, `WriteMessage`) comes with the step. `Dial` reads nothing of the
-- client, so it is one step with the locked section behind it.
pub mod Sound
pub mod Registered
use crew_im.Prelude.{
  remove_at, get_elem?, ℕ, zero, suc, ◌+◌, ◌-◌, ◌*◌, ◌/◌, ◌%◌, ◌^◌, ◌≤◌, ◌<◌, String, ◌≡◌, refl,
  sym, ap, ◌∙◌, ◌≢◌, ◌↔◌, ◌⊎◌, inl, inr, Bool, true, false, ◌&&◌, ◌||◌, not, Option, none, some,
  List, [], ◌∷◌, ◌++◌, map, arith, ltb, leb, ◌==◌, if◌then◌else◌, ltb→lt, lt→ltb, leb→le, ==_iff,
  Bool-cases, Option-cases, All, length, take, drop, take-append, drop-append, last?, keep,
  length-append, last?-append, length-keep-le, All-append, All-keep, All-map, Bytes, bytes_eq,
  bytes_eq_iff, bytes_eq_refl, eq_of_bytes_eq, bytes_ne, is_empty, join, ◌<>◌, decimal, str_eq,
  str_eq_iff, trim_space, trim_prefix, trim_suffix, split, Result, ok, err,
}
use crew_im.Sms.{second}

-- Where `readLoop` stands: at its `select`, in `ReadMessage`, at its deferred function, or ended.
pub data Reader : Type 0 where
  selecting : Reader
  reading : Reader
  leaving : Reader
  ended : Reader

pub record UserConn : Type 0 where
  pub user : ℕ
  pub gateway_url : String
  -- `cancel` was called
  pub cancelled : Bool
  -- `ws.Close` was called
  pub closed : Bool
  pub reader : Reader
  -- whether `heartbeat` runs
  pub heartbeat : Bool

-- A goroutine of `reconnect`, asleep before the attempt.
pub record Reconnect : Type 0 where
  pub user : ℕ
  pub gateway_url : String
  pub attempt : ℕ

pub record Client : Type 0 where
  pub conns : ℕ → Option ℕ
  pub heap : ℕ → UserConn
  -- the first free place of the heap
  pub next : ℕ
  -- calls of `EnsureConnected` that have found no connection, with the URL
  pub ensuring : List (ℕ × String)
  pub reconnecting : List Reconnect

unfoldable pub fresh : ℕ → String → UserConn
fresh user url = record {
  user = user;
  gateway_url = url;
  cancelled = false;
  closed = false;
  reader = selecting;
  heartbeat = true;
}

-- Nothing stands in the heap; what its free places hold is never read.
unfoldable pub new_client : Client
unfolding fresh
new_client = record {
  conns = λ user. none;
  heap = λ a. record (fresh 0 "") { closed = true; reader = ended; heartbeat = false };
  next = 0;
  ensuring = [];
  reconnecting = [];
}

abbrev pub has_connection : ℕ → Client → Bool
has_connection user c = elim (c.conns user) [ none ↦ false | some a ↦ true ]

abbrev pub assign : ℕ → Option ℕ → (ℕ → Option ℕ) → ℕ → Option ℕ
assign user o conns v = if v == user then o else conns v

abbrev pub change : ℕ → (UserConn → UserConn) → (ℕ → UserConn) → ℕ → UserConn
change a f heap b = if b == a then f (heap b) else heap b

-- `cancel()` and `ws.Close()`
unfoldable pub shut : UserConn → UserConn
shut k = record k { cancelled = true; closed = true }

-- The connection of the map, if there is one, is shut.
unfoldable pub shut_old : Option ℕ → (ℕ → UserConn) → ℕ → UserConn
unfolding shut
shut_old none heap = heap
shut_old (some a) heap = change a shut heap

-- `connect` from the lock on.
unfoldable pub connect : ℕ → String → Client → Client
unfolding shut_old fresh
connect user url c = record c {
  conns = assign user (some c.next) c.conns;
  heap = change c.next (λ k. fresh user url) (shut_old (c.conns user) c.heap);
  next = c.next + 1;
}

pub data Ensured : Type 0 where
  is_connected : Ensured
  no_gateway : Ensured
  dials : Ensured

-- `EnsureConnected` up to the `Dial`; `url` is what `GetGatewayURL` returns.
unfoldable pub ensure_connected : ℕ → String → Client → Ensured × Client
ensure_connected user url c =
    if has_connection user c
    then (is_connected, c)
    else if is_empty url
    then (no_gateway, c)
    else (dials, record c { ensuring = c.ensuring ++ (user, url) ∷ [] })

-- The `Dial` of a call of `EnsureConnected`, with its outcome.
dial_ensured : ℕ → Bool → Client → Option (ℕ × String) → Option Client
unfolding connect
dial_ensured i succeeds c none = none
dial_ensured i succeeds c (some (user, url)) =
    let c' = record c { ensuring = remove_at i c.ensuring } in
    some (if succeeds then connect user url c' else c')

abbrev set_reader : ℕ → Reader → Client → Client
set_reader a r c = record c { heap = change a (λ k. record k { reader = r }) c.heap }

-- `ReadMessage`: a message, which goes to the callback, or an error.
after_read : ℕ → Bool → Client → Client
after_read a succeeds c =
    if succeeds then set_reader a selecting c else record (set_reader a leaving c) {
      reconnecting =
          c.reconnecting
          ++ record { user = (c.heap a).user; gateway_url = (c.heap a).gateway_url; attempt = 0 }
            ∷ [];
    }

abbrev pub is_current : ℕ → Client → Bool
is_current a c = elim (c.conns (c.heap a).user) [ none ↦ false | some b ↦ b == a ]

-- The deferred function of `readLoop`.
unfoldable pub leave : ℕ → Client → Client
leave a c = record c {
  conns = if is_current a c then assign (c.heap a).user none c.conns else c.conns;
  heap = change a (λ k. record k { closed = true; reader = ended }) c.heap;
}

-- A move of the read loop of a connection.
unfoldable pub read_loop : ℕ → Bool → Client → Reader → Option Client
unfolding after_read leave
read_loop a succeeds c selecting =
    some (set_reader a (if (c.heap a).cancelled then leaving else reading) c)
read_loop a succeeds c reading = some (after_read a succeeds c)
read_loop a succeeds c leaving = some (leave a c)
read_loop a succeeds c ended = none

-- The ping of `heartbeat`, or that its context is done.
beat : ℕ → Bool → Client → Client
beat a succeeds c = record c {
  heap = change a (λ k. record k { heartbeat = k.heartbeat && succeeds && not k.cancelled }) c.heap;
}

-- The sleep before an attempt.
abbrev pub delay : ℕ → ℕ
delay i = if ltb (30 * second) (2 ^ i * second) then 30 * second else 2 ^ i * second

-- The attempt after the sleep: ten at most.
try_again : ℕ → Bool → Client → Option Reconnect → Option Client
unfolding connect
try_again i succeeds c none = none
try_again i succeeds c (some r) =
    let c' = record c { reconnecting = remove_at i c.reconnecting } in
    some (
      if succeeds
      then connect r.user r.gateway_url c'
      else if ltb (r.attempt + 1) 10
      then record c' { reconnecting = c'.reconnecting ++ record r { attempt = r.attempt + 1 } ∷ [] }
      else c')

-- The connection that `SendMessage` writes to, if there is one.
unfoldable pub send_message : ℕ → Client → Option ℕ
send_message user c = c.conns user

unfoldable pub disconnect : ℕ → Client → Client
disconnect user c = record c {
  conns = assign user none c.conns;
  heap = shut_old (c.conns user) c.heap;
}

unfoldable pub close : Client → Client
unfolding shut
close c = record c {
  conns = λ user. none;
  heap = λ a. if is_current a c then shut (c.heap a) else c.heap a;
}

-- The moves of the handlers and goroutines.
pub data Event : Type 0 where
  ensures : ℕ → String → Event
  dials_ensured : ℕ → Bool → Event
  reads : ℕ → Bool → Event
  beats : ℕ → Bool → Event
  tries_again : ℕ → Bool → Event
  disconnects : ℕ → Event
  closes : Event

-- A move, where it can be made.
unfoldable pub step : Event → Client → Option Client
unfolding dial_ensured read_loop try_again beat
step (ensures user url) c = some (ensure_connected user url c).1
step (dials_ensured i succeeds) c = dial_ensured i succeeds c (get_elem? c.ensuring i)
step (reads a succeeds) c = read_loop a succeeds c (c.heap a).reader
step (beats a succeeds) c = some (beat a succeeds c)
step (tries_again i succeeds) c = try_again i succeeds c (get_elem? c.reconnecting i)
step (disconnects user) c = some (disconnect user c)
step closes c = some (close c)
