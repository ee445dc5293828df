-- ===== src/Hub/Handshake.antt =====
-- Who receives the pushes: the connections of hub.go over any course of events.
pub mod Tokens
use crew_im.Prelude.{
  ℕ, zero, suc, ◌+◌, ◌-◌, ◌*◌, ◌/◌, ◌%◌, ◌≤◌, ◌<◌, String, ◌≡◌, refl, sym, ap, ◌∙◌, ◌≢◌, ◌↔◌, ◌⊎◌,
  inl, inr, Bool, true, false, ◌&&◌, ◌||◌, not, Option, none, some, List, [], ◌∷◌, ◌++◌, map, arith,
  ltb, leb, ◌==◌, if◌then◌else◌, ltb→lt, lt→ltb, leb→le, ==_iff, Bool-cases, Option-cases, All,
  length, take, last?, keep, length-append, last?-append, length-keep-le, All-append, All-keep,
  All-map, Bytes, bytes_eq, bytes_eq_iff, bytes_eq_refl, eq_of_bytes_eq, bytes_ne, is_empty, join,
  ◌<>◌, decimal, str_eq, str_eq_iff, trim_space, trim_prefix, trim_suffix, Result, ok, err,
}
use crew_im.Hub.{
  Hub, Token, new_hub, is_elem, entry, put_entry, with_conn, without_conn, add_conn, unless_empty,
  remove_conn, verify_token, recipients, Handler, unauthenticated, authenticated, closed, Incoming,
  read_error, no_json, envelope, handle_ws, greet, user_of,
}

-- The hub with all its connections.
pub record Server : Type 0 where
  pub hub : Hub
  pub handlers : ℕ → Handler

-- A message arrives on a connection, or a write of `Send` to it has failed.
pub data Event : Type 0 where
  arrives : ℕ → Incoming → Event
  write_fails : ℕ → ℕ → Event

unfoldable pub step : Event → Server → Server
step (arrives c m) s =
    let (hub, handler, reply) = handle_ws c s.hub (s.handlers c) m in
    record { hub = hub; handlers = λ d. if c == d then handler else s.handlers d }
step (write_fails user c) s = record s { hub = remove_conn user c s.hub }

unfoldable pub run : List Event → Server → Server
run [] s = s
run (e ∷ es) s = run es (step e s)

is_elem-with_conn : (c d : ℕ) (cs : List ℕ) → is_elem d (with_conn c cs) ≡ (c == d || is_elem d cs)
unfolding with_conn is_elem
is_elem-with_conn c d cs = ground arith

is_elem-without_conn :
    (c d : ℕ) (cs : List ℕ) → is_elem d (without_conn c cs) ≡ (not (c == d) && is_elem d cs)
unfolding without_conn is_elem
is_elem-without_conn c d [] = ground arith
is_elem-without_conn c d (e ∷ es) = ground (arith, is_elem-without_conn c d es)

recipients-add_conn :
    (user c u d : ℕ) (h : Hub)
    → is_elem d (recipients u (add_conn user c h))
      ≡ (user == u && c == d || is_elem d (recipients u h))
unfolding recipients add_conn put_entry entry
recipients-add_conn user c u d h = ground (arith, is_elem-with_conn c d (entry (h.conns user)))

entry-unless_empty : (cs : List ℕ) → entry (unless_empty cs) ≡ cs
unfolding entry unless_empty
entry-unless_empty [] = refl
entry-unless_empty (c ∷ cs) = refl

recipients-remove_conn :
    (user c u d : ℕ) (h : Hub)
    → is_elem d (recipients u (remove_conn user c h))
      ≡ (not (user == u && c == d) && is_elem d (recipients u h))
unfolding recipients remove_conn put_entry
recipients-remove_conn user c u d h = ground (
  arith,
  is_elem-without_conn c d (entry (h.conns user)),
  entry-unless_empty (without_conn c (entry (h.conns user))),
)

-- No connection has said anything yet.
abbrev pub new_server : (String → Option Token) → Server
new_server parse = record { hub = new_hub parse; handlers = λ c. unauthenticated }
