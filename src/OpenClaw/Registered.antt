-- ===== src/OpenClaw/Registered.antt =====
-- Which connections are open in every state that the client reaches: client.go.
use crew_im.Prelude.{
  remove_at, get_elem?, ℕ, ◌+◌, String, ◌≡◌, refl, inl, inr, Bool, true, false, Option, none, some,
  List, [], ◌∷◌, ◌++◌, arith, ltb, if◌then◌else◌, Bool-cases, is_empty,
}
use crew_im.OpenClaw.{
  send_message, Client, Reader, selecting, reading, leaving, ended, Event, step, new_client, change,
  after_read, beat, read_loop, try_again, ensure_connected, has_connection, dial_ensured, Reconnect,
}
use crew_im.OpenClaw.Sound.{
  Sound, new_client-Sound, set_reader-Sound, disconnect-Sound, connect-Sound, leave-Sound,
  close-Sound,
}

-- The events lead from a state to another.
pub data Reaches (c : Client) : Client → Type 0 where
  here : Reaches c c
  further : {c' c'' : Client} (e : Event) → Reaches c c' → step e c' ≡ some c'' → Reaches c c''

-- Who waits to dial is of no account.
goroutines-Sound :
    (c : Client) (es : List (ℕ × String)) (rs : List Reconnect)
    → Sound c
    → Sound (record c { ensuring = es; reconnecting = rs })
goroutines-Sound c es rs s = record {
  in_heap = s.in_heap;
  of_user = s.of_user;
  is_read = s.is_read;
  is_open = s.is_open;
  is_cancelled = s.is_cancelled;
}

beat-Sound : (a : ℕ) (succeeds : Bool) (c : Client) → Sound c → Sound (beat a succeeds c)
unfolding beat
beat-Sound a succeeds c s = record {
  in_heap = s.in_heap;
  of_user = λ u b e. let p = s.of_user u b e in ground arith;
  is_read = λ u b e. let p = s.is_read u b e in ground arith;
  is_open = λ b h. let p = s.is_open b h in ground arith;
  is_cancelled = λ b h. let p = s.is_cancelled b h in ground arith;
}

abbrev Leads : Option Client → Type 0
Leads none = Unit {0}
Leads (some c) = Sound c

read_loop-Sound :
    (a : ℕ) (succeeds : Bool) (c : Client) (r : Reader)
    → (c.heap a).reader ≡ r
    → Sound c
    → Leads (read_loop a succeeds c r)
unfolding read_loop after_read
read_loop-Sound a succeeds c selecting e s =
    set_reader-Sound c a (if (c.heap a).cancelled then leaving else reading) (ground arith) s
read_loop-Sound a true c reading e s = set_reader-Sound c a selecting refl s
read_loop-Sound a false c reading e s =
    let c' : Client = record c { heap = change a (λ k. record k { reader = leaving }) c.heap } in
    goroutines-Sound c' c.ensuring
      (c.reconnecting
        ++ record { user = (c.heap a).user; gateway_url = (c.heap a).gateway_url; attempt = 0 }
          ∷ [])
      (set_reader-Sound c a leaving refl s)
read_loop-Sound a succeeds c leaving e s = leave-Sound a c s
read_loop-Sound a succeeds c ended e s = tt

dial_ensured-Sound :
    (i : ℕ) (succeeds : Bool) (c : Client) (o : Option (ℕ × String))
    → Sound c
    → Leads (dial_ensured i succeeds c o)
unfolding dial_ensured
dial_ensured-Sound i succeeds c none s = tt
dial_ensured-Sound i true c (some (user, url)) s =
    connect-Sound user url (record c { ensuring = remove_at i c.ensuring })
      (goroutines-Sound c (remove_at i c.ensuring) c.reconnecting s)
dial_ensured-Sound i false c (some (user, url)) s =
    goroutines-Sound c (remove_at i c.ensuring) c.reconnecting s

try_again-Sound :
    (i : ℕ) (succeeds : Bool) (c : Client) (o : Option Reconnect)
    → Sound c
    → Leads (try_again i succeeds c o)
unfolding try_again
try_again-Sound i succeeds c none s = tt
try_again-Sound i true c (some r) s =
    connect-Sound r.user r.gateway_url (record c { reconnecting = remove_at i c.reconnecting })
      (goroutines-Sound c c.ensuring (remove_at i c.reconnecting) s)
try_again-Sound i false c (some r) s =
    let rest = remove_at i c.reconnecting in
    elim (Bool-cases (ltb (r.attempt + 1) 10)) [
      | inl e ↦
          rw e (goroutines-Sound c c.ensuring (rest ++ record r { attempt = r.attempt + 1 } ∷ []) s)
      | inr e ↦ rw e (goroutines-Sound c c.ensuring rest s)
    ]

ensure_connected-Sound :
    (user : ℕ) (url : String) (c : Client) → Sound c → Sound (ensure_connected user url c).1
unfolding ensure_connected
ensure_connected-Sound user url c s = elim (Bool-cases (has_connection user c)) [
  | inl e ↦ rw e s
  | inr e ↦ rw e (elim (Bool-cases (is_empty url)) [
    | inl e' ↦ rw e' s
    | inr e' ↦ rw e' (goroutines-Sound c (c.ensuring ++ (user, url) ∷ []) c.reconnecting s)
  ])
]

step-Sound : (e : Event) (c : Client) → Sound c → Leads (step e c)
unfolding step
step-Sound (Event.ensures user url) c s = ensure_connected-Sound user url c s
step-Sound (Event.dials_ensured i succeeds) c s =
    dial_ensured-Sound i succeeds c (get_elem? c.ensuring i) s
step-Sound (Event.reads a succeeds) c s = read_loop-Sound a succeeds c (c.heap a).reader refl s
step-Sound (Event.beats a succeeds) c s = beat-Sound a succeeds c s
step-Sound (Event.tries_again i succeeds) c s =
    try_again-Sound i succeeds c (get_elem? c.reconnecting i) s
step-Sound (Event.disconnects user) c s = disconnect-Sound user c s
step-Sound Event.closes c s = close-Sound c s

-- However the handlers, the read loops, the heartbeats and the attempts to reconnect interleave: every
-- connection in the map is a connection of that user, with a read loop that has not ended, and a
-- connection has been closed just when it is not the one in the map of its user, so that none is
-- leaked; one that is cancelled is closed.
pub Reaches-Sound : (c : Client) → Reaches new_client c → Sound c
Reaches-Sound c here = new_client-Sound
Reaches-Sound c (further {c' = c'} e r h) = rw h at (step-Sound e c' (Reaches-Sound c' r))

-- So a message goes to a connection of that user, which nobody has closed or cancelled.
pub send_message_open :
    (c : Client) (u a : ℕ)
    → Reaches new_client c
    → send_message u c ≡ some a
    → ((c.heap a).user ≡ u) × ((c.heap a).closed ≡ false) × ((c.heap a).cancelled ≡ false)
unfolding send_message
send_message_open c u a r e =
    let s = Reaches-Sound c r in
    let owner = s.of_user u a e in
    let bound = s.in_heap u a e in
    let open_there = s.is_open a bound in
    let cancels = s.is_cancelled a bound in (owner, ground arith, ground arith)
