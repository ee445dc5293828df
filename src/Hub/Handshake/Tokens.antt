-- ===== src/Hub/Handshake/Tokens.antt =====
-- That only who has shown a token of a user receives the pushes for that user: hub.go.
use crew_im.Prelude.{
  ℕ, String, ◌≡◌, refl, sym, ap, ◌∙◌, ◌⊎◌, inl, inr, true, false, Option, none, some, List, [], ◌∷◌,
  arith, ◌==◌, if◌then◌else◌, ==_iff, Bool-cases, str_eq, str_eq_iff,
}
use crew_im.Hub.{
  Hub, Token, new_hub, is_elem, entry, put_entry, add_conn, remove_conn, verify_token, user_of,
  recipients, Handler, unauthenticated, authenticated, closed, Incoming, read_error, no_json,
  envelope, handle_ws, greet,
}
use crew_im.Hub.Handshake.{
  Server, Event, arrives, write_fails, step, run, recipients-add_conn, recipients-remove_conn,
  new_server,
}

-- The event by which a connection shows a token of the user.
pub Vouches : (String → Option Token) → ℕ → ℕ → Event → Type 0
Vouches parse c u (arrives d (envelope type token)) =
    (d ≡ c) × (type ≡ "auth") × (user_of (parse token) ≡ some u)
Vouches parse c u (arrives d read_error) = ⊥
Vouches parse c u (arrives d no_json) = ⊥
Vouches parse c u (write_fails user d) = ⊥

-- Some element has the property.
pub Any : {A : Type 0} → (A → Type 0) → List A → Type 0
Any P [] = ⊥
Any P (x ∷ xs) = P x ⊎ Any P xs

module _ (parse : String → Option Token) (P : ℕ → ℕ → Type 0) where
  record Holds (s : Server) : Type 0 where
    only : (u c : ℕ) → is_elem c (recipients u s.hub) ≡ true → s.handlers c ≡ authenticated u
    vouched : (u c : ℕ) → s.handlers c ≡ authenticated u → P c u
    same : s.hub.parse ≡ parse

  moved-Holds :
      (c : ℕ) (hub : Hub) (st : Handler) (s : Server)
      → Holds s
      → hub.parse ≡ parse
      → ((u d : ℕ)
          → (c == d) ≡ false
          → is_elem d (recipients u hub) ≡ true
          → is_elem d (recipients u s.hub) ≡ true)
      → ((u : ℕ) → is_elem c (recipients u hub) ≡ true → st ≡ authenticated u)
      → ((u : ℕ) → st ≡ authenticated u → P c u)
      → Holds (record { hub = hub; handlers = λ d. if c == d then st else s.handlers d })
  moved-Holds c hub st s i p others this vouch = record {
    only = λ u d h. elim (Bool-cases (c == d)) [
      | inl e ↦ rw e (this u (rw (← (==_iff c d).0 e) at h))
      | inr e ↦ rw e (i.only u d (others u d e h))
    ];
    vouched = λ u d h. elim (Bool-cases (c == d)) [
      | inl e ↦ rw (← (==_iff c d).0 e) (vouch u (rw e at h))
      | inr e ↦ i.vouched u d (rw e at h)
    ];
    same = p;
  }

  -- Nothing changes.
  kept-Holds :
      (c : ℕ) (st : Handler) (s : Server)
      → s.handlers c ≡ st
      → Holds s
      → Holds (record { hub = s.hub; handlers = λ d. if c == d then st else s.handlers d })
  kept-Holds c st s k i =
      moved-Holds c s.hub st s i i.same (λ u d e h. h) (λ u h. sym k ∙ i.only u c h)
        (λ u e. i.vouched u c (k ∙ e))

  -- A connection that was never authenticated is closed.
  refused-Holds :
      (c : ℕ) (s : Server)
      → s.handlers c ≡ unauthenticated
      → Holds s
      → Holds (record { hub = s.hub; handlers = λ d. if c == d then closed else s.handlers d })
  refused-Holds c s k i =
      moved-Holds c s.hub closed s i i.same (λ u d e h. h) (λ u h. let was = i.only u c h in cc)
        (λ u e. cc)

  -- Who is removed no longer receives.
  gone :
      (user c u : ℕ) (s : Server)
      → s.handlers c ≡ authenticated user
      → Holds s
      → is_elem c (recipients u (remove_conn user c s.hub)) ≡ true
      → ⊥
  gone user c u s k i h =
      let there : is_elem c (recipients u s.hub) ≡ true =
        ground (arith, recipients-remove_conn user c u c s.hub) in
      let was = i.only u c there in
      let same_user : user ≡ u = cc in
      ground (arith, same_user, recipients-remove_conn user c u c s.hub)

  -- Who is added receives what is for the user.
  joined :
      (user c u : ℕ) (s : Server)
      → s.handlers c ≡ unauthenticated
      → Holds s
      → is_elem c (recipients u (add_conn user c s.hub)) ≡ true
      → authenticated user ≡ authenticated u
  joined user c u s k i h = elim (Bool-cases (user == u)) [
    | inl e ↦ ap authenticated ((==_iff user u).0 e)
    | inr e ↦
        let there : is_elem c (recipients u s.hub) ≡ true =
          ground (arith, e, recipients-add_conn user c u c s.hub) in
        let was = i.only u c there in cc
  ]

  left-Holds :
      (c user : ℕ) (s : Server)
      → s.handlers c ≡ authenticated user
      → Holds s
      → Holds (record {
        hub = remove_conn user c s.hub;
        handlers = λ d. if c == d then closed else s.handlers d;
      })
  unfolding remove_conn put_entry
  left-Holds c user s k i =
      moved-Holds c (remove_conn user c s.hub) closed s i i.same
        (λ u d e h. ground (arith, recipients-remove_conn user c u d s.hub))
        (λ u h. absurd (gone user c u s k i h)) (λ u e. cc)

  greet-Holds :
      (c : ℕ) (s : Server) (found : Option ℕ)
      → s.handlers c ≡ unauthenticated
      → ((u : ℕ) → found ≡ some u → P c u)
      → Holds s
      → Holds (record {
        hub = (greet c s.hub found).0;
        handlers = λ d. if c == d then (greet c s.hub found).1 else s.handlers d;
      })
  unfolding greet add_conn put_entry
  greet-Holds c s none k v i = refused-Holds c s k i
  greet-Holds c s (some user) k v i =
      moved-Holds c (add_conn user c s.hub) (authenticated user) s i i.same
        (λ u d e h. ground (arith, recipients-add_conn user c u d s.hub))
        (λ u h. joined user c u s k i h) (λ u e. v u cc)

  handle_ws-Holds :
      (c : ℕ) (s : Server) (st : Handler) (m : Incoming)
      → s.handlers c ≡ st
      → ((u : ℕ) → Vouches parse c u (arrives c m) → P c u)
      → Holds s
      → Holds (record {
        hub = (handle_ws c s.hub st m).0;
        handlers = λ d. if c == d then (handle_ws c s.hub st m).1 else s.handlers d;
      })
  unfolding handle_ws verify_token Vouches
  handle_ws-Holds c s closed m k v i = kept-Holds c closed s k i
  handle_ws-Holds c s unauthenticated read_error k v i = refused-Holds c s k i
  handle_ws-Holds c s unauthenticated no_json k v i = kept-Holds c unauthenticated s k i
  handle_ws-Holds c s unauthenticated (envelope type token) k v i =
      elim (Bool-cases (str_eq type "auth")) [
        | inl e ↦ rw e (
            greet-Holds c s (verify_token s.hub token) k
              (λ u h. v u (refl, (str_eq_iff type "auth").0 e, rw i.same at h)) i)
        | inr e ↦ rw e (refused-Holds c s k i)
      ]
  handle_ws-Holds c s (authenticated user) read_error k v i = left-Holds c user s k i
  handle_ws-Holds c s (authenticated user) no_json k v i = kept-Holds c (authenticated user) s k i
  handle_ws-Holds c s (authenticated user) (envelope type token) k v i =
      kept-Holds c (authenticated user) s k i

  fails-Holds : (user c : ℕ) (s : Server) → Holds s → Holds (step (write_fails user c) s)
  unfolding step remove_conn put_entry
  fails-Holds user c s i = record {
    only = λ u d h. i.only u d (ground (arith, h, recipients-remove_conn user c u d s.hub));
    vouched = i.vouched;
    same = i.same;
  }

  step-Holds :
      (e : Event) (s : Server)
      → ((u c : ℕ) → Vouches parse c u e → P c u)
      → Holds s
      → Holds (step e s)
  unfolding step
  step-Holds (arrives c m) s v i = handle_ws-Holds c s (s.handlers c) m refl (λ u h. v u c h) i
  step-Holds (write_fails user c) s v i = fails-Holds user c s i

  run-Holds :
      (es : List Event) (s : Server)
      → ((u c : ℕ) → Any (Vouches parse c u) es → P c u)
      → Holds s
      → Holds (run es s)
  unfolding run Any
  run-Holds [] s v i = i
  run-Holds (e ∷ es) s v i =
      run-Holds es (step e s) (λ u c h. v u c (inr h)) (step-Holds e s (λ u c h. v u c (inl h)) i)

-- Whatever arrives in whatever order, and whichever writes fail: a connection to which the pushes of
-- a user go has shown, in a message of the type auth, a valid token with that user's identifier, and
-- its handler has taken it and is still running.
pub recipients-Vouches :
    (parse : String → Option Token) (es : List Event) (u c : ℕ)
    → is_elem c (recipients u (run es (new_server parse)).hub) ≡ true
    → Any (Vouches parse c u) es × ((run es (new_server parse)).handlers c ≡ authenticated u)
unfolding new_hub recipients entry is_elem
recipients-Vouches parse es u c h =
    let i =
      run-Holds parse (λ d v. Any (Vouches parse d v) es) es (new_server parse) (λ v d a. a)
        (record { only = λ v d k. cc; vouched = λ v d k. cc; same = refl }) in
    (i.vouched u c (i.only u c h), i.only u c h)
