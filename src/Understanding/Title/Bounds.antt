-- ===== src/Understanding/Title/Bounds.antt =====
-- What autoTitleSession may do to titles: understanding.go.
use crew_im.Prelude.{
  ℕ, zero, suc, ◌≤◌, String, ◌≡◌, refl, sym, ap, ◌∙◌, ◌⊎◌, inl, inr, true, false, Option, none,
  some, [], ◌∷◌, arith, ltb, ◌==◌, if◌then◌else◌, ==_iff, Bool-cases, is_empty, trim_space,
}
use Prim.Native.String.{count}
use text.Mathlib.TextLemmas.{length-append as count-append, length-cons, length-nil}
use mathlib.Core.Path.{subst}
use crew_im.World.{query_row, World, Services, Session}
use crew_im.World.Table.{find_by, find_by-update_by, map_option}
use crew_im.Claude.Model.{user, plain}
use crew_im.Claude.Client.{ClaudeClient, call_simple}
use crew_im.Claude.Calls.{call-LaterThan}
use crew_im.Understanding.Title.{
  first_runes, shortened, clean_title, no_title, set_title, name_session, ask_title, unless_many,
  auto_title_session, title_read, or_input, title_prompt, trim_quotes, count_tasks,
}

count-first_runes : (n : ℕ) (s : String) → count (first_runes n s) ≤ n
unfolding first_runes
count-first_runes zero s = rw length-nil (omega arith)
count-first_runes (suc n) String.[] = rw length-nil (omega arith)
count-first_runes (suc n) (String.◌∷◌ c s) =
    rw (length-cons c (first_runes n s)) (let ih = count-first_runes n s in omega arith)

count-shortened : (s : String) → count (shortened s) ≤ 15
unfolding shortened
count-shortened s = ground (arith, count-append (first_runes 14 s) "…", count-first_runes 14 s)

-- A session stays as it was, or a blank title becomes a short one.
abbrev pub Titled : Services → ℕ → ℕ → Option Session → Option Session → Type 0
Titled sv session j before after =
    (after ≡ before)
    ⊎ ((s : Session) × (t : String) × (n : ℕ) × (j ≡ session)
        × (before ≡ some s)
        × (no_title s.title ≡ true)
        × (after ≡ some (record s { title = some t; updated_at = sv.now n }))
        × (is_empty t ≡ false)
        × (count t ≤ 15))

abbrev pub row : ℕ → World → Option Session
row j w = find_by (λ (s : Session). s.id) j w.sessions

abbrev retitled : Services → ℕ → String → Session → Session
retitled sv n t s =
    if no_title s.title then record s { title = some t; updated_at = sv.now n } else s

retitled-Titled :
    (sv : Services) (j n : ℕ) (t : String) (old : Option Session)
    → is_empty t ≡ false
    → count t ≤ 15
    → Titled sv j j old (map_option (retitled sv n t) old)
retitled-Titled sv j n t none full short = inl refl
retitled-Titled sv j n t (some s) full short = elim (Bool-cases (no_title s.title)) [
  | inl e ↦ inr (s, t, n, refl, refl, e, (rw e refl), full, short)
  | inr e ↦ inl (rw e refl)
]

set_title-Titled :
    (sv : Services) (session j : ℕ) (t : String) (w : World)
    → is_empty t ≡ false
    → count t ≤ 15
    → Titled sv session j (row j w) (row j (set_title sv session t w))
unfolding set_title
set_title-Titled sv session j t w full short = elim (Bool-cases (sv.db_ok w.tick)) [
  | inr down ↦ inl (rw down refl)
  | inl up ↦ rw up (
      rw
        (find_by-update_by (λ (s : Session). s.id) j session (retitled sv w.tick t) w.sessions
          (λ r. ground arith))
        (elim (Bool-cases (session == j)) [
          | inl e ↦
              (let same = (==_iff session j).0 e in
                subst
                  (λ i.
                    Titled sv i j (row j w) (
                      if session == j
                      then map_option (retitled sv w.tick t) (row j w)
                      else row j w))
                  (sym same) (rw e (retitled-Titled sv j w.tick t (row j w) full short)))
          | inr e ↦ inl (rw e refl)
        ]))
]

call_simple-row :
    (sv : Services) (c : ClaudeClient) (sys input : String) (max j : ℕ) (w : World)
    → row j (call_simple sv c sys input max w).1 ≡ row j w
unfolding call_simple
call_simple-row sv c sys input max j w =
    ap (row j)
      (call-LaterThan sv c sys (record { role = user; content = plain input } ∷ []) [] max w).0

module _ (sv : Services) (c : ClaudeClient) (owner session j : ℕ) (before : Option Session) where
  name_session-Titled :
      (t : String) (w : World)
      → row j w ≡ before
      → count t ≤ 15
      → Titled sv session j before (row j (name_session sv owner session t w).1)
  unfolding name_session
  name_session-Titled t w same short = elim (Bool-cases (is_empty t)) [
    | inl e ↦ inl (rw e same)
    | inr e ↦ rw e (
        subst (λ b. Titled sv session j b (row j (set_title sv session t w))) same
          (set_title-Titled sv session j t w e short))
  ]

  ask_title-Titled :
      (input : String) (w : World)
      → row j w ≡ before
      → Titled sv session j before (row j (ask_title sv c owner session input w).1)
  unfolding ask_title clean_title
  ask_title-Titled input w same =
      let (answer, w') = call_simple sv c title_prompt input 50 w in
      name_session-Titled (clean_title (or_input input answer)) w'
        (call_simple-row sv c title_prompt input 50 j w ∙ same)
        (count-shortened (trim_quotes (trim_space (or_input input answer))))

  unless_many-Titled :
      (input : String) (n : Option ℕ) (w : World)
      → row j w ≡ before
      → Titled sv session j before (row j (unless_many sv c owner session input n w).1)
  unfolding unless_many
  unless_many-Titled input none w same = ask_title-Titled input w same
  unless_many-Titled input (some n) w same = elim (Bool-cases (ltb 1 n)) [
    | inl e ↦ inl (rw e same)
    | inr e ↦ rw e (ask_title-Titled input w same)
  ]

-- Naming a session after a command changes no other session and no title that is there: a blank title
-- may become a text of one to fifteen characters, and this whatever the services do.
pub auto_title_session-Titled :
    (sv : Services) (c : ClaudeClient) (owner session j : ℕ) (input : String) (w : World)
    → Titled sv session j (row j w) (row j (auto_title_session sv c owner session input w).1)
unfolding auto_title_session
auto_title_session-Titled sv c owner session j input w =
    let (found, w₁) = query_row sv (λ v. find_by (λ (s : Session). s.id) session v.sessions) w in
    let (n, w₂) = query_row sv (λ v. some (count_tasks session v.tasks)) w₁ in
    elim (Bool-cases (no_title (title_read found))) [
      | inr e ↦ inl (rw e refl)
      | inl e ↦ rw e (unless_many-Titled sv c owner session j (row j w) input n w₂ refl)
    ]

-- What else the tables hold.
abbrev Idle : World → World → Type 0
Idle w w' = (w'.tasks ≡ w.tasks) × (w'.enqueued ≡ w.enqueued)

module _ (sv : Services) (c : ClaudeClient) (owner session : ℕ) where
  name_session-Idle : (t : String) (w : World) → Idle w (name_session sv owner session t w).1
  unfolding name_session set_title
  name_session-Idle t w = (ground arith, ground arith)

  ask_title-Idle : (input : String) (w : World) → Idle w (ask_title sv c owner session input w).1
  unfolding ask_title call_simple
  ask_title-Idle input w =
      let (answer, w') = call_simple sv c title_prompt input 50 w in
      let same =
        (call-LaterThan sv c title_prompt (record { role = user; content = plain input } ∷ []) [] 50
          w).0 in
      let (tasks, jobs) = name_session-Idle (clean_title (or_input input answer)) w' in
      (tasks ∙ ap (λ (v : World). v.tasks) same, jobs ∙ ap (λ (v : World). v.enqueued) same)

  unless_many-Idle :
      (input : String) (n : Option ℕ) (w : World)
      → Idle w (unless_many sv c owner session input n w).1
  unfolding unless_many
  unless_many-Idle input none w = ask_title-Idle input w
  unless_many-Idle input (some n) w = elim (Bool-cases (ltb 1 n)) [
    | inl e ↦ rw e (refl, refl)
    | inr e ↦ rw e (ask_title-Idle input w)
  ]

-- Naming a session leaves the tasks and the jobs alone.
pub auto_title_session-tasks :
    (sv : Services) (c : ClaudeClient) (owner session : ℕ) (input : String) (w : World)
    → ((auto_title_session sv c owner session input w).1.tasks ≡ w.tasks)
      × ((auto_title_session sv c owner session input w).1.enqueued ≡ w.enqueued)
unfolding auto_title_session
auto_title_session-tasks sv c owner session input w =
    let (found, w₁) = query_row sv (λ v. find_by (λ (s : Session). s.id) session v.sessions) w in
    let (n, w₂) = query_row sv (λ v. some (count_tasks session v.tasks)) w₁ in
    elim (Bool-cases (no_title (title_read found))) [
      | inr e ↦ rw e (refl, refl)
      | inl e ↦ rw e (unless_many-Idle sv c owner session input n w₂)
    ]
