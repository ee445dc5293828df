-- ===== src/Server/Waiting.antt =====
-- Which executions wait, and that the handlers leave none out: tasks.go and commands.go.
use crew_im.Prelude.{
  get_elem?, remove_at, ℕ, zero, suc, ◌+◌, String, ◌≡◌, refl, Bool, true, false, ◌||◌, not, Option,
  none, some, List, [], ◌∷◌, ◌++◌, arith, ◌==◌,
}
use crew_im.Model.{Task, TaskStatus, executing}
use crew_im.World.{World, Services, Enqueued}
use crew_im.World.Table.{find_by-append, map_option}
use crew_im.Tasks.Actions.{Action, confirm, act, row, row-act, reply-act, job_of}
use crew_im.Tasks.{TaskHandler, select_status}
use crew_im.Tasks.{batch_loop, batch_one, batch_confirm}
use crew_im.Tasks.Batch.{Request, one, batch, serve, batch_one-eq}
use crew_im.Commands.{CommandReply, http_error, accepted}
use crew_im.Commands.Effects.{Answers}

-- Whether the execution of a task waits.
unfoldable pub waits : ℕ → List Enqueued → Bool
waits id [] = false
waits id (Enqueued.understand k ∷ js) = waits id js
waits id (Enqueued.execute k ∷ js) = k == id || waits id js

pub waits-append :
    (id : ℕ) (js ks : List Enqueued) → waits id (js ++ ks) ≡ waits id js || waits id ks
unfolding waits
waits-append id [] ks = refl
waits-append id (Enqueued.understand k ∷ js) ks = waits-append id js ks
waits-append id (Enqueued.execute k ∷ js) ks = ground (arith, waits-append id js ks)

pub waits-remove_at :
    (id i : ℕ) (job : Enqueued) (js : List Enqueued)
    → get_elem? js i ≡ some job
    → waits id js ≡ waits id (job ∷ []) || waits id (remove_at i js)
unfolding waits
waits-remove_at id i job [] e = cc
waits-remove_at id zero job (k ∷ js) e =
    let same : k ≡ job = cc in rw same (waits-append id (job ∷ []) js)
waits-remove_at id (suc i) job (Enqueued.understand k ∷ js) e = waits-remove_at id i job js e
waits-remove_at id (suc i) job (Enqueued.execute k ∷ js) e =
    ground (arith, waits-remove_at id i job js e)

abbrev pub is_status : TaskStatus → Bool
is_status executing = true
is_status _ = false

abbrev pub is_executing : Option Task → Bool
is_executing none = false
is_executing (some t) = is_status t.status

-- A task that executes has its execution waiting.
abbrev pub Pending : ℕ → World → Type 0
Pending id w = (not (is_executing (row id w)) || waits id w.enqueued) ≡ true

pub act-Pending :
    (sv : Services) (h : TaskHandler) (a : Action) (user id j : ℕ) (w : World)
    → ((n : ℕ) → sv.db_ok n ≡ true)
    → h.has_queue ≡ true
    → Pending j w
    → Pending j (act sv h a user id w).1
unfolding select_status waits
act-Pending sv h a user id j w up queue p =
    let jobs = (reply-act sv h a user id w).2 in
    let task = row-act sv h a user id j w in
    let more = waits-append j w.enqueued (job_of a id) in ground (arith, up w.tick, up (w.tick + 1))

batch_loop-Pending :
    (sv : Services) (h : TaskHandler) (user j : ℕ) (ids confirmed : List ℕ) (w : World)
    → ((n : ℕ) → sv.db_ok n ≡ true)
    → h.has_queue ≡ true
    → Pending j w
    → Pending j (batch_loop sv h user ids confirmed w).1
unfolding batch_loop act
batch_loop-Pending sv h user j [] confirmed w up queue p = p
batch_loop-Pending sv h user j (id ∷ ids) confirmed w up queue p =
    let (next, w') = batch_one sv h user id confirmed w in
    batch_loop-Pending sv h user j ids next w' up queue (
      rw ((batch_one-eq sv h user id confirmed w).0)
        (act-Pending sv h confirm user id j w up queue p))

pub serve-Pending :
    (sv : Services) (h : TaskHandler) (user j : ℕ) (q : Request) (w : World)
    → ((n : ℕ) → sv.db_ok n ≡ true)
    → h.has_queue ≡ true
    → Pending j w
    → Pending j (serve sv h user (q ∷ []) w)
unfolding serve batch_confirm
serve-Pending sv h user j (one a id) w up queue p = act-Pending sv h a user id j w up queue p
serve-Pending sv h user j (batch []) w up queue p = p
serve-Pending sv h user j (batch (id ∷ ids)) w up queue p =
    batch_loop-Pending sv h user j (id ∷ ids) [] w up queue p

-- A command that is answered, in whichever way, adds at most a task that is created.
pub Answers-Pending :
    (has_queue : Bool) (user j : ℕ) (text : String) (reply : CommandReply) (w w' : World)
    → Answers has_queue user text w reply w'
    → Pending j w
    → Pending j w'
unfolding Answers waits
Answers-Pending has_queue user j text (http_error code) w w' (tasks, pushed, jobs, started) p =
    rw (tasks, jobs) p
Answers-Pending has_queue user j text (accepted id via) w w' a p =
    let found = find_by-append (λ (t : Task). t.id) j a.task w.tasks in
    let more = waits-append j w.enqueued (Enqueued.understand id ∷ []) in
    let jobs = a.jobs in let rows = a.rows in let start = a.fresh in ground arith

-- A row of a status, and its execution, if it has the status.
pub status_Pending :
    (j : ℕ) (t : TaskStatus) (before : Option Task) (w : World)
    → map_option (λ (u : Task). u.status) (row j w) ≡ map_option (λ (u : Task). t) before
    → (not (is_status t) || waits j w.enqueued) ≡ true
    → Pending j w
status_Pending j t before w e h = status_of (row j w) t before (waits j w.enqueued) e h
  where
    status_of :
        (o : Option Task) (t : TaskStatus) (before : Option Task) (b : Bool)
        → map_option (λ (u : Task). u.status) o ≡ map_option (λ (u : Task). t) before
        → (not (is_status t) || b) ≡ true
        → (not (is_executing o) || b) ≡ true
    status_of none t before b e h = refl
    status_of (some u) t none b e h = cc
    status_of (some u) t (some v) b e h = let same : u.status ≡ t = cc in rw same h
