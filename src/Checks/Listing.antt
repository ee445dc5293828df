-- ===== src/Checks/Listing.antt =====
-- Pages of tasks at concrete inputs.
use crew_im.Prelude.{
  ◌*◌, String, ◌≡◌, refl, true, some, List, [], ◌∷◌, map, arith, length, take, keep,
}
use crew_im.Model.{no_uuid}
use crew_im.Model.{Task, cancelled}
use crew_im.World.{World}
use crew_im.Understanding.Context.{latest_first}
use crew_im.Tasks.Listing.{
  Ties, matches, TaskQuery, row_of, session_filter, page_of, limit_of, atoi,
}
use crew_im.Tasks.Listing.Pages.{NoTies, Pages, walk, walk-Pages}
use crew_im.Checks.Data.{services, task, world}

abbrev query : String → TaskQuery
query page = record { status = ""; session_id = no_uuid ""; page = page; limit = "1" }

abbrev queries : List TaskQuery
queries = query "" ∷ query "2" ∷ []

any_session : session_filter (no_uuid "") ≡ some (λ t. true)
unfolding session_filter
any_session = refl

-- Tasks of user 1 from two times, and a database that orders by the tick of the query.
abbrev two_tasks : World
two_tasks = record world {
  tasks = task 10 1 cancelled ∷ record (task 11 1 cancelled) { created_at = 3 } ∷ [];
}

abbrev ties : Ties
ties = λ n t. n

no_ties : NoTies services ties 1 1 "" (no_uuid "") (λ t. true) (λ n. refl) any_session two_tasks
unfolding matches
no_ties = ((omega arith, tt), (tt, tt))

queries-Pages : Pages 0 1 "" (no_uuid "") queries
unfolding page_of limit_of atoi
queries-Pages = (refl, refl, refl, refl, (refl, refl, refl, refl, tt))

walk-Pages_example :
    walk services ties 1 queries two_tasks
    ≡ map row_of (
        take (length queries * 1) (
          latest_first
            (λ (t : Task). t.created_at)
            (keep (matches 1 "" (λ t. true)) two_tasks.tasks)))
walk-Pages_example =
    walk-Pages services ties 1 1 "" (no_uuid "") (λ t. true) (λ n. refl) any_session queries
      two_tasks queries-Pages (omega arith) no_ties
