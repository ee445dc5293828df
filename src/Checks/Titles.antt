-- ===== src/Checks/Titles.antt =====
-- A session that gets its title at concrete inputs.
use crew_im.Prelude.{◌≡◌, refl, none, [], ◌∷◌}
use crew_im.World.{World}
use crew_im.Claude.Client.{new_claude_client}
use crew_im.Understanding.Title.{auto_title_session, shortened, trim_quotes, first_runes}
use crew_im.Understanding.Title.Bounds.{Titled, row, auto_title_session-Titled}
use crew_im.Checks.Data.{services, world}

abbrev untitled : World
untitled = record world {
  sessions = record { id = 5; user_id = 1; title = none; created_at = 0; updated_at = 0 } ∷ [];
}

quotes_go : trim_quotes "「周报」" ≡ "周报"
unfolding trim_quotes
quotes_go = refl

fifteen_at_most : shortened "abcdefghijklmnop" ≡ "abcdefghijklmn…"
unfolding shortened first_runes
fifteen_at_most = refl

auto_title_session-Titled_example :
    Titled services 5 5 (row 5 untitled) (
      row 5
        (auto_title_session services (new_claude_client "k" "" "") 1 5 "order lunch" untitled).1)
auto_title_session-Titled_example =
    auto_title_session-Titled services (new_claude_client "k" "" "") 1 5 5 "order lunch" untitled
