-- ===== src/Checks/Hub.antt =====
-- A connection to the hub at a concrete course of events.
use crew_im.Prelude.{String, ◌≡◌, refl, true, Option, some, List, [], ◌∷◌}
use crew_im.Hub.{
  Token, recipients, is_elem, entry, add_conn, put_entry, with_conn, verify_token, greet, handle_ws,
  new_hub, envelope, authenticated,
}
use crew_im.Hub.Handshake.{Event, arrives, run, step, new_server}
use crew_im.Hub.Handshake.Tokens.{Any, Vouches, recipients-Vouches}

-- Every token is one of user 7.
abbrev parse_seven : String → Option Token
parse_seven s = some (record { valid = true; user_id = some 7 })

abbrev one_login : List Event
one_login = arrives 3 (envelope "auth" "t") ∷ []

logged_in : is_elem 3 (recipients 7 (run one_login (new_server parse_seven)).hub) ≡ true
unfolding recipients is_elem entry add_conn put_entry with_conn verify_token greet handle_ws new_hub
    run step
logged_in = refl

recipients-Vouches_example :
    Any (Vouches parse_seven 3 7) one_login
    × ((run one_login (new_server parse_seven)).handlers 3 ≡ authenticated 7)
recipients-Vouches_example = recipients-Vouches parse_seven one_login 7 3 logged_in
