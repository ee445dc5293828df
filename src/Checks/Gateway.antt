-- ===== src/Checks/Gateway.antt =====
-- A run of the OpenClaw client at concrete inputs.
use crew_im.Prelude.{◌≡◌, refl, true, false, none, some}
use crew_im.OpenClaw.{
  Client, Event, step, new_client, connect, fresh, shut, shut_old, leave, disconnect,
  ensure_connected, send_message,
}
use crew_im.OpenClaw.Sound.{Sound}
use crew_im.OpenClaw.Registered.{Reaches, here, further, Reaches-Sound}

abbrev after : Event → Client → Client
after e c = elim (step e c) [ none ↦ c | some c' ↦ c' ]

-- User 1 connects, the read loop begins to read, and the user disconnects.
abbrev dialled : Client
dialled = after (Event.dials_ensured 0 true) (after (Event.ensures 1 "ws://gateway") new_client)

abbrev disconnected : Client
disconnected = after (Event.disconnects 1) (after (Event.reads 0 true) dialled)

-- The read fails on the closed connection, the loop ends, and the attempt to reconnect succeeds.
abbrev back : Client
back =
    after (Event.tries_again 0 true)
      (after (Event.reads 0 true) (after (Event.reads 0 false) disconnected))

disconnected-Reaches : Reaches new_client disconnected
unfolding step new_client connect fresh shut shut_old disconnect ensure_connected
disconnected-Reaches =
    further (Event.disconnects 1)
      (further (Event.reads 0 true)
        (further (Event.dials_ensured 0 true) (further (Event.ensures 1 "ws://gateway") here refl)
          refl)
        refl)
      refl

back-Reaches : Reaches new_client back
unfolding step new_client connect fresh shut shut_old disconnect ensure_connected leave
back-Reaches =
    further (Event.tries_again 0 true)
      (further (Event.reads 0 true) (further (Event.reads 0 false) disconnected-Reaches refl) refl)
      refl

-- So a user who has disconnected is connected again.
comes_back : send_message 1 back ≡ some 1
unfolding send_message step new_client connect fresh shut shut_old disconnect ensure_connected leave
comes_back = refl

Reaches-Sound_example : Sound back
Reaches-Sound_example = Reaches-Sound back back-Reaches
