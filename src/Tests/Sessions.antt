-- ===== src/Tests/Sessions.antt =====
-- sessions.c: two clients of one host, the limit reached by the second.
use k9_chatnet.Common.{
  ◌≤◌, ◌<◌, ◌≡◌, ◌↔◌, true, false, List, [], ◌∷◌, Bytes, none, arith, codes, IsText,
}
use k9_chatnet.Session.Types.{State, Config}
use k9_chatnet.Session.Table.{add_session, session_limit}
use k9_chatnet.Session.Table.Counts.{clients}
use k9_chatnet.Session.Table.Clients.{add_session-refuses_iff}
use k9_chatnet.Session.Table.Invariant.{IsValid, add_session-IsValid}
use k9_chatnet.Session.Run.{Event, connect, quit, run, Tracks, run-Tracks}
use k9_chatnet.Session.Run.Limit.{WithinLimit, run-WithinLimit}
use k9_chatnet.Session.Run.Start.{
  initial, nobody, initial-IsValid, nobody-Tracks, nobody-WithinLimit,
}

abbrev config : Config
config = record {
  def_session_limit = 2;
  defcon_session_limit = 1;
  reduce_session = false;
  max_session_kill = 3;
  session_auto_kill_expiry = 1800;
  session_limit_exceeded = none;
  session_limit_details_loc = none;
  wall_exception_expire = true;
}

abbrev host : Bytes
host = codes "Irc.Example.org"

abbrev other_name : Bytes
other_name = codes "irc.example.ORG"

abbrev nick : Bytes
nick = codes "alice"

host-IsText : IsText host
host-IsText = omega arith

other_name-IsText : IsText other_name
other_name-IsText = omega arith

one_client : State
one_client = (add_session config 100 nick host (initial [])).state

one_client-IsValid : IsValid one_client
unfolding one_client
one_client-IsValid =
    add_session-IsValid config 100 nick host (initial []) host-IsText (initial-IsValid [])

add_session-refuses_iff_example :
    ((add_session config 101 nick other_name one_client).added ≡ false) ↔ (
      (0 < session_limit config one_client.exceptions other_name)
      × (session_limit config one_client.exceptions other_name
          ≤ clients other_name one_client.sessionlist))
add_session-refuses_iff_example =
    add_session-refuses_iff config 101 nick other_name one_client one_client-IsValid
      other_name-IsText

abbrev history : List Event
history =
    connect 100 nick host
    ∷ connect 101 nick other_name
    ∷ connect 102 nick host
    ∷ quit other_name
    ∷ quit host
    ∷ []

run-Tracks_example : Tracks (run config (nobody []) history)
run-Tracks_example =
    run-Tracks config (nobody []) history
      (host-IsText, (other_name-IsText, (host-IsText, (other_name-IsText, (host-IsText, tt)))))
      (nobody-Tracks [])

run-WithinLimit_example : WithinLimit config (run config (nobody []) history).state
run-WithinLimit_example =
    run-WithinLimit config (nobody []) history
      (host-IsText, (other_name-IsText, (host-IsText, (other_name-IsText, (host-IsText, tt)))))
      (nobody-Tracks []) (nobody-WithinLimit [] config)
