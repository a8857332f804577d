-- ===== src/Tests/Network.antt =====
-- Connections and the server at concrete inputs.
use mopidy_mpd.Prelude.{
  codes, ◌≡◌, refl, true, false, none, some, [], ◌∷◌, arith, pos, List, length, ◌≤◌, ◌≢◌, All, ℕ,
}
use mopidy_mpd.Connection.{
  Connection, Event, queued, took, connect, stop, id_of, Watch, on_recv, on_send, on_timeout, step,
}
use mopidy_mpd.Connection.Sources.{Known}
use mopidy_mpd.Connection.Watches.{Watched}
use mopidy_mpd.Connection.Sending.{Ordered}
use mopidy_mpd.Connection.Runs.{run, all_queued, run-connect}
use mopidy_mpd.Connection.Drain.{Turn, turns, run-drains}
use mopidy_mpd.Connection.Stop.{stop-releases}
use mopidy_mpd.Server.{Server, client, handle_connection}
use mopidy_mpd.Server.Limit.{handle_connection-bounded}

-- A connection of which the socket takes two bytes of three.
abbrev half_sent : List Event
half_sent = queued (took 2) true (codes "OK\n") ∷ []

run-connect_example :
    Ordered (all_queued half_sent) (run half_sent (connect (pos 60) true))
    × Known (run half_sent (connect (pos 60) true))
    × Watched (run half_sent (connect (pos 60) true))
run-connect_example = run-connect (pos 60) true half_sent

waits_for_rest :
    ((run half_sent (connect (pos 60) true)).send_buffer ≡ 10 ∷ [])
    × ((run half_sent (connect (pos 60) true)).send_id ≡ some 3)
unfolding step connect
waits_for_rest = (refl, refl)

abbrev new_connection : Connection
new_connection = record {
  timeout = pos 60;
  send_buffer = [];
  stopping = false;
  recv_id = some 1;
  send_id = none;
  timeout_id = some 2;
  actor_alive = true;
  told = [];
  sources = (2, on_timeout) ∷ (1, on_recv) ∷ [];
  next_id = 3;
  closed = false;
  sent = [];
}

stop-releases_example :
    ((stop new_connection).stopping ≡ true)
    × ((stop new_connection).closed ≡ true)
    × ((stop new_connection).sources ≡ [])
    × ((w : Watch) → id_of w (stop new_connection) ≡ none)
stop-releases_example = stop-releases new_connection (refl, (refl, tt)) refl

-- A server that lets in one client.
abbrev one_client : Server
one_client = record { max_connections = some 1; timeout = pos 60; sessions = []; warnings = [] }

handle_connection-bounded_example :
    length (handle_connection (client (codes "::1", some 5000) true) one_client).1.sessions ≤ 1
handle_connection-bounded_example =
    handle_connection-bounded 1 (client (codes "::1", some 5000) true) one_client refl (omega arith)

abbrev waiting : Connection
waiting = record new_connection {
  send_buffer = codes "OK\n";
  send_id = some 3;
  sources = (3, on_send) ∷ new_connection.sources;
  next_id = 4;
}

abbrev four_turns : List Turn
four_turns = (false, some 2) ∷ (true, some 9) ∷ (false, none) ∷ (false, some 1) ∷ []

run-drains_example :
    ((run (turns four_turns) waiting).sent ≡ codes "OK\n")
    × ((run (turns four_turns) waiting).send_buffer ≡ [])
    × ((run (turns four_turns) waiting).send_id ≡ none)
    × All (λ (e : ℕ × Watch). e.1 ≢ on_send) (run (turns four_turns) waiting).sources
run-drains_example =
    run-drains four_turns waiting (record { is_open = refl; idle = λ e. cc })
      (refl, (refl, (refl, tt))) (omega arith)
