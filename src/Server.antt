-- ===== src/Server.antt =====
-- `Server` of src/mopidy_mpd/network.py, which accepts the connections, and the addresses.
-- What `accept` answers is an argument, and so is whether GLib could watch the new socket. The live
-- sessions stand for the actors that the registry counts.
pub mod Limit
pub mod Sockets
pub mod Listen
use mopidy_mpd.Prelude.{
  ℕ, zero, suc, Text, codes, ◌≡◌, refl, Bool, true, false, Option, none, some, List, [], ◌∷◌, ◌++◌,
  if◌then◌else◌, length, leb, starts_with, drop, show_nat, ℤ,
}
use mopidy_mpd.Outcome.{Outcome, ok, raised, other_error}
use mopidy_mpd.Tokenize.{until_newline}
use mopidy_mpd.Connection.{Connection, connect}

-- `get_unix_socket_path`: what `^unix:(.*)` matches
unfoldable pub get_unix_socket_path : Text → Option Text
unfolding starts_with until_newline
get_unix_socket_path path =
    if starts_with path (codes "unix:") then some (until_newline (drop 5 path)) else none

abbrev pub Address : Type 0
Address = Text × Option ℕ

-- `get_socket_address`
unfoldable pub get_socket_address : Text → Option ℕ → Address
unfolding get_unix_socket_path
get_socket_address host port = elim (get_unix_socket_path host) [
  | some path ↦ (path, none)
  | none ↦ (host, port)
]

-- `format_address`
unfoldable pub format_address : Address → Text
unfolding show_nat
format_address (host, none) = codes "[" ++ (host ++ codes "]")
format_address (host, some port) = codes "[" ++ (host ++ (codes "]:" ++ show_nat port))

pub record Server : Type 0 where
  pub max_connections : Option ℕ
  pub timeout : ℤ
  pub sessions : List Connection
  -- the log of `reject_connection`
  pub warnings : List Text

-- `accept_connection`: a client, an error that asks to try again, or another one.
pub data Accept : Type 0 where
  client : Address → Bool → Accept
  retry : Accept
  accept_error : Accept

abbrev number_of_connections : Server → ℕ
number_of_connections s = length s.sessions

unfoldable pub maximum_connections_exceeded : Server → Bool
maximum_connections_exceeded s = elim s.max_connections [
  | none ↦ false
  | some limit ↦ leb limit (number_of_connections s)
]

unfoldable pub reject_connection : Address → Server → Server
unfolding format_address
reject_connection address s = record s {
  warnings = s.warnings ++ (codes "Rejected connection from " ++ format_address address) ∷ [];
}

unfoldable pub init_connection : Bool → Server → Server
unfolding connect
init_connection added s = record s { sessions = s.sessions ++ connect s.timeout added ∷ [] }

-- `handle_connection`: it answers that its source stays
unfoldable pub handle_connection : Accept → Server → Outcome Bool × Server
unfolding maximum_connections_exceeded reject_connection init_connection
handle_connection retry s = (ok true, s)
handle_connection accept_error s = (raised (other_error (codes "OSError")), s)
handle_connection (client address added) s =
    if maximum_connections_exceeded s
    then (ok true, reject_connection address s)
    else (ok true, init_connection added s)
