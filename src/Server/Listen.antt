-- ===== src/Server/Listen.antt =====
-- The listening socket: `create_server_socket`, `stop` and `register_server_socket` of `Server` in
-- src/mopidy_mpd/network.py, with the functions that they call.
use mopidy_mpd.Prelude.{
  ℕ, ◌+◌, Text, codes, Bool, true, false, not, Option, none, some, List, [], ◌∷◌, ◌++◌, ◌==◌,
  if◌then◌else◌, text_eq,
}
use mopidy_mpd.Outcome
use mopidy_mpd.Outcome.{Outcome, ok, raised, other_error}
use mopidy_mpd.CoreCommands.Core.{K, pure, lift, ◌>>=◌, ◌>>◌}
use mopidy_mpd.Server.{Address, get_unix_socket_path, get_socket_address}
use mopidy_mpd.Server.Sockets.{
  Family, SocketOption, Socket, Os, SystemCall, Environment, os_error, unix, ipv4, ipv6,
  both_versions, both_versions_number, reuse_address, open_socket, set_option, bind_to, listen_on,
  shut_down, unlink_file,
}

cons_first : ℕ → List Text → List Text
cons_first c [] = (c ∷ []) ∷ []
cons_first c (name ∷ names) = (c ∷ name) ∷ names

-- `text.split(":")`
unfoldable pub split_names : Text → List Text
unfolding cons_first
split_names [] = [] ∷ []
split_names (c ∷ text) =
    let names = split_names text in if c == b':' then [] ∷ names else cons_first c names

-- `names.index(name)`, where the name is among them
unfoldable pub index_from : ℕ → Text → List Text → Option ℕ
index_from n name [] = none
index_from n name (x ∷ xs) =
    let later = index_from (n + 1) name xs in if text_eq x name then some n else later

abbrev fdnames : Option Text → Text
fdnames none = []
fdnames (some names) = names

-- `is_unix_socket`
unfoldable pub is_unix_socket : Socket → Bool
is_unix_socket sock = elim sock.family [ unix ↦ true | _ ↦ false ]

module _ (env : Environment) where
  -- `get_systemd_socket`: the descriptors that systemd passes begin with 3.
  unfoldable pub get_systemd_socket : Outcome (Option Socket)
  unfolding split_names index_from
  get_systemd_socket =
      elim (index_from 0 (codes "mpd") (split_names (fdnames env.listen_fdnames))) [
        | none ↦ ok none
        | some n ↦ Outcome.◌>>=◌ (env.inherited (n + 3)) (λ sock. ok (some sock))
      ]

  -- A call of the system that may fail.
  unfoldable pub attempt : SystemCall → K Os (Unit {0})
  attempt call os = if env.fails call os then (os_error, os) else (ok tt, os)

  -- `socket.socket(family, SOCK_STREAM)`
  unfoldable pub new_socket : Family → K Os Socket
  unfolding attempt
  new_socket family = do
    attempt (open_socket family)
    λ os. (
      ok (record {
        family = family;
        fileno = os.next_fileno;
        options = [];
        bound = none;
        blocking = true;
        listening = false;
      }),
      record os { sockets = os.next_fileno ∷ os.sockets; next_fileno = os.next_fileno + 1 },
    )

  -- `try_ipv6_socket`, when the module is loaded: whether a socket of that kind can be made. It is
  -- closed again.
  unfoldable pub try_ipv6_socket : Os → Bool
  try_ipv6_socket os = if not env.knows_ipv6 then false else not (env.fails (open_socket ipv6) os)

  unfoldable pub setsockopt : SocketOption → Socket → K Os Socket
  unfolding attempt
  setsockopt option sock = do
    attempt (set_option option)
    pure (record sock { options = sock.options ++ option ∷ [] })

  -- An IPv6 socket is made to take IPv4 too.
  unfoldable pub both_protocols : Socket → K Os Socket
  unfolding setsockopt
  both_protocols sock =
      if env.names_ipv6
      then setsockopt both_versions sock
      else if env.is_windows
      then setsockopt both_versions_number sock
      else pure sock

  -- `create_tcp_socket`
  unfoldable pub create_tcp_socket : Bool → K Os Socket
  unfolding new_socket both_protocols setsockopt
  create_tcp_socket has_ipv6 = do
    sock ← (if has_ipv6 then (do sock ← new_socket ipv6; both_protocols sock) else new_socket ipv4)
    setsockopt reuse_address sock

  -- `create_unix_socket`
  unfoldable pub create_unix_socket : K Os Socket
  unfolding new_socket
  create_unix_socket = new_socket unix

  -- `sock.bind(address)`; a Unix domain socket makes its file.
  unfoldable pub bind_socket : Address → Socket → K Os Socket
  unfolding attempt
  bind_socket (host, none) sock = do
    attempt (bind_to (host, none))
    λ os. (ok (record sock { bound = some (host, none) }), record os { files = host ∷ os.files })
  bind_socket (host, some port) sock = do
    attempt (bind_to (host, some port))
    pure (record sock { bound = some (host, some port) })

  unfoldable pub listen_socket : Socket → K Os Socket
  unfolding attempt
  listen_socket sock = do
    attempt listen_on
    pure (record sock { blocking = false; listening = true })

  -- A host that is a path gets a Unix domain socket; for another host the port must be a number.
  unfoldable pub bound_socket : Bool → Text → Option ℕ → Option Text → K Os Socket
  unfolding create_unix_socket create_tcp_socket bind_socket
  bound_socket has_ipv6 host port (some path) = do
    sock ← create_unix_socket
    bind_socket (path, none) sock
  bound_socket has_ipv6 host none none = lift (raised (other_error (codes "TypeError")))
  bound_socket has_ipv6 host (some port) none = do
    sock ← create_tcp_socket has_ipv6
    bind_socket (host, some port) sock

  unfoldable pub or_create : Bool → Text → Option ℕ → Option Socket → K Os Socket
  unfolding bound_socket listen_socket get_unix_socket_path
  or_create has_ipv6 host port (some sock) = pure sock
  or_create has_ipv6 host port none = do
    sock ← bound_socket has_ipv6 host port (get_unix_socket_path host)
    listen_socket sock

  -- `create_server_socket`
  unfoldable pub create_server_socket : Bool → Text → Option ℕ → K Os Socket
  unfolding get_systemd_socket or_create
  create_server_socket has_ipv6 host port os =
      ((λ o. (get_systemd_socket, o)) >>= or_create has_ipv6 host port) os

  -- `register_server_socket`: `GLib.io_add_watch`
  unfoldable pub register_server_socket : Socket → K Os ℕ
  register_server_socket sock os = (
    ok os.next_source,
    record os {
      watches = (os.next_source, sock.fileno) ∷ os.watches;
      next_source = os.next_source + 1;
    },
  )

-- What `Server` keeps of its listening socket.
pub record Listener : Type 0 where
  pub server_socket : Socket
  pub address : Address
  pub watcher : ℕ

module _ (env : Environment) where
  -- `Server.__init__`
  unfoldable pub start_server : Bool → Text → Option ℕ → K Os Listener
  unfolding create_server_socket register_server_socket get_socket_address
  start_server has_ipv6 host port = do
    sock ← create_server_socket env has_ipv6 host port
    watcher ← register_server_socket env sock
    pure
        (record { server_socket = sock; address = get_socket_address host port; watcher = watcher })

-- `getsockname()` of a Unix domain socket
unfoldable pub socket_path : Socket → Option Text
unfolding is_unix_socket
socket_path sock =
    if is_unix_socket sock
    then (elim sock.bound [ none ↦ none | some address ↦ some address.0 ])
    else none

-- `GLib.source_remove`
unfoldable pub without_source : ℕ → List (ℕ × ℕ) → List (ℕ × ℕ)
without_source i [] = []
without_source i ((j, fd) ∷ rest) = if j == i then rest else (j, fd) ∷ without_source i rest

unfoldable pub without_socket : ℕ → List ℕ → List ℕ
without_socket fd [] = []
without_socket fd (x ∷ rest) = if x == fd then rest else x ∷ without_socket fd rest

unfoldable pub without_text : Text → List Text → List Text
without_text path [] = []
without_text path (x ∷ rest) = if text_eq x path then rest else x ∷ without_text path rest

module _ (env : Environment) where
  -- `os.unlink(path)`, of a Unix domain socket only
  unfoldable pub clean_up : Option Text → K Os (Unit {0})
  unfolding attempt without_text
  clean_up none = pure tt
  clean_up (some path) = do
    attempt env (unlink_file path)
    λ os. (ok tt, record os { files = without_text path os.files })

  unfoldable pub remove_watcher : ℕ → K Os (Unit {0})
  unfolding without_source
  remove_watcher watcher os = (ok tt, record os { watches = without_source watcher os.watches })

  -- `Server.stop`
  unfoldable pub stop_server : Listener → K Os (Unit {0})
  unfolding remove_watcher attempt without_socket clean_up socket_path
  stop_server server = do
    remove_watcher server.watcher
    attempt env shut_down
    λ os. (ok tt, record os { sockets = without_socket server.server_socket.fileno os.sockets })
    clean_up (socket_path server.server_socket)
