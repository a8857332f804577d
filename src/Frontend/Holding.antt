-- ===== src/Frontend/Holding.antt =====
-- What the front end of src/mopidy_mpd/actor.py takes of the system.
use mopidy_mpd.Prelude.{
  ℕ, Text, ◌≡◌, refl, sym, ap, ◌∙◌, Bool, true, false, Option, none, some, List, ◌∷◌, Bool-cases,
  inl, inr, arith,
}
use mopidy_mpd.Outcome.{Outcome, ok, raised, diverged}
use mopidy_mpd.CoreCommands.Core.{K, ◌>>=◌, ◌>>◌}
use mopidy_mpd.Server.{get_unix_socket_path}
use mopidy_mpd.Server.Listen.{
  Listener, is_unix_socket, attempt, new_socket, setsockopt, both_protocols, create_tcp_socket,
  create_unix_socket, bind_socket, listen_socket, bound_socket, or_create, get_systemd_socket,
  create_server_socket, register_server_socket, start_server, socket_path,
}
use mopidy_mpd.Server.Sockets.{
  Environment, Os, Socket, Family, unix, ipv4, ipv6, SocketOption, SystemCall, open_socket,
  set_option, bind_to, both_versions, both_versions_number, reuse_address, listen_on,
}

-- If the call returns, `P` holds of what it returns.
abbrev pub Then : {A : Type 0} → (A → Os → Type 0) → Outcome A × Os → Type 0
Then P (ok a, os) = P a os
Then P (raised e, os) = Unit
Then P (diverged, os) = Unit

pub Then-bind :
    {A B : Type 0} (P : A → Os → Type 0) (Q : B → Os → Type 0) (m : K Os A) (f : A → K Os B)
    (os : Os)
    → Then P (m os)
    → ((a : A) (os' : Os) → P a os' → Then Q (f a os'))
    → Then Q ((m >>= f) os)
Then-bind {A} P Q m f os h k = step (m os) h
  where
    step : (x : Outcome A × Os) → Then P x → Then Q (((λ _. x) >>= f) os)
    step (ok a, os') h' = k a os' h'
    step (raised e, os') h' = tt
    step (diverged, os') h' = tt

-- A socket that was made, of that kind, and the files that there are.
record Held (os : Os) (files : List Text) (is_unix : Bool) (sock : Socket) (os' : Os) : Type 0 where
  sockets_eq : os'.sockets ≡ sock.fileno ∷ os.sockets
  watches_eq : os'.watches ≡ os.watches
  services_eq : os'.services ≡ os.services
  files_eq : os'.files ≡ files
  kind_eq : is_unix_socket sock ≡ is_unix

-- What a socket is for `Held` does not depend on its options, nor on whether it listens.
Held-same :
    {os os' : Os} {files : List Text} {b : Bool} (sock sock' : Socket)
    → sock'.fileno ≡ sock.fileno
    → is_unix_socket sock' ≡ is_unix_socket sock
    → Held os files b sock os'
    → Held os files b sock' os'
Held-same {os} sock sock' number kind h = record {
  sockets_eq = h.sockets_eq ∙ ap (λ (n : ℕ). n ∷ os.sockets) (sym number);
  watches_eq = h.watches_eq;
  services_eq = h.services_eq;
  files_eq = h.files_eq;
  kind_eq = kind ∙ h.kind_eq;
}

module _ (env : Environment) where
  attempt-bind :
      {B : Type 0} (Q : B → Os → Type 0) (call : SystemCall) (f : K Os B) (os : Os)
      → Then Q (f os)
      → Then Q ((attempt env call >> f) os)
  unfolding attempt
  attempt-bind Q call f os h = elim (Bool-cases (env.fails call os)) [
    | inl e ↦ rw (e, attempt) tt
    | inr e ↦ rw (e, attempt) h
  ]

  module _ (os : Os) where
    new_socket-Held :
        (family : Family) (b : Bool)
        → ((sock : Socket) → sock.family ≡ family → is_unix_socket sock ≡ b)
        → Then (Held os os.files b) (new_socket env family os)
    unfolding new_socket
    new_socket-Held family b kind =
        attempt-bind (Held os os.files b) (open_socket family) _ os (record {
          sockets_eq = refl;
          watches_eq = refl;
          services_eq = refl;
          files_eq = refl;
          kind_eq = kind _ refl;
        })

    setsockopt-Held :
        (b : Bool) (option : SocketOption) (sock : Socket) (os' : Os)
        → Held os os.files b sock os'
        → Then (Held os os.files b) (setsockopt env option sock os')
    unfolding setsockopt is_unix_socket
    setsockopt-Held b option sock os' h =
        attempt-bind (Held os os.files b) (set_option option) _ os' (Held-same sock _ refl refl h)

    both_protocols-Held :
        (b : Bool) (sock : Socket) (os' : Os)
        → Held os os.files b sock os'
        → Then (Held os os.files b) (both_protocols env sock os')
    unfolding both_protocols
    both_protocols-Held b sock os' h = elim (Bool-cases env.names_ipv6) [
      | inl e ↦ rw (e, both_protocols) (setsockopt-Held b both_versions sock os' h)
      | inr e ↦ elim (Bool-cases env.is_windows) [
        | inl e' ↦ rw (e, e', both_protocols) (setsockopt-Held b both_versions_number sock os' h)
        | inr e' ↦ rw (e, e', both_protocols) h
      ]
    ]

    create_tcp_socket-Held :
        (has_ipv6 : Bool) → Then (Held os os.files false) (create_tcp_socket env has_ipv6 os)
    unfolding create_tcp_socket is_unix_socket
    create_tcp_socket-Held true =
        Then-bind (Held os os.files false) (Held os os.files false)
          (new_socket env ipv6 >>= both_protocols env) (setsockopt env reuse_address) os
          (Then-bind (Held os os.files false) (Held os os.files false) (new_socket env ipv6)
            (both_protocols env) os (new_socket-Held ipv6 false (λ sock e. rw (e, is_unix_socket)))
            (both_protocols-Held false))
          (setsockopt-Held false reuse_address)
    create_tcp_socket-Held false =
        Then-bind (Held os os.files false) (Held os os.files false) (new_socket env ipv4) _ os
          (new_socket-Held ipv4 false (λ sock e. rw (e, is_unix_socket)))
          (setsockopt-Held false reuse_address)

    -- The socket is bound: the file is there, if it has one.
    abbrev Bound : Socket → Os → Type 0
    Bound sock os' =
        (b : Bool) × (files : List Text) × Held os files b sock os'
        × (files ≡ (elim (socket_path sock) [ none ↦ os.files | some path ↦ path ∷ os.files ]))

    bind_unix-Bound :
        (path : Text) (sock : Socket) (os' : Os)
        → Held os os.files true sock os'
        → Then Bound (bind_socket env (path, none) sock os')
    unfolding bind_socket is_unix_socket socket_path
    bind_unix-Bound path sock os' h = attempt-bind Bound (bind_to (path, none)) _ os' (
      true,
      path ∷ os.files,
      record {
        sockets_eq = h.sockets_eq;
        watches_eq = h.watches_eq;
        services_eq = h.services_eq;
        files_eq = ap (λ (l : List Text). path ∷ l) h.files_eq;
        kind_eq = h.kind_eq;
      },
      ground arith,
    )

    bind_tcp-Bound :
        (host : Text) (port : ℕ) (sock : Socket) (os' : Os)
        → Held os os.files false sock os'
        → Then Bound (bind_socket env (host, some port) sock os')
    unfolding bind_socket is_unix_socket socket_path
    bind_tcp-Bound host port sock os' h =
        attempt-bind Bound (bind_to (host, some port)) _ os'
          (false, os.files, Held-same sock _ refl refl h, ground arith)

    bound_socket-Bound :
        (has_ipv6 : Bool) (host : Text) (port : Option ℕ) (path : Option Text)
        → Then Bound (bound_socket env has_ipv6 host port path os)
    unfolding bound_socket create_unix_socket is_unix_socket
    bound_socket-Bound has_ipv6 host port (some path) =
        Then-bind (Held os os.files true) Bound (new_socket env unix) (bind_socket env (path, none))
          os (new_socket-Held unix true (λ sock e. rw (e, is_unix_socket))) (bind_unix-Bound path)
    bound_socket-Bound has_ipv6 host none none = tt
    bound_socket-Bound has_ipv6 host (some port) none =
        Then-bind (Held os os.files false) Bound (create_tcp_socket env has_ipv6)
          (bind_socket env (host, some port)) os (create_tcp_socket-Held has_ipv6)
          (bind_tcp-Bound host port)

    listen_socket-Bound :
        (sock : Socket) (os' : Os) → Bound sock os' → Then Bound (listen_socket env sock os')
    unfolding listen_socket is_unix_socket socket_path
    listen_socket-Bound sock os' (b, files, h, e) =
        attempt-bind Bound listen_on _ os' (b, files, Held-same sock _ refl refl h, e)

    or_create-Bound :
        (has_ipv6 : Bool) (host : Text) (port : Option ℕ)
        → Then Bound (or_create env has_ipv6 host port none os)
    unfolding or_create
    or_create-Bound has_ipv6 host port =
        Then-bind Bound Bound (bound_socket env has_ipv6 host port (get_unix_socket_path host))
          (listen_socket env) os (bound_socket-Bound has_ipv6 host port (get_unix_socket_path host))
          listen_socket-Bound

    -- A server holds one socket, with its file and the source that watches it.
    pub record Serves (server : Listener) (os' : Os) : Type 0 where
      pub sockets_eq : os'.sockets ≡ server.server_socket.fileno ∷ os.sockets
      pub watches_eq : os'.watches ≡ (server.watcher, server.server_socket.fileno) ∷ os.watches
      pub files_eq : os'.files ≡ (elim (socket_path server.server_socket) [
        | none ↦ os.files
        | some path ↦ path ∷ os.files
      ])

    abbrev pub ServesNew : Listener → Os → Type 0
    ServesNew server os' = Serves server os' × (os'.services ≡ os.services)

    pub start_server-Serves :
        (has_ipv6 : Bool) (host : Text) (port : Option ℕ)
        → get_systemd_socket env ≡ ok none
        → Then ServesNew (start_server env has_ipv6 host port os)
    unfolding start_server create_server_socket register_server_socket
    start_server-Serves has_ipv6 host port h =
        Then-bind Bound ServesNew (create_server_socket env has_ipv6 host port) _ os
          (rw h (or_create-Bound has_ipv6 host port))
          (λ sock os' (b, files, held, e). (
            record {
              sockets_eq = held.sockets_eq;
              watches_eq =
                  ap (λ (l : List (ℕ × ℕ)). (os'.next_source, sock.fileno) ∷ l) held.watches_eq;
              files_eq = held.files_eq ∙ e;
            },
            held.services_eq,
          ))
