-- ===== src/Frontend/Lifecycle.antt =====
-- src/mopidy_mpd/actor.py: the start and the stop of the front end, with `format_hostname` of
-- src/mopidy_mpd/network.py. The zeroconf service is what `publish` and `unpublish` make of it.
use mopidy_mpd.Prelude.{
  ℕ, Text, codes, Bool, true, false, ◌&&◌, ◌||◌, Option, none, some, List, [], ◌∷◌, ◌++◌, ◌==◌,
  if◌then◌else◌, is_empty, map, text_eq,
}
use mopidy_mpd.Convert.{decimal_value}
use mopidy_mpd.Outcome.{Outcome, ok, raised, other_error}
use mopidy_mpd.CoreCommands.Core.{K, pure, ◌>>=◌, ◌>>◌}
use mopidy_mpd.Connection as Connections
use mopidy_mpd.Connection.{Connection}
use mopidy_mpd.Server.Listen.{Listener, is_unix_socket, start_server, stop_server, without_text}
use mopidy_mpd.Server.Sockets.{Environment, Os}

-- `\\d`
unfoldable pub is_digit : ℕ → Bool
unfolding decimal_value
is_digit c = elim (decimal_value c) [ none ↦ false | some _ ↦ true ]

-- `\\d+` and what `k` matches behind it, after any number of the digits
unfoldable pub digits_then : (Text → Bool) → Text → Bool
unfolding is_digit
digits_then k [] = false
digits_then k (c ∷ s) = let more = k s || digits_then k s in if is_digit c then more else false

-- `.`
unfoldable pub any_then : (Text → Bool) → Text → Bool
any_then k [] = false
any_then k (c ∷ s) = if c == 10 then false else k s

-- `re.match(r"\\d+.\\d+.\\d+.\\d+", hostname)`
unfoldable pub starts_with_ipv4 : Text → Bool
unfolding digits_then any_then
starts_with_ipv4 =
    digits_then
      (any_then (digits_then (any_then (digits_then (any_then (digits_then (λ _. true)))))))

-- `format_hostname`
unfoldable pub format_hostname : Bool → Text → Text
unfolding starts_with_ipv4
format_hostname has_ipv6 hostname =
    if has_ipv6 && starts_with_ipv4 hostname then codes "::ffff:" ++ hostname else hostname

-- `MpdFrontend`
pub record Frontend : Type 0 where
  pub hostname : Text
  pub port : Option ℕ
  pub zeroconf_name : Option Text
  pub zeroconf_service : Option Text
  pub server : Listener

-- What the front end may reach: the system, and the actors of the sessions with their connections.
pub record Process : Type 0 where
  pub os : Os
  pub sessions : List Connection

module _ {A : Type 0} where
  -- A call that leaves the sessions alone.
  abbrev pub of_os : K Os A → K Process A
  of_os call p = let (r, os) = call p.os in (r, record p { os = os })

-- `except OSError as exc: raise exceptions.FrontendError`
unfoldable pub frontend_error : {A : Type 0} → Outcome A → Outcome A
unfolding text_eq
frontend_error (raised (other_error name)) =
    if text_eq name (codes "OSError")
    then raised (other_error (codes "FrontendError"))
    else raised (other_error name)
frontend_error r = r

-- `LineProtocol.on_stop`: the actor of a session stops its connection.
unfoldable pub on_actor_stop : Connection → Connection
unfolding Connections.stop
on_actor_stop = Connections.stop

module _ (env : Environment) where
  -- `_setup_server`
  unfoldable pub setup_server : Bool → Text → Option ℕ → K Os Listener
  unfolding frontend_error start_server
  setup_server has_ipv6 hostname port os =
      let (r, os') = start_server env has_ipv6 hostname port os in (frontend_error r, os')

  -- `MpdFrontend.__init__`
  unfoldable pub init : Bool → Text → Option ℕ → Option Text → K Os Frontend
  unfolding setup_server format_hostname
  init has_ipv6 hostname port zeroconf_name = do
    server ← setup_server has_ipv6 (format_hostname has_ipv6 hostname) port
    pure (record {
      hostname = format_hostname has_ipv6 hostname;
      port = port;
      zeroconf_name = zeroconf_name;
      zeroconf_service = none;
      server = server;
    })

  -- `self.zeroconf_name and not is_unix_socket(...)`: the service that is published
  unfoldable pub service_of : Frontend → Option Text
  unfolding is_unix_socket
  service_of f = elim f.zeroconf_name [
    | none ↦ none
    | some name ↦ if is_empty name || is_unix_socket f.server.server_socket then none else some name
  ]

  unfoldable pub publish : Option Text → K Os (Unit {0})
  publish none os = (ok tt, os)
  publish (some service) os = (ok tt, record os { services = service ∷ os.services })

  -- `on_start`
  unfoldable pub on_start : Frontend → K Os Frontend
  unfolding service_of publish
  on_start f = do publish (service_of f); pure (record f { zeroconf_service = service_of f })

  -- `if self.zeroconf_service: self.zeroconf_service.unpublish()`
  unfoldable pub unpublish : Option Text → K Os (Unit {0})
  unfolding without_text
  unpublish none os = (ok tt, os)
  unpublish (some service) os = (ok tt, record os { services = without_text service os.services })

  -- Each actor stops its connection and leaves the registry.
  unfoldable pub stop_sessions : List Connection → List Connection
  unfolding on_actor_stop
  stop_sessions = map on_actor_stop

  -- `on_stop`
  unfoldable pub on_stop : Frontend → K Process (Unit {0})
  unfolding unpublish stop_sessions stop_server
  on_stop f = do
    of_os (unpublish f.zeroconf_service)
    λ p. (ok tt, record p { sessions = stop_sessions p.sessions })
    of_os (stop_server env f.server)
