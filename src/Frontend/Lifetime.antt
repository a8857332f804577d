-- ===== src/Frontend/Lifetime.antt =====
-- src/mopidy_mpd/actor.py: a front end from its start to its stop.
use mopidy_mpd.Prelude.{
  ℕ, Text, codes, ◌≡◌, refl, sym, ap, subst, Bool, true, false, Option, none, some, List, [], ◌∷◌,
  if◌then◌else◌, text_eq, text_eq_refl, All, map,
}
use mopidy_mpd.Outcome.{Outcome, ok, raised, diverged, ack, value_error, actor_dead, other_error}
use mopidy_mpd.CoreCommands.Core.{◌>>=◌}
use mopidy_mpd.Connection as Connections
use mopidy_mpd.Connection.{Connection}
use mopidy_mpd.Connection.Sources.{Known}
use mopidy_mpd.Connection.Stop.{stop-releases}
use mopidy_mpd.Server.Listen.{get_systemd_socket, start_server, without_text}
use mopidy_mpd.Server.Sockets.{Environment, Os}
use mopidy_mpd.Frontend.Lifecycle.{
  Frontend, Process, of_os, frontend_error, setup_server, init, service_of, publish, on_start,
  unpublish, stop_sessions, on_stop, format_hostname,
}
use mopidy_mpd.Frontend.Release.{Stops, stop_server-restores}
use mopidy_mpd.Frontend.Holding.{Then, Then-bind, Serves, ServesNew, start_server-Serves}

frontend_error-Then :
    {A : Type 0} (P : A → Os → Type 0) (r : Outcome A) (os : Os)
    → Then P (r, os)
    → Then P (frontend_error r, os)
unfolding frontend_error
frontend_error-Then P (ok a) os h = h
frontend_error-Then P (raised (ack e)) os h = tt
frontend_error-Then P (raised value_error) os h = tt
frontend_error-Then P (raised (actor_dead t)) os h = tt
frontend_error-Then {A} P (raised (other_error t)) os h = step (text_eq t (codes "OSError"))
  where
    step :
        (b : Bool)
        → Then P (
          if◌then◌else◌ {A = Outcome A} b
              (raised (other_error (codes "FrontendError")))
              (raised (other_error t)),
          os,
        )
    step true = tt
    step false = tt
frontend_error-Then P diverged os h = tt

-- The life of a front end that was made: it starts, and it stops.
unfoldable pub lifetime : Environment → Frontend → (Process → Outcome (Unit {0}) × Process)
unfolding on_start on_stop
lifetime env f = do f' ← of_os (on_start env f); on_stop env f'

-- A connection that is over.
pub record Released (c : Connection) : Type 0 where
  stopped : c.stopping ≡ true
  is_closed : c.closed ≡ true
  no_sources : c.sources ≡ []

-- The process holds the same as before.
pub record Restored (os os' : Os) : Type 0 where
  same_sockets : os'.sockets ≡ os.sockets
  same_watches : os'.watches ≡ os.watches
  same_files : os'.files ≡ os.files
  same_services : os'.services ≡ os.services

-- A session's connection before the front end stops.
pub record Live (c : Connection) : Type 0 where
  pub known : Known c
  pub going : c.stopping ≡ false

stop_sessions-Released :
    (cs : List Connection) → All Live cs → All Released (map Connections.stop cs)
stop_sessions-Released [] h = tt
stop_sessions-Released (c ∷ cs) (live, lives) =
    let done = stop-releases c live.known live.going in
    (
      record { stopped = done.0; is_closed = done.1; no_sources = done.2 },
      stop_sessions-Released cs lives,
    )

module _ (env : Environment) (os : Os) where
  init-Serves :
      (has_ipv6 : Bool) (hostname : Text) (port : Option ℕ) (name : Option Text)
      → get_systemd_socket env ≡ ok none
      → Then (λ f. ServesNew env os f.server) (init env has_ipv6 hostname port name os)
  unfolding init setup_server
  init-Serves has_ipv6 hostname port name h =
      let host = format_hostname has_ipv6 hostname in
      Then-bind (ServesNew env os) (λ f. ServesNew env os f.server)
        (setup_server env has_ipv6 host port) _ os
        (frontend_error-Then (ServesNew env os) (start_server env has_ipv6 host port os).0
          (start_server env has_ipv6 host port os).1
          (start_server-Serves env os has_ipv6 host port h))
        (λ server os' serves. serves)

  -- What a service that was published leaves when it is taken back.
  lifetime-restores :
      (service : Option Text) (f : Frontend) (os1 : Os) (sessions : List Connection)
      → Stops env
      → Serves env os f.server os1
      → service_of env f ≡ service
      → lifetime env f (record { os = os1; sessions = sessions }) ≡ (
        ok tt,
        record {
          os = record os1 { sockets = os.sockets; watches = os.watches; files = os.files };
          sessions = map Connections.stop sessions;
        },
      )
  unfolding lifetime publish unpublish stop_sessions without_text
  lifetime-restores none f os1 sessions stops serves h =
      rw (h, publish, unpublish, stop_server-restores env os f.server os1 stops serves) refl
  lifetime-restores (some name) f os1 sessions stops serves h =
      rw
        (
          h,
          publish,
          unpublish,
          text_eq_refl name,
          stop_server-restores env os f.server os1 stops serves,
        )
        refl

-- A front end that could be made gives everything back when it stops: its listening socket, the
-- source that watched it, the file of its Unix domain socket, and its zeroconf service; and each
-- connection is stopped and closed, with no source left in GLib. This holds where systemd passed no
-- socket, the system lets the server shut down and unlink, and the connections had the identifiers
-- of their sources and were not stopping.
pub lifetime_lem :
    (env : Environment) (has_ipv6 : Bool) (hostname : Text) (port : Option ℕ) (name : Option Text)
    (os os1 : Os) (f : Frontend) (sessions : List Connection)
    → get_systemd_socket env ≡ ok none
    → init env has_ipv6 hostname port name os ≡ (ok f, os1)
    → Stops env
    → All Live sessions
    → ((lifetime env f (record { os = os1; sessions = sessions })).0 ≡ ok tt)
      × Restored os (lifetime env f (record { os = os1; sessions = sessions })).1.os
      × All Released (lifetime env f (record { os = os1; sessions = sessions })).1.sessions
lifetime_lem env has_ipv6 hostname port name os os1 f sessions own made stops live =
    let serves =
      subst (Then (λ g. ServesNew env os g.server)) made
        (init-Serves env os has_ipv6 hostname port name own) in
    let e = lifetime-restores env os (service_of env f) f os1 sessions stops serves.0 refl in
    (
      ap (λ ((r, p) : Outcome (Unit {0}) × Process). r) e,
      subst (λ ((r, p) : Outcome (Unit {0}) × Process). Restored os p.os) (sym e)
          (record {
            same_sockets = refl;
            same_watches = refl;
            same_files = refl;
            same_services = serves.1;
          }),
      subst (λ ((r, p) : Outcome (Unit {0}) × Process). All Released p.sessions) (sym e)
          (stop_sessions-Released sessions live),
    )
