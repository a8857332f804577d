-- ===== src/Tests/Lifetime.antt =====
-- The start and the stop of the front end, at concrete inputs.
use mopidy_mpd.Prelude.{Bool, All, pos, codes, ◌≡◌, refl, true, false, none, some, [], ◌∷◌, text_eq}
use mopidy_mpd.Outcome.{ok, raised, other_error}
use mopidy_mpd.Connection.{connect}
use mopidy_mpd.Connection.Runs.{connect-Known}
use mopidy_mpd.Server.Listen.{Listener, get_systemd_socket, create_server_socket}
use mopidy_mpd.Server.Sockets.{
  Environment, Os, unix, ipv6, both_versions, reuse_address, bind_to, os_error, SystemCall,
}
use mopidy_mpd.Frontend.Lifecycle.{Frontend, init, format_hostname}
use mopidy_mpd.Frontend.Release.{Stops}
use mopidy_mpd.Frontend.Lifetime.{lifetime, Restored, Released, Live, lifetime_lem}

abbrev nothing_held : Os
nothing_held = record {
  sockets = [];
  watches = [];
  files = [];
  services = [];
  next_fileno = 7;
  next_source = 1;
}

abbrev willing : Environment
willing = record {
  listen_fdnames = none;
  inherited = λ n. os_error;
  knows_ipv6 = true;
  names_ipv6 = true;
  is_windows = false;
  fails = λ call os. false;
}

own_socket : get_systemd_socket willing ≡ ok none
unfolding get_systemd_socket text_eq
own_socket = refl

willing-Stops : Stops willing
willing-Stops = record { shuts = λ os. refl; unlinks = λ path os. refl }

-- The third name that systemd passes is that of descriptor 5.
abbrev under_systemd : Environment
under_systemd = record willing {
  listen_fdnames = some (codes "a:b:mpd");
  inherited = λ n. ok (record {
    family = unix;
    fileno = n;
    options = [];
    bound = none;
    blocking = true;
    listening = true;
  });
}

systemd_socket :
    (create_server_socket under_systemd true (codes "::") (some 6600) nothing_held).0
    ≡ ok (record {
      family = unix;
      fileno = 5;
      options = [];
      bound = none;
      blocking = true;
      listening = true;
    })
unfolding create_server_socket text_eq
systemd_socket = refl

tcp_socket :
    (create_server_socket willing true (codes "::") (some 6600) nothing_held).0
    ≡ ok (record {
      family = ipv6;
      fileno = 7;
      options = both_versions ∷ reuse_address ∷ [];
      bound = some (codes "::", some 6600);
      blocking = false;
      listening = true;
    })
unfolding create_server_socket text_eq
tcp_socket = refl

abbrev refuses_bind : SystemCall → Os → Bool
refuses_bind (bind_to address) os = true
refuses_bind _ os = false

startup_fails :
    (init
      (record willing { fails = refuses_bind })
      true
      (codes "::")
      (some 6600)
      none
      nothing_held).0
    ≡ raised (other_error (codes "FrontendError"))
unfolding init text_eq
startup_fails = refl

-- Any four runs of digits with something between them are taken for an IPv4 address.
ipv4_hostname : format_hostname true (codes "127.0.0.1") ≡ codes "::ffff:127.0.0.1"
unfolding format_hostname
ipv4_hostname = refl

dashed_hostname : format_hostname true (codes "10-0-0-5.lan") ≡ codes "::ffff:10-0-0-5.lan"
unfolding format_hostname
dashed_hostname = refl

abbrev listening : Listener
listening = record {
  server_socket = record {
    family = unix;
    fileno = 7;
    options = [];
    bound = some (codes "/run/mpd", none);
    blocking = false;
    listening = true;
  };
  address = (codes "/run/mpd", none);
  watcher = 1;
}

abbrev front_end : Frontend
front_end = record {
  hostname = codes "unix:/run/mpd";
  port = none;
  zeroconf_name = some (codes "Music");
  zeroconf_service = none;
  server = listening;
}

abbrev running : Os
running = record {
  sockets = 7 ∷ [];
  watches = (1, 7) ∷ [];
  files = codes "/run/mpd" ∷ [];
  services = [];
  next_fileno = 8;
  next_source = 2;
}

made :
    init willing true (codes "unix:/run/mpd") none (some (codes "Music")) nothing_held
    ≡ (ok front_end, running)
unfolding init text_eq
made = refl

one_session : Live (connect (pos 60) true)
unfolding connect
one_session = record { known = connect-Known (pos 60) true; going = refl }

lifetime_example :
    ((lifetime willing front_end (record { os = running; sessions = connect (pos 60) true ∷ [] })).0
      ≡ ok tt)
    × Restored nothing_held
        (lifetime willing front_end
          (record { os = running; sessions = connect (pos 60) true ∷ [] })).1.os
    × All Released
        (lifetime willing front_end
          (record { os = running; sessions = connect (pos 60) true ∷ [] })).1.sessions
lifetime_example =
    lifetime_lem willing true (codes "unix:/run/mpd") none (some (codes "Music")) nothing_held
      running front_end (connect (pos 60) true ∷ []) own_socket made willing-Stops (one_session, tt)
