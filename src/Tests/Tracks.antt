-- ===== src/Tests/Tracks.antt =====
-- The commands of the outputs, and tracks, at concrete inputs.
use mopidy_mpd.Prelude.{
  Text, codes, ◌≡◌, refl, pos, Bool, true, false, none, some, List, [], ◌∷◌, ◌++◌, All, arith,
  text_eq, length, ◌+◌,
}
use mopidy_mpd.Outcome.{ok}
use mopidy_mpd.Session.{Session}
use mopidy_mpd.Protocol.{int_arg, str, int}
use mopidy_mpd.Requests.{handle_request}
use mopidy_mpd.CoreCommands.Outputs.{Mixer, outputs, enableoutput, disableoutput, toggleoutput}
use mopidy_mpd.CoreCommands.Outputs.Mute.{shown, outputs-shown}
use mopidy_mpd.CoreCommands.Access.{core_handlers}
use mopidy_mpd.Translator.{Obj, Tag, track_to_mpd_format, tracks_to_mpd_format}
use mopidy_mpd.Translator.Dates.{iso_format}
use mopidy_mpd.Translator.Windows.{
  tracks_to_mpd_format-append, IsAllowed, track_to_mpd_format-IsAllowed,
}
use mopidy_mpd.Tests.Sessions.{secret}

-- A mixer that sets what it is told, and one that refuses.
abbrev obedient : Mixer Bool
obedient = record { get_mute = λ w. ok (some w); set_mute = λ b w. (ok true, b) }

abbrev refusing : Mixer Bool
refusing = record { get_mute = λ w. ok (some w); set_mute = λ b w. (ok false, w) }

outputs-shown_example :
    ((outputs obedient [] (enableoutput obedient (int_arg (pos 0) ∷ []) false).1).0
      ≡ ok (shown true))
    × ((outputs obedient [] (disableoutput obedient (int_arg (pos 0) ∷ []) false).1).0
        ≡ ok (shown false))
    × ((outputs obedient [] (toggleoutput obedient (int_arg (pos 0) ∷ []) false).1).0
        ≡ ok (shown true))
outputs-shown_example = outputs-shown obedient (some false) false refl (λ b v. refl)

abbrev quiet_session : Session Bool
quiet_session = record {
  authenticated = false;
  command_list_receiving = false;
  command_list_ok = false;
  command_list = [];
  command_list_index = none;
  subsystem_events = [];
  subsystem_subscriptions = [];
  tagtypes = [];
  prevent_timeout = false;
  recv_buffer = [];
  effects = [];
  core = false;
}

toggles :
    (handle_request secret
      (core_handlers obedient)
      (codes "toggleoutput \"0\"")
      none
      (record quiet_session { authenticated = true })).1.core
    ≡ true
unfolding handle_request core_handlers text_eq
toggles = refl

new_year :
    (iso_format 1609459199 ≡ codes "2020-12-31T23:59:59")
    × (iso_format 951782400 ≡ codes "2000-02-29T00:00:00")
unfolding iso_format
new_year = (refl, refl)

abbrev pub a_track : Text → Obj
a_track uri = record {
  tlid = some 9;
  track = record {
    uri = some uri;
    name = some (codes "Song");
    artists = record { uri = none; name = some (codes "Someone"); musicbrainz_id = none } ∷ [];
    album = none;
    composers = [];
    performers = [];
    genre = none;
    date = none;
    length_ms = some 137500;
    track_no = none;
    disc_no = none;
    bitrate = none;
    last_modified = none;
    musicbrainz_id = none;
  };
}

shows_track :
    track_to_mpd_format
      (a_track (codes "dummy:a"))
      (codes "Artist" ∷ codes "Title" ∷ [])
      (some 4)
      none
    ≡ (codes "file", str (codes "dummy:a"))
      ∷ (codes "Time", int (pos 137))
      ∷ (codes "Artist", str (codes "Someone"))
      ∷ (codes "Title", str (codes "Song"))
      ∷ (codes "Pos", int (pos 4))
      ∷ (codes "Id", int (pos 9))
      ∷ []
unfolding track_to_mpd_format text_eq
shows_track = refl

track_to_mpd_format-IsAllowed_example :
    All
      (IsAllowed (codes "Artist" ∷ []))
      (track_to_mpd_format (a_track (codes "dummy:a")) (codes "Artist" ∷ []) none none)
track_to_mpd_format-IsAllowed_example =
    track_to_mpd_format-IsAllowed (codes "Artist" ∷ []) (a_track (codes "dummy:a")) none none

abbrev two_tracks : List Obj
two_tracks = a_track (codes "dummy:a") ∷ a_track (codes "dummy:b") ∷ []

tracks_to_mpd_format-append_example :
    ((before : List Obj) (track : Obj) (behind : List Obj)
      → two_tracks ≡ before ++ track ∷ behind
      → tracks_to_mpd_format two_tracks [] (length before) (some (length before + 1))
        ≡ ok (track_to_mpd_format track [] (some (length before)) none))
    × (front back : List Tag) × (tracks_to_mpd_format two_tracks [] 0 (some 1) ≡ ok front)
    × (tracks_to_mpd_format two_tracks [] 1 (some 2) ≡ ok back)
    × (tracks_to_mpd_format two_tracks [] 0 (some 2) ≡ ok (front ++ back))
tracks_to_mpd_format-append_example =
    tracks_to_mpd_format-append [] two_tracks 0 1 2 (omega arith) (omega arith) (omega arith)
