-- ===== src/Tests/Registered.antt =====
-- All registered commands together, at concrete inputs.
use mopidy_mpd.Prelude.{
  ◌⊎◌, contains, map, ◌≡◌, refl, Text, codes, true, false, none, some, List, [], ◌∷◌, ◌++◌, All,
  text_eq,
}
use mopidy_mpd.Outcome.{ok, raised, ack}
use mopidy_mpd.Session.{Session}
use mopidy_mpd.Requests.{handle_request}
use mopidy_mpd.CoreCommands.CurrentPlaylist.Listings.{playlistinfo}
use mopidy_mpd.CoreCommands.CurrentPlaylist.{swap}
use mopidy_mpd.CoreCommands.CurrentPlaylist.Moves.{moved}
use mopidy_mpd.CoreCommands.Handlers.{Services, all_handlers}
use mopidy_mpd.CoreCommands.Registered.{all_recorded, recording, requests-registered}
use mopidy_mpd.Requests.Login.{IsLogin, requests}
use mopidy_mpd.Tokenize.{split}
use mopidy_mpd.CoreCommands.CurrentPlaylist.{clear}
use mopidy_mpd.Dispatcher.{handle_idle}
use mopidy_mpd.Commands.Status.{subsystems}
use mopidy_mpd.Frontend.{on_core_event, on_core_event-known}
use mopidy_mpd.Tests.Sessions.{secret}
use mopidy_mpd.Tests.Player.{Queue, queue_core, silent, numbered}
use mopidy_mpd.Protocol.{Handler, Arg, call_handler}
use mopidy_mpd.Protocol.Binding.{Counts, Fits, incorrect, call_handler-Fits}
use mopidy_mpd.Exceptions.{mpd_error, arg_error}
use mopidy_mpd.Requests.{of_core}
use mopidy_mpd.CoreCommands.Core.{command}
use mopidy_mpd.CoreCommands.Params.{range_param}
use mopidy_mpd.CoreCommands.Params.Types.{
  IsRange, IsNatural, range_param-IsTyped, uint_param-IsTyped,
}
use mopidy_mpd.CoreCommands.Outputs.{uint_param}
use mopidy_mpd.CoreCommands.CurrentPlaylist.{move_range}
use mopidy_mpd.Prelude.{◌⊎◌}
use mopidy_mpd.Tests.Library.{setting, stored, names, shelf, songs}

abbrev services : Services Queue
services = record {
  tracklist = queue_core;
  playback = silent;
  outputs = record { get_mute = λ q. ok none; set_mute = λ b q. (ok true, q) };
  mixer = record { get_volume = λ q. ok (some 40); set_volume = λ v q. (ok true, q) };
  library = shelf;
  searches = record { search = λ query exact q. ok []; get_distinct = λ field query q. ok [] };
  playlists = stored;
  uri_map = names;
  setting = setting;
  get_uri_schemes = λ q. ok (codes "m3u" ∷ []);
  clock = λ q. 0;
  fuel = 100;
}

abbrev visitor : Session Queue
visitor = record {
  authenticated = false;
  command_list_receiving = false;
  command_list_ok = false;
  command_list = [];
  command_list_index = none;
  subsystem_events = [];
  subsystem_subscriptions = [];
  tagtypes = [];
  prevent_timeout = false;
  recv_buffer = [];
  effects = [];
  core = songs;
}

abbrev guesses : List Text
guesses = codes "password guess" ∷ codes "clear" ∷ []

guesses-wrong : All (λ request. ¬ IsLogin (codes "s3cret") request) guesses
unfolding split
guesses-wrong = (λ e. cc, (λ e. cc, tt))

requests-registered_example :
    ((requests secret (all_handlers services) guesses visitor).core ≡ songs)
    × ((requests secret (all_handlers services) guesses visitor).authenticated ≡ false)
    × ((requests secret (all_recorded (all_handlers services)) guesses (recording visitor)).core
        ≡ (songs, false))
requests-registered_example =
    requests-registered services secret (codes "s3cret") guesses visitor refl refl refl
      guesses-wrong

-- With the password a command that only asks is recorded.
asks :
    (requests secret
      (all_recorded (all_handlers services))
      (codes "password s3cret" ∷ codes "playlistinfo" ∷ [])
      (recording visitor)).core
    ≡ (songs, true)
unfolding requests all_handlers text_eq playlistinfo
asks = refl

-- With the password the same command reaches the core.
clears :
    (requests secret
      (all_handlers services)
      (codes "password s3cret" ∷ codes "clear" ∷ [])
      visitor).core
    ≡ []
unfolding requests all_handlers text_eq clear
clears = refl

-- A request from the line to the core and back.
swaps :
    (handle_request secret
      (all_handlers services)
      (codes "swap \"0\" 1")
      none
      (record visitor { authenticated = true })).1.core
    ≡ numbered 6 ∷ numbered 5 ∷ []
unfolding handle_request all_handlers swap moved text_eq
swaps = refl

on_core_event-known_example :
    (on_core_event (codes "volume_changed") (visitor ∷ []) ≡ visitor ∷ [])
    ⊎ ((t : Text) × (contains subsystems t ≡ true)
        × (on_core_event (codes "volume_changed") (visitor ∷ [])
            ≡ map (handle_idle t) (visitor ∷ [])))
on_core_event-known_example = on_core_event-known (codes "volume_changed") (visitor ∷ [])

abbrev move_handler : Handler Queue
move_handler =
    of_core (command (codes "move") (range_param ∷ uint_param ∷ []) (λ _. move_range queue_core))

-- A range that is open, and no position to move it to.
call_handler-Fits_example :
    (Counts (range_param ∷ uint_param ∷ []) (codes "1:" ∷ [])
      → ((arguments : List Arg) × Fits (IsRange ∷ IsNatural ∷ []) arguments
          × (call_handler move_handler (codes "1:" ∷ []) visitor
              ≡ move_handler.func arguments visitor))
        ⊎ (call_handler move_handler (codes "1:" ∷ []) visitor ≡ (raised (ack incorrect), visitor)))
    × ((¬ Counts (range_param ∷ uint_param ∷ []) (codes "1:" ∷ []))
        → call_handler move_handler (codes "1:" ∷ []) visitor ≡ (
          raised (
              ack (
                mpd_error arg_error
                  (codes "wrong number of arguments for \"" ++ codes "move" ++ codes "\"")
                  none)),
          visitor,
        ))
call_handler-Fits_example =
    call_handler-Fits move_handler (range_param ∷ uint_param ∷ []) (IsRange ∷ IsNatural ∷ [])
      (codes "1:" ∷ []) visitor refl (range_param-IsTyped, (uint_param-IsTyped, tt))
