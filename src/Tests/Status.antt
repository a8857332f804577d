-- ===== src/Tests/Status.antt =====
-- The commands of src/mopidy_mpd/protocol/status.py that ask the core, at a core that plays.
use mopidy_mpd.Prelude.{◌≡◌, refl, codes, true, false, none, some, [], ◌∷◌}
use mopidy_mpd.Outcome.{ok}
use mopidy_mpd.Convert.Float.{show_seconds}
use mopidy_mpd.CoreCommands.Core.{playing, Playback, Volume}
use mopidy_mpd.CoreCommands.CurrentPlaylist.Moves.{position_of}
use mopidy_mpd.CoreCommands.StatusReport.{Answers, status, currentsong}
use mopidy_mpd.CoreCommands.StatusReport.Agreement.{
  place_tags, Shows, playing_at, Answered, status-currentsong,
}
use mopidy_mpd.Tests.Player.{Queue, queue_core, silent, numbered}

abbrev queue : Queue
queue = numbered 5 ∷ numbered 6 ∷ []

abbrev player : Playback Queue
player = record silent {
  get_state = λ q. ok playing;
  get_current_tl_track = λ q. ok (some (numbered 6));
  get_time_position = λ q. ok 9042;
}

abbrev mixer : Volume Queue
mixer = record { get_volume = λ q. ok (some 40); set_volume = λ n q. (ok true, q) }

abbrev answers : Answers
answers = record {
  current = none;
  next_tlid = none;
  current_index = none;
  mixer_volume = some 40;
  next_index = none;
  state = playing;
  time_position = 9042;
  consume = false;
  length = 2;
  random = false;
  repeat = false;
  single = false;
  version = 7;
}

answered : Answered queue_core player mixer (playing_at (numbered 6) 1 answers) queue
unfolding position_of
answered = record {
  current_eq = refl;
  next_tlid_eq = refl;
  current_index_eq = refl;
  mixer_volume_eq = refl;
  next_index_eq = refl;
  state_eq = refl;
  time_position_eq = refl;
  consume_eq = refl;
  length_eq = refl;
  random_eq = refl;
  repeat_eq = refl;
  single_eq = refl;
  version_eq = refl;
}

elapsed-ok : show_seconds 9042 ≡ ok (codes "9.042")
unfolding show_seconds
elapsed-ok = refl

status-currentsong_example :
    Shows
      (status queue_core player mixer (codes "Title" ∷ []) [])
      queue
      (place_tags (codes "song") (codes "songid") 1 6)
    × Shows
        (currentsong queue_core player mixer (codes "Title" ∷ []) [])
        queue
        (place_tags (codes "Pos") (codes "Id") 1 6)
status-currentsong_example =
    status-currentsong queue_core player mixer (codes "Title" ∷ []) (numbered 6) 1 (codes "dummy:a")
      none answers (codes "9.042") queue answered refl refl refl refl elapsed-ok
