-- ===== src/CoreCommands/Playback.antt =====
-- src/mopidy_mpd/protocol/playback.py: the commands that control the player.
pub mod Volumes
pub mod Errors
use mopidy_mpd.Prelude.{
  ℕ, ◌+◌, ℤ, pos, negsuc, lt_int, eq_int, add_int, min_int, max_int, Text, codes, Bool, true, false,
  not, ◌||◌, Option, none, some, List, [], ◌∷◌, if◌then◌else◌, starts_with,
}
use mopidy_mpd.Exceptions.{
  mpd_error, arg_error, no_exist_error, system_error, mpd_not_implemented_error,
}
use mopidy_mpd.Outcome.{Outcome}
use mopidy_mpd.Convert.Float.{Float, float, ufloat, milliseconds}
use mopidy_mpd.Protocol.{
  str, pair, Result, nothing, single, Arg, none_arg, str_arg, int_arg, bool_arg, float_arg,
}
use mopidy_mpd.Commands.Connection.{required}
use mopidy_mpd.Requests.{CoreHandler}
use mopidy_mpd.CoreCommands.Outputs.{uint_param}
use mopidy_mpd.CoreCommands.Params.{
  int_param, bool_param, ufloat_param, optional_int, optional_bool,
}
use mopidy_mpd.CoreCommands.Core.{
  TlTrack, PlaybackState, playing, paused, stopped, Tracklist, Playback, Volume, K, pure, throw,
  ask, lift, tell, done, command, bad_call, ◌>>=◌, ◌>>◌,
}

module _ {W : Type 0} (tracklist : Tracklist W) (playback : Playback W) where
  unfoldable pub consume : List Arg → K W Result
  consume (bool_arg state ∷ []) = done (tell (tracklist.set_consume state))
  consume _ = bad_call

  unfoldable pub random : List Arg → K W Result
  random (bool_arg state ∷ []) = done (tell (tracklist.set_random state))
  random _ = bad_call

  unfoldable pub repeat : List Arg → K W Result
  repeat (bool_arg state ∷ []) = done (tell (tracklist.set_repeat state))
  repeat _ = bad_call

  unfoldable pub single_mode : List Arg → K W Result
  single_mode (bool_arg state ∷ []) = done (tell (tracklist.set_single state))
  single_mode _ = bad_call

  unfoldable pub next : List Arg → K W Result
  next [] = done playback.next
  next _ = bad_call

  unfoldable pub previous : List Arg → K W Result
  previous [] = done playback.previous
  previous _ = bad_call

  unfoldable pub stop : List Arg → K W Result
  stop [] = done (tell playback.stop)
  stop _ = bad_call

  -- `pause` with no argument
  unfoldable pub toggle_pause : PlaybackState → K W Result
  toggle_pause playing = done playback.pause
  toggle_pause paused = done playback.resume
  toggle_pause stopped = pure nothing

  unfoldable pub pause : List Arg → K W Result
  unfolding toggle_pause
  pause (none_arg ∷ []) = do state ← ask playback.get_state; toggle_pause state
  pause (bool_arg true ∷ []) = done playback.pause
  pause (bool_arg false ∷ []) = done playback.resume
  pause _ = bad_call

  -- Starts the first of some tracks, and does nothing where there is none.
  unfoldable pub play_first : List TlTrack → K W Result
  play_first [] = pure nothing
  play_first (t ∷ _) = done (playback.play (some t.tlid))

  unfoldable pub play_current : Option ℕ → K W Result
  unfolding play_first
  play_current (some tlid) = done (playback.play (some tlid))
  play_current none = do tl_tracks ← ask (tracklist.slice (pos 0) (pos 1)); play_first tl_tracks

  -- `_play_minus_one`
  unfoldable pub minus_one_in : PlaybackState → K W Result
  unfolding play_current
  minus_one_in playing = pure nothing
  minus_one_in paused = done playback.resume
  minus_one_in stopped = do current_tlid ← ask playback.get_current_tlid; play_current current_tlid

  unfoldable pub play_minus_one : K W Result
  unfolding minus_one_in
  play_minus_one = do state ← ask playback.get_state; minus_one_in state

  -- `[0]` of a slice, where an empty one raises the `IndexError`
  unfoldable pub play_at : List TlTrack → K W Result
  play_at [] = throw (mpd_error arg_error (codes "Bad song index") none)
  play_at (t ∷ _) = done (playback.play (some t.tlid))

  unfoldable pub play_position : ℤ → K W Result
  unfolding play_minus_one play_at
  play_position songpos =
      if eq_int songpos (negsuc 0)
      then play_minus_one
      else do tl_tracks ← ask (tracklist.slice songpos (add_int songpos (pos 1))); play_at tl_tracks

  unfoldable pub play : List Arg → K W Result
  unfolding play_position
  play (none_arg ∷ []) = done (playback.play none)
  play (int_arg songpos ∷ []) = play_position songpos
  play _ = bad_call

  unfoldable pub play_found : List TlTrack → K W Result
  play_found [] = throw (mpd_error no_exist_error (codes "No such song") none)
  play_found (t ∷ _) = done (playback.play (some t.tlid))

  unfoldable pub play_tlid : ℤ → K W Result
  unfolding play_minus_one play_found
  play_tlid tlid =
      if eq_int tlid (negsuc 0)
      then play_minus_one
      else do tl_tracks ← ask (tracklist.filter_tlid tlid); play_found tl_tracks

  unfoldable pub playid : List Arg → K W Result
  unfolding play_tlid
  playid (int_arg tlid ∷ []) = play_tlid tlid
  playid _ = bad_call

  -- `playback.seek(DurationMs(int(seconds * 1000))).get()`
  unfoldable pub seek_seconds : Float → K W Result
  unfolding milliseconds
  seek_seconds seconds = do time ← lift (milliseconds seconds); done (playback.seek time)

  -- `index(…) != songpos`, where the index may be `None`
  abbrev pub is_not : Option ℕ → ℤ → Bool
  is_not none n = true
  is_not (some m) n = not (eq_int (pos m) n)

  unfoldable pub seek : List Arg → K W Result
  unfolding seek_seconds play_position
  seek (int_arg songpos ∷ float_arg seconds ∷ []) = do
    tl_track ← ask playback.get_current_tl_track
    index ← ask (tracklist.index tl_track)
    _ ← if is_not index songpos then play_position songpos else pure nothing
    seek_seconds seconds
  seek _ = bad_call

  abbrev pub is_other : Option TlTrack → ℤ → Bool
  is_other none n = true
  is_other (some t) n = not (eq_int (pos t.tlid) n)

  unfoldable pub seekid : List Arg → K W Result
  unfolding seek_seconds play_tlid
  seekid (int_arg tlid ∷ float_arg seconds ∷ []) = do
    tl_track ← ask playback.get_current_tl_track
    _ ← if is_other tl_track tlid then play_tlid tlid else pure nothing
    seek_seconds seconds
  seekid _ = bad_call

  -- `time.startswith(("+", "-"))`
  abbrev pub is_relative : Text → Bool
  is_relative time = starts_with time (codes "+") || starts_with time (codes "-")

  unfoldable pub seek_relative : Text → K W Result
  unfolding float milliseconds
  seek_relative time = do
    position ← ask playback.get_time_position
    seconds ← lift (float time)
    change ← lift (milliseconds seconds)
    done (playback.seek (add_int (pos position) change))

  unfoldable pub seek_absolute : Text → K W Result
  unfolding ufloat seek_seconds
  seek_absolute time = do seconds ← lift (ufloat time); seek_seconds seconds

  unfoldable pub seekcur : List Arg → K W Result
  unfolding seek_relative seek_absolute starts_with
  seekcur (str_arg time ∷ []) = if is_relative time then seek_relative time else seek_absolute time
  seekcur _ = bad_call
