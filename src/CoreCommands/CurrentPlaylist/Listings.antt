-- ===== src/CoreCommands/CurrentPlaylist/Listings.antt =====
-- src/mopidy_mpd/protocol/current_playlist.py: the commands that show the tracklist.
use mopidy_mpd.Prelude.{
  ℕ, ◌+◌, ℤ, pos, lt_int, eq_int, Text, codes, not, Option, none, some, List, [], ◌∷◌,
  if◌then◌else◌, ltb, text_eq, length,
}
use mopidy_mpd.Exceptions.{mpd_error, arg_error, no_exist_error, mpd_not_implemented_error}
use mopidy_mpd.Convert.{Slice, range}
use mopidy_mpd.Protocol.{int, Result, nothing, Arg, none_arg, str_arg, int_arg}
use mopidy_mpd.Translator.{Tag, track_to_mpd_format, tracks_to_mpd_format}
use mopidy_mpd.CoreCommands.Core.{
  TlTrack, of_tl_track, of_tl_tracks, Tracklist, Playback, K, pure, throw, ask, lift, bad_call,
  ◌>>=◌,
}
use mopidy_mpd.CoreCommands.CurrentPlaylist.{tags_result}

-- `cpos` and `Id` of the tracks, from a position on.
unfoldable pub positions_from : ℕ → List TlTrack → List Tag
positions_from position [] = []
positions_from position (t ∷ ts) =
    (codes "cpos", int (pos position))
    ∷ (codes "Id", int (pos t.tlid))
    ∷ positions_from (position + 1) ts

module _ {W : Type 0} (tracklist : Tracklist W) (playback : Playback W) (tagtypes : List Text) where
  -- One track, with its position in the tracklist.
  unfoldable pub show_track : TlTrack → Option Text → Option ℕ → K W Result
  unfolding track_to_mpd_format
  show_track t stream_title position =
      pure (tags_result (track_to_mpd_format (of_tl_track t) tagtypes position stream_title))

  unfoldable pub show_first : TlTrack → K W Result
  unfolding show_track
  show_first t = do position ← ask (tracklist.index (some t)); show_track t none position

  unfoldable pub show_tracks : List TlTrack → ℕ → Option ℕ → K W Result
  unfolding tracks_to_mpd_format
  show_tracks tl_tracks start stop = do
    tags ← lift (tracks_to_mpd_format (of_tl_tracks tl_tracks) tagtypes start stop)
    pure (tags_result tags)

  unfoldable pub show_all : K W Result
  unfolding show_tracks
  show_all = do tl_tracks ← ask tracklist.get_tl_tracks; show_tracks tl_tracks 0 none

  unfoldable pub show_if_found : List TlTrack → K W Result
  unfolding show_first
  show_if_found [] = pure nothing
  show_if_found (t ∷ _) = show_first t

  unfoldable pub playlistfind : List Arg → K W Result
  unfolding show_if_found text_eq
  playlistfind (str_arg tag ∷ str_arg needle ∷ []) =
      if text_eq tag (codes "filename")
      then (do tl_tracks ← ask (tracklist.filter_uri needle); show_if_found tl_tracks)
      else throw mpd_not_implemented_error
  playlistfind _ = bad_call

  unfoldable pub show_existing : List TlTrack → K W Result
  unfolding show_first
  show_existing [] = throw (mpd_error no_exist_error (codes "No such song") none)
  show_existing (t ∷ _) = show_first t

  unfoldable pub playlistid : List Arg → K W Result
  unfolding show_existing show_all
  playlistid (none_arg ∷ []) = show_all
  playlistid (int_arg tlid ∷ []) = do
    tl_tracks ← ask (tracklist.filter_tlid tlid)
    show_existing tl_tracks
  playlistid _ = bad_call

  -- `if end and end > len(tl_tracks): end = None`
  abbrev pub clipped : Option ℕ → ℕ → Option ℕ
  clipped none n = none
  clipped (some stop) n = if ltb n stop then none else some stop

  unfoldable pub show_window : Slice → List TlTrack → K W Result
  unfolding show_tracks
  show_window window tl_tracks =
      if ltb (length tl_tracks) window.start
      then throw (mpd_error arg_error (codes "Bad song index") none)
      else show_tracks tl_tracks window.start (clipped window.stop (length tl_tracks))

  -- The range of the tracklist that a parameter asks for. `RANGE` is called in the function itself,
  -- so its `ValueError` is the function's.
  unfoldable pub window_of : Text → K W Slice
  unfolding range text_eq
  window_of parameter =
      if text_eq parameter (codes "-1")
      then pure (record { start = 0; stop = none })
      else lift (range parameter)

  unfoldable pub show_slice : Slice → K W Result
  unfolding show_window
  show_slice window = do tl_tracks ← ask tracklist.get_tl_tracks; show_window window tl_tracks

  unfoldable pub playlistinfo : List Arg → K W Result
  unfolding window_of show_slice
  playlistinfo (none_arg ∷ []) = show_slice (record { start = 0; stop = none })
  playlistinfo (str_arg parameter ∷ []) = do window ← window_of parameter; show_slice window
  playlistinfo _ = bad_call

  unfoldable pub playlist : List Arg → K W Result
  unfolding playlistinfo
  playlist [] = playlistinfo (none_arg ∷ [])
  playlist _ = bad_call

  -- `tl_track is not None and position is not None`
  unfoldable pub show_stream : Text → Option TlTrack → Option ℕ → K W Result
  unfolding show_track
  show_stream stream_title (some t) (some position) =
      show_track t (some stream_title) (some position)
  show_stream stream_title _ _ = pure nothing

  unfoldable pub show_change : Option Text → K W Result
  unfolding show_stream
  show_change none = pure nothing
  show_change (some stream_title) = do
    tl_track ← ask playback.get_current_tl_track
    position ← ask (tracklist.index tl_track)
    show_stream stream_title tl_track position

  unfoldable pub changes_since : ℤ → ℕ → K W Result
  unfolding show_all show_change
  changes_since version tracklist_version =
      if lt_int version (pos tracklist_version)
      then show_all
      else if eq_int version (pos tracklist_version)
      then (do stream_title ← ask playback.get_stream_title; show_change stream_title)
      else pure nothing

  unfoldable pub plchanges : List Arg → K W Result
  unfolding changes_since
  plchanges (int_arg version ∷ []) = do
    tracklist_version ← ask tracklist.get_version
    changes_since version tracklist_version
  plchanges _ = bad_call

  unfoldable pub positions_since : ℤ → ℕ → K W Result
  unfolding positions_from
  positions_since version tracklist_version =
      if not (eq_int version (pos tracklist_version))
      then (do
        tl_tracks ← ask tracklist.get_tl_tracks
        pure (tags_result (positions_from 0 tl_tracks)))
      else pure nothing

  unfoldable pub plchangesposid : List Arg → K W Result
  unfolding positions_since
  plchangesposid (int_arg version ∷ []) = do
    tracklist_version ← ask tracklist.get_version
    positions_since version tracklist_version
  plchangesposid _ = bad_call
