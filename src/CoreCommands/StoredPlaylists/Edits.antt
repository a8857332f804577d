-- ===== src/CoreCommands/StoredPlaylists/Edits.antt =====
-- src/mopidy_mpd/protocol/stored_playlists.py: the commands that change playlists.
use mopidy_mpd.Prelude.{
  ℕ, zero, suc, pos, Text, codes, Option, none, some, List, [], ◌∷◌, ◌++◌, ◌==◌, if◌then◌else◌,
  is_empty, take, drop,
}
use mopidy_mpd.Exceptions.{
  mpd_error, arg_error, exist_error, no_exist_error, mpd_failed_to_save_playlist_error,
  mpd_invalid_track_for_playlist_error,
}
use mopidy_mpd.Outcome.{raised, other_error}
use mopidy_mpd.Protocol.{Result, nothing, Arg, str_arg, int_arg}
use mopidy_mpd.Translator.{Track}
use mopidy_mpd.Url.{str_scheme, url_scheme}
use mopidy_mpd.CoreCommands.Core.{
  Playlist, Playlists, Library, UriMap, Tracklist, TlTrack, K, pure, throw, ask, lift, done,
  bad_call, ◌>>=◌,
}
use mopidy_mpd.CoreCommands.StoredPlaylists.Saving.{Setting, save_tracks, create_playlist}
use mopidy_mpd.CoreCommands.StoredPlaylists.{
  check_playlist_name, get_playlist, get_existing_playlist,
}

module _ {ℓ} {A : Type ℓ} where
  -- `list.pop(i)`: the element and the others, or nothing for the `IndexError`.
  unfoldable pub pop : ℕ → List A → Option (A × List A)
  pop i [] = none
  pop zero (x ∷ xs) = some (x, xs)
  pop (suc i) (x ∷ xs) =
      let rest = pop i xs in elim rest [ none ↦ none | some (y, ys) ↦ some (y, x ∷ ys) ]

  -- `list.insert(i, x)`: behind the last element where the position is behind it.
  unfoldable pub list_insert : ℕ → A → List A → List A
  list_insert i x xs = take i xs ++ (x ∷ drop i xs)

abbrev all_tracks : List (Text × List Track) → List Track
all_tracks [] = []
all_tracks ((uri, tracks) ∷ rest) = tracks ++ all_tracks rest

abbrev pub of_tl : List TlTrack → List Track
of_tl [] = []
of_tl (t ∷ ts) = t.track ∷ of_tl ts

unfoldable pub without_position : ℕ → List Track → Option (List Track)
unfolding pop
without_position songpos tracks = elim (pop songpos tracks) [
  | none ↦ none
  | some (track, others) ↦ some others
]

unfoldable pub moved_track : ℕ → ℕ → List Track → Option (List Track)
unfolding pop list_insert
moved_track from_pos to_pos tracks = elim (pop from_pos tracks) [
  | none ↦ none
  | some (track, others) ↦ some (list_insert to_pos track others)
]

module _ {W : Type 0} (setting : Setting) (playlists : Playlists W) (uri_map : UriMap W) where
  -- The error of `playlistadd` where the playlist is not saved.
  unfoldable pub check_added : Option Text → Text → Option Playlist → K W Result
  unfolding str_scheme url_scheme
  check_added uri track_uri (some saved) = pure nothing
  check_added uri track_uri none = do
    playlist_scheme ← lift (str_scheme setting.bad_netloc uri)
    uri_scheme ← lift (url_scheme setting.bad_netloc track_uri)
    throw (mpd_invalid_track_for_playlist_error playlist_scheme uri_scheme)

  unfoldable pub add_to : Library W → Text → Text → Option Playlist → K W Result
  unfolding create_playlist check_added
  add_to library name track_uri none = do
    lookup_res ← ask (library.lookup (track_uri ∷ []))
    create_playlist setting playlists name (all_tracks lookup_res)
  add_to library name track_uri (some old) = do
    lookup_res ← ask (library.lookup (track_uri ∷ []))
    saved_playlist ← playlists.save (record old { tracks = old.tracks ++ all_tracks lookup_res })
    check_added old.uri track_uri saved_playlist

  unfoldable pub playlistadd : Library W → List Arg → K W Result
  unfolding check_playlist_name get_playlist add_to
  playlistadd library (str_arg name ∷ str_arg track_uri ∷ []) = do
    _ ← check_playlist_name name
    old_playlist ← get_playlist playlists uri_map name
    add_to library name track_uri old_playlist
  playlistadd library _ = bad_call

  -- `if not playlist`, a new one is asked for, and `assert playlist`
  unfoldable pub or_created : Text → Option Playlist → K W (Option Playlist)
  or_created name none = playlists.create name none
  or_created name (some playlist) = pure (some playlist)

  unfoldable pub clear_tracks : Option Playlist → K W Result
  unfolding save_tracks
  clear_tracks none = lift (raised (other_error (codes "AssertionError")))
  clear_tracks (some playlist) = save_tracks setting playlists playlist []

  unfoldable pub playlistclear : List Arg → K W Result
  unfolding check_playlist_name get_playlist or_created clear_tracks
  playlistclear (str_arg name ∷ []) = do
    _ ← check_playlist_name name
    old ← get_playlist playlists uri_map name
    playlist ← or_created name old
    clear_tracks playlist
  playlistclear _ = bad_call

  -- The new tracks, where the positions are in the playlist.
  unfoldable pub save_edited : Playlist → Option (List Track) → K W Result
  unfolding save_tracks
  save_edited playlist none = throw (mpd_error arg_error (codes "Bad song index") none)
  save_edited playlist (some tracks) = save_tracks setting playlists playlist tracks

  unfoldable pub playlistdelete : List Arg → K W Result
  unfolding check_playlist_name get_existing_playlist save_edited without_position
  playlistdelete (str_arg name ∷ int_arg (pos songpos) ∷ []) = do
    _ ← check_playlist_name name
    playlist ← get_existing_playlist playlists uri_map name
    save_edited playlist (without_position songpos playlist.tracks)
  playlistdelete _ = bad_call

  unfoldable pub playlistmove : List Arg → K W Result
  unfolding check_playlist_name get_existing_playlist save_edited moved_track
  playlistmove (str_arg name ∷ int_arg (pos from_pos) ∷ int_arg (pos to_pos) ∷ []) =
      if from_pos == to_pos then pure nothing else do
        _ ← check_playlist_name name
        playlist ← get_existing_playlist playlists uri_map name
        save_edited playlist (moved_track from_pos to_pos playlist.tracks)
  playlistmove _ = bad_call

  -- What is left to do once the copy of a renamed playlist is saved.
  unfoldable pub delete_old : Text → Option Text → Option Playlist → K W Result
  delete_old scheme uri none = throw (mpd_failed_to_save_playlist_error scheme)
  delete_old scheme none (some saved) = pure nothing
  delete_old scheme (some uri) (some saved) = done (playlists.delete uri)

  unfoldable pub copy_into : Text → Playlist → Option Playlist → K W Result
  unfolding delete_old
  copy_into scheme old none = throw (mpd_failed_to_save_playlist_error scheme)
  copy_into scheme old (some empty_playlist) = do
    saved_playlist ← playlists.save (record empty_playlist { tracks = old.tracks })
    delete_old scheme old.uri saved_playlist

  unfoldable pub rename_to : Text → Playlist → Option Playlist → K W Result
  unfolding copy_into str_scheme
  rename_to new_name old (some existing) =
      throw (mpd_error exist_error (codes "Playlist already exists") none)
  rename_to new_name old none = do
    uri_scheme ← lift (str_scheme setting.bad_netloc old.uri)
    empty_playlist ← playlists.create new_name (some uri_scheme)
    copy_into uri_scheme old empty_playlist

  unfoldable pub rename : List Arg → K W Result
  unfolding check_playlist_name get_existing_playlist get_playlist rename_to
  rename (str_arg old_name ∷ str_arg new_name ∷ []) = do
    _ ← check_playlist_name old_name
    _ ← check_playlist_name new_name
    old_playlist ← get_existing_playlist playlists uri_map old_name
    new_playlist ← get_playlist playlists uri_map new_name
    rename_to new_name old_playlist new_playlist
  rename _ = bad_call

  unfoldable pub delete_uri : Option Text → K W Result
  delete_uri none = throw (mpd_error no_exist_error (codes "No such playlist") none)
  delete_uri (some uri) =
      if is_empty uri
      then throw (mpd_error no_exist_error (codes "No such playlist") none)
      else done (playlists.delete uri)

  unfoldable pub rm : List Arg → K W Result
  unfolding check_playlist_name delete_uri
  rm (str_arg name ∷ []) = do
    _ ← check_playlist_name name
    uri ← uri_map.playlist_uri_from_name name
    delete_uri uri
  rm _ = bad_call

  unfoldable pub save_into : Text → List Track → Option Playlist → K W Result
  unfolding create_playlist save_tracks
  save_into name tracks none = create_playlist setting playlists name tracks
  save_into name tracks (some playlist) = save_tracks setting playlists playlist tracks

  unfoldable pub save : Tracklist W → List Arg → K W Result
  unfolding check_playlist_name get_playlist save_into
  save tracklist (str_arg name ∷ []) = do
    _ ← check_playlist_name name
    tl_tracks ← ask tracklist.get_tl_tracks
    playlist ← get_playlist playlists uri_map name
    save_into name (of_tl tl_tracks) playlist
  save tracklist _ = bad_call
