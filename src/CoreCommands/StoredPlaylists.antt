-- ===== src/CoreCommands/StoredPlaylists.antt =====
-- src/mopidy_mpd/protocol/stored_playlists.py: the commands that show and load playlists.
pub mod SaveLoad
pub mod Positions
pub mod Names
pub mod Saving
pub mod Edits
use mopidy_mpd.Prelude.{
  ℕ, ◌/◌, Text, codes, Bool, true, false, ◌||◌, Option, none, some, List, [], ◌∷◌, ◌++◌, ◌==◌,
  if◌then◌else◌, ltb, is_empty, text_eq, get,
}
use mopidy_mpd.Exceptions.{mpd_error, no_exist_error, mpd_invalid_playlist_name_error}
use mopidy_mpd.Outcome.{Outcome, ok, raised, other_error}
use mopidy_mpd.Convert.{Slice}
use mopidy_mpd.Protocol.{str, Result, nothing, Arg, str_arg, slice_arg}
use mopidy_mpd.Translator.{Track, Obj, Tag, playlist_to_mpd_format}
use mopidy_mpd.Translator.Dates.{iso_format}
use mopidy_mpd.CoreCommands.Core.{
  Playlist, Ref, Playlists, Library, UriMap, Tracklist, K, pure, throw, ask, lift, done, bad_call,
  ◌>>=◌, ◌>>◌,
}
use mopidy_mpd.CoreCommands.CurrentPlaylist.{tags_result}
use mopidy_mpd.CoreCommands.CurrentPlaylist.Windows.{sliced}

-- `re.search("[/\n\r]", name)`
unfoldable pub is_invalid_name : Text → Bool
is_invalid_name [] = false
is_invalid_name (c ∷ name) = (c == b'/') || (c == 10) || (c == 13) || is_invalid_name name

-- `str(track.uri)`
abbrev str_uri : Option Text → Text
str_uri none = codes "None"
str_uri (some uri) = uri

unfoldable pub file_tags : List Track → List Tag
file_tags [] = []
file_tags (t ∷ ts) = (codes "file", str (str_uri t.uri)) ∷ file_tags ts

-- The URIs of the tracks that have one.
unfoldable pub track_uris : List Track → List Text
track_uris [] = []
track_uris (t ∷ ts) = elim t.uri [ none ↦ track_uris ts | some uri ↦ uri ∷ track_uris ts ]

-- `tracks.extend(tracks_map[uri])` for each of the URIs.
unfoldable pub looked_up : List Text → List (Text × List Track) → Outcome (List Track)
unfolding get text_eq
looked_up [] tracks_map = ok []
looked_up (uri ∷ uris) tracks_map =
    let rest = looked_up uris tracks_map in
    elim (get text_eq uri tracks_map) [
      | none ↦ raised (other_error (codes "KeyError"))
      | some tracks ↦ elim rest [ ok more ↦ ok (tracks ++ more) | r ↦ r ]
    ]

abbrev pub objs : List Track → List Obj
objs [] = []
objs (t ∷ ts) = record { tlid = none; track = t } ∷ objs ts

-- `_get_last_modified`, with the seconds that the clock shows
unfoldable pub get_last_modified : Option ℕ → ℕ → Text
unfolding iso_format
get_last_modified none now = iso_format now ++ codes "Z"
get_last_modified (some ms) now = iso_format (ms / 1000) ++ codes "Z"

module _ {W : Type 0} where
  -- `_check_playlist_name`
  unfoldable pub check_playlist_name : Text → K W (Unit {0})
  unfolding is_invalid_name
  check_playlist_name name =
      if is_invalid_name name then throw mpd_invalid_playlist_name_error else pure tt

  unfoldable pub required_playlist : Option Playlist → K W Playlist
  required_playlist none = throw (mpd_error no_exist_error (codes "No such playlist") none)
  required_playlist (some playlist) = pure playlist

module _ {W : Type 0} (playlists : Playlists W) (uri_map : UriMap W) where
  -- `if uri:`, so that no playlist is looked up under an empty URI
  unfoldable pub lookup_uri : Option Text → K W (Option Playlist)
  lookup_uri none = pure none
  lookup_uri (some uri) = if is_empty uri then pure none else ask (playlists.lookup uri)

  -- `_get_playlist` with `must_exist=False`
  unfoldable pub get_playlist : Text → K W (Option Playlist)
  unfolding lookup_uri
  get_playlist name = do uri ← uri_map.playlist_uri_from_name name; lookup_uri uri

  -- `_get_playlist` with `must_exist=True`
  unfoldable pub get_existing_playlist : Text → K W Playlist
  unfolding get_playlist required_playlist
  get_existing_playlist name = do playlist ← get_playlist name; required_playlist playlist

  unfoldable pub listplaylist : List Arg → K W Result
  unfolding get_existing_playlist file_tags
  listplaylist (str_arg name ∷ []) = do
    playlist ← get_existing_playlist name
    pure (tags_result (file_tags playlist.tracks))
  listplaylist _ = bad_call

  unfoldable pub listplaylistinfo : Library W → List Text → List Arg → K W Result
  unfolding get_existing_playlist track_uris looked_up playlist_to_mpd_format
  listplaylistinfo library tagtypes (str_arg name ∷ []) = do
    playlist ← get_existing_playlist name
    tracks_map ← ask (library.lookup (track_uris playlist.tracks))
    tracks ← lift (looked_up (track_uris playlist.tracks) tracks_map)
    tags ← lift (playlist_to_mpd_format (objs tracks) tagtypes)
    pure (tags_result tags)
  listplaylistinfo library tagtypes _ = bad_call

  -- The tags of one playlist; `named` are its name in the core.
  unfoldable pub listed : Text → Option Text → Ref → K W (List Tag)
  listed last_modified none ref = pure []
  listed last_modified (some []) ref = pure []
  listed last_modified (some (c ∷ named)) ref = do
    name ← uri_map.playlist_name_from_uri ref.uri
    pure ((codes "playlist", str name) ∷ (codes "Last-Modified", str last_modified) ∷ [])

  unfoldable pub list_all : Text → List Ref → K W (List Tag)
  unfolding listed
  list_all last_modified [] = pure []
  list_all last_modified (ref ∷ refs) = do
    tags ← listed last_modified ref.name ref
    more ← list_all last_modified refs
    pure (tags ++ more)

  unfoldable pub playlist_tags : ℕ → K W (List Tag)
  unfolding get_last_modified list_all
  playlist_tags now = do refs ← ask playlists.as_list; list_all (get_last_modified none now) refs

  unfoldable pub listplaylists : ℕ → List Arg → K W Result
  unfolding playlist_tags
  listplaylists now [] = do tags ← playlist_tags now; pure (tags_result tags)
  listplaylists now _ = bad_call

  unfoldable pub load : Tracklist W → List Arg → K W Result
  unfolding get_existing_playlist track_uris sliced
  load tracklist (str_arg name ∷ slice_arg playlist_slice ∷ []) = do
    playlist ← get_existing_playlist name
    done (
        tracklist.add (track_uris (sliced playlist_slice.start playlist_slice.stop playlist.tracks))
          none)
  load tracklist _ = bad_call
