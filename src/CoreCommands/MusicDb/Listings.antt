-- ===== src/CoreCommands/MusicDb/Listings.antt =====
-- src/mopidy_mpd/protocol/music_db.py: the commands that list directories, and those that pretend to
-- update the library.
use mopidy_mpd.Prelude.{
  ℕ, pos, Text, codes, Bool, true, false, ◌||◌, Option, none, some, List, [], ◌∷◌, ◌++◌, ◌==◌,
  if◌then◌else◌, is_empty, text_eq,
}
use mopidy_mpd.Exceptions.{mpd_error, no_exist_error, arg_error}
use mopidy_mpd.Outcome.{Outcome}
use mopidy_mpd.Protocol.{str, int, dict, Result, nothing, single, Arg, none_arg, str_arg}
use mopidy_mpd.Translator.{Track, Tag, track_to_mpd_format}
use mopidy_mpd.CoreCommands.Core.{
  Query, Searches, Ref, Library, Playlist, Playlists, UriMap, K, pure, throw, ask, lift, tell, done,
  bad_call, ◌>>=◌,
}
use mopidy_mpd.CoreCommands.CurrentPlaylist.{tags_result}
use mopidy_mpd.CoreCommands.Context.{browse}
use mopidy_mpd.CoreCommands.StoredPlaylists.{playlist_tags}
use mopidy_mpd.CoreCommands.MusicDb.{query_for_search, get_tracks}
use mopidy_mpd.CoreCommands.MusicDb.Finds.{tokens, or_nothing}

-- `path.lstrip("/")`
unfoldable pub lstrip_slash : Text → Text
lstrip_slash [] = []
lstrip_slash (c ∷ s) = let rest = lstrip_slash s in if c == b'/' then rest else c ∷ s

abbrev directory_tag : Text → Tag
directory_tag path = (codes "directory", str (lstrip_slash path))

-- `str(track_ref.uri)`: browse passes over an entry with no URI.
abbrev file_tag : Option Text → Tag
file_tag none = (codes "file", str (codes "None"))
file_tag (some uri) = (codes "file", str uri)

-- The tags of a track out of the library.
unfoldable pub track_tags : List Text → Track → List Tag
unfolding track_to_mpd_format
track_tags tagtypes t = track_to_mpd_format (record { tlid = none; track = t }) tagtypes none none

unfoldable pub tracks_tags : List Text → List Track → List Tag
unfolding track_tags
tracks_tags tagtypes [] = []
tracks_tags tagtypes (t ∷ ts) = track_tags tagtypes t ++ tracks_tags tagtypes ts

unfoldable pub all_tags_of : List Text → List (Text × List Track) → List Tag
unfolding tracks_tags
all_tags_of tagtypes [] = []
all_tags_of tagtypes ((uri, tracks) ∷ rest) =
    tracks_tags tagtypes tracks ++ all_tags_of tagtypes rest

-- Of each answer the first track, where there is one.
unfoldable pub first_tags_of : List Text → List (Text × List Track) → List Tag
unfolding track_tags
first_tags_of tagtypes [] = []
first_tags_of tagtypes ((uri, []) ∷ rest) = first_tags_of tagtypes rest
first_tags_of tagtypes ((uri, t ∷ ts) ∷ rest) = track_tags tagtypes t ++ first_tags_of tagtypes rest

abbrev update_result : Result
update_result = single (dict ((codes "updating_db", int (pos 0)) ∷ []))

-- What the future of the lookup of a track's URI gives.
abbrev pub Lookup : Type 0
Lookup = Outcome (List (Text × List Track))

module _ {W : Type 0} (library : Library W) (uri_map : UriMap W) (fuel : ℕ) where
  unfoldable pub list_entry : List Tag → Text → Option Ref → K W (List Tag)
  unfolding lstrip_slash
  list_entry result path none = pure (result ++ (directory_tag path ∷ []))
  list_entry result path (some ref) = pure (result ++ (file_tag ref.uri ∷ []))

  -- `if not result: raise`
  unfoldable pub some_listed : List Tag → K W Result
  some_listed [] = throw (mpd_error no_exist_error (codes "Not found") none)
  some_listed (t ∷ ts) = pure (tags_result (t ∷ ts))

  unfoldable pub listall_path : Text → K W Result
  unfolding browse list_entry some_listed
  listall_path path = do
    result ← browse library uri_map true (λ _ ref _. ref) list_entry fuel path []
    some_listed result

  unfoldable pub listall : List Arg → K W Result
  unfolding listall_path
  listall (none_arg ∷ []) = listall_path []
  listall (str_arg uri ∷ []) = listall_path uri
  listall _ = bad_call

  -- The body of the loop of `listallinfo` and of `lsinfo`: what it shows of the answer to a lookup.
  unfoldable pub info_entry :
      (List (Text × List Track) → List Tag) → List Tag → Text → Option Lookup → K W (List Tag)
  unfolding lstrip_slash
  info_entry shown result path none = pure (result ++ (directory_tag path ∷ []))
  info_entry shown result path (some lookup_future) = do
    tracks ← lift lookup_future
    pure (result ++ shown tracks)

  unfoldable pub info_path : Bool → (List (Text × List Track) → List Tag) → Text → K W (List Tag)
  unfolding browse info_entry
  info_path recursive shown path =
      browse library uri_map recursive (λ uri _. library.lookup (uri ∷ [])) (info_entry shown) fuel
        path []

  unfoldable pub listallinfo : List Text → List Arg → K W Result
  unfolding info_path all_tags_of
  listallinfo tagtypes (none_arg ∷ []) = do
    tags ← info_path true (all_tags_of tagtypes) []
    pure (tags_result tags)
  listallinfo tagtypes (str_arg uri ∷ []) = do
    tags ← info_path true (all_tags_of tagtypes) uri
    pure (tags_result tags)
  listallinfo tagtypes _ = bad_call

  module _ (playlists : Playlists W) (now : ℕ) where
    -- `uri in (None, "", "/")`
    unfoldable pub root_playlists : Text → K W (List Tag)
    unfolding playlist_tags text_eq
    root_playlists uri =
        if is_empty uri || text_eq uri (codes "/")
        then playlist_tags playlists uri_map now
        else pure []

    unfoldable pub lsinfo_path : List Text → Text → K W Result
    unfolding info_path first_tags_of root_playlists
    lsinfo_path tagtypes uri = do
      tags ← info_path false (first_tags_of tagtypes) uri
      more ← root_playlists uri
      pure (tags_result (tags ++ more))

    unfoldable pub lsinfo : List Text → List Arg → K W Result
    unfolding lsinfo_path
    lsinfo tagtypes (none_arg ∷ []) = lsinfo_path tagtypes []
    lsinfo tagtypes (str_arg uri ∷ []) = lsinfo_path tagtypes uri
    lsinfo tagtypes _ = bad_call

module _ {W : Type 0} where
  unfoldable pub update : List Arg → K W Result
  update (_ ∷ []) = pure update_result
  update _ = bad_call

  unfoldable pub rescan : List Arg → K W Result
  rescan (_ ∷ []) = pure update_result
  rescan _ = bad_call

module _ {W : Type 0} (searches : Searches W) (playlists : Playlists W) (uri_map : UriMap W) where
  -- `if not playlist: return`, else the tracks that are found go behind its own.
  unfoldable pub extend_playlist : Query → Option Playlist → K W Result
  unfolding get_tracks
  extend_playlist query none = pure nothing
  extend_playlist query (some playlist) = do
    results ← ask (searches.search query false)
    done
        (tell (playlists.save (record playlist { tracks = playlist.tracks ++ get_tracks results })))

  -- The playlist with the URI, or a new one where there is no URI.
  unfoldable pub named_playlist : Text → Option Text → K W (Option Playlist)
  named_playlist name none = playlists.create name none
  named_playlist name (some uri) =
      if is_empty uri then playlists.create name none else ask (playlists.lookup uri)

  unfoldable pub extend_named : Text → Query → K W Result
  unfolding named_playlist extend_playlist
  extend_named name query = do
    uri ← uri_map.playlist_uri_from_name name
    playlist ← named_playlist name uri
    extend_playlist query playlist

  unfoldable pub searchaddpl_tokens : List Text → K W Result
  unfolding query_for_search or_nothing extend_named
  searchaddpl_tokens [] = throw (mpd_error arg_error (codes "incorrect arguments") none)
  searchaddpl_tokens (playlist_name ∷ parameters) =
      or_nothing (query_for_search parameters) (extend_named playlist_name)

  unfoldable pub searchaddpl : List Arg → K W Result
  unfolding tokens searchaddpl_tokens
  searchaddpl arguments = searchaddpl_tokens (tokens arguments)
