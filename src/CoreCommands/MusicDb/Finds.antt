-- ===== src/CoreCommands/MusicDb/Finds.antt =====
-- src/mopidy_mpd/protocol/music_db.py: the commands that search the library.
use mopidy_mpd.Prelude.{
  ℕ, ◌+◌, pos, Text, codes, Bool, true, false, not, ◌&&◌, Option, none, some, List, [], ◌∷◌, ◌++◌,
  if◌then◌else◌, is_empty, map, text_eq, get, length,
}
use mopidy_mpd.Exceptions.{mpd_error, arg_error}
use mopidy_mpd.Outcome.{Outcome, ok, raised, diverged, ack, value_error, other_error}
use mopidy_mpd.Convert.Signed.{strip}
use mopidy_mpd.Convert.Float.{nearest, truncate}
use mopidy_mpd.Protocol.{Value, int, Result, nothing, incorrect_arguments, Arg, str_arg}
use mopidy_mpd.Translator.{Track, Tag, tracks_to_mpd_format}
use mopidy_mpd.CoreCommands.Core.{
  Query, SearchResult, Searches, Tracklist, K, pure, throw, ask, lift, done, ◌>>=◌,
}
use mopidy_mpd.CoreCommands.CurrentPlaylist.{tags_result}
use mopidy_mpd.CoreCommands.StoredPlaylists.{objs, track_uris}
use mopidy_mpd.CoreCommands.MusicDb.{
  list_mapping, list_name_mapping, lowered, query_for_search, get_albums, get_artists, get_tracks,
  album_as_track, artist_as_track,
}

-- The tokens of a call of a function that takes any number of them.
unfoldable pub tokens : List Arg → List Text
tokens (str_arg t ∷ arguments) = t ∷ tokens arguments
tokens _ = []

-- `sum(t.length for t in result_tracks if t.length)`
unfoldable pub total_length : List Track → ℕ
total_length [] = 0
total_length (t ∷ ts) = elim t.length_ms [ none ↦ total_length ts | some n ↦ n + total_length ts ]

abbrev has_field : Query → Text → Bool
has_field query field = elim (get text_eq field query) [ none ↦ false | some _ ↦ true ]

-- The tracks of `find`: artists and albums only where the query does not name one.
unfoldable pub found_tracks : Query → List SearchResult → List Track
unfolding get_artists get_albums get_tracks artist_as_track album_as_track get text_eq
found_tracks query results =
    (if not (has_field query (codes "artist"))
        && (not (has_field query (codes "albumartist"))
            && (not (has_field query (codes "composer"))
                && not (has_field query (codes "performer"))))
      then map artist_as_track (get_artists results)
      else [])
    ++ ((if not (has_field query (codes "album"))
          then map album_as_track (get_albums results)
          else [])
        ++ get_tracks results)

-- The tracks of `search`
unfoldable pub searched_tracks : List SearchResult → List Track
unfolding get_artists get_albums get_tracks artist_as_track album_as_track
searched_tracks results =
    map artist_as_track (get_artists results)
    ++ (map album_as_track (get_albums results) ++ get_tracks results)

unfoldable pub value_tags : Text → List Value → List Tag
value_tags name [] = []
value_tags name (value ∷ values) = (name, value) ∷ value_tags name values

-- `_LIST_NAME_MAPPING[field]`
unfoldable pub name_of : Text → Outcome Text
unfolding list_name_mapping get text_eq
name_of field = elim (get text_eq field list_name_mapping) [
  | none ↦ raised (other_error (codes "KeyError"))
  | some name ↦ ok name
]

-- `except MpdArgError as exc: exc.message = "Unknown filter type"`, and `except ValueError`.
unfoldable pub filter_query : Outcome Query → Outcome (Option Query)
filter_query (ok query) = ok (some query)
filter_query (raised (ack e)) = raised (ack (record e { message = codes "Unknown filter type" }))
filter_query (raised value_error) = ok none
filter_query (raised e) = raised e
filter_query diverged = diverged

module _ {W : Type 0} where
  -- `except ValueError: return None`
  unfoldable pub or_nothing : Outcome Query → (Query → K W Result) → K W Result
  or_nothing (ok query) run = run query
  or_nothing (raised value_error) run = pure nothing
  or_nothing (raised e) run = lift (raised e)
  or_nothing diverged run = lift diverged

module _ {W : Type 0} (searches : Searches W) where
  unfoldable pub count : List Arg → K W Result
  unfolding tokens query_for_search get_tracks total_length nearest truncate incorrect_arguments
  count arguments = do
    query ← lift (incorrect_arguments (query_for_search (tokens arguments)))
    results ← ask (searches.search query true)
    playtime ← lift (truncate (nearest false (total_length (get_tracks results)) 1000))
    pure (
        tags_result (
          (codes "songs", int (pos (length (get_tracks results))))
          ∷ (codes "playtime", int playtime)
          ∷ []))

  unfoldable pub show_found : List Text → List Track → K W Result
  unfolding tracks_to_mpd_format
  show_found tagtypes tracks = do
    tags ← lift (tracks_to_mpd_format (objs tracks) tagtypes 0 none)
    pure (tags_result tags)

  unfoldable pub find_query : List Text → Query → K W Result
  unfolding show_found found_tracks
  find_query tagtypes query = do
    results ← ask (searches.search query true)
    show_found tagtypes (found_tracks query results)

  unfoldable pub find : List Text → List Arg → K W Result
  unfolding tokens query_for_search or_nothing find_query
  find tagtypes arguments = or_nothing (query_for_search (tokens arguments)) (find_query tagtypes)

  unfoldable pub search_query : List Text → Query → K W Result
  unfolding show_found searched_tracks
  search_query tagtypes query = do
    results ← ask (searches.search query false)
    show_found tagtypes (searched_tracks results)

  unfoldable pub search : List Text → List Arg → K W Result
  unfolding tokens query_for_search or_nothing search_query
  search tagtypes arguments =
      or_nothing (query_for_search (tokens arguments)) (search_query tagtypes)

  unfoldable pub add_found : Tracklist W → Bool → Query → K W Result
  unfolding get_tracks track_uris
  add_found tracklist exact query = do
    results ← ask (searches.search query exact)
    done (tracklist.add (track_uris (get_tracks results)) none)

  unfoldable pub findadd : Tracklist W → List Arg → K W Result
  unfolding tokens query_for_search or_nothing add_found
  findadd tracklist arguments =
      or_nothing (query_for_search (tokens arguments)) (add_found tracklist true)

  unfoldable pub searchadd : Tracklist W → List Arg → K W Result
  unfolding tokens query_for_search or_nothing add_found
  searchadd tracklist arguments =
      or_nothing (query_for_search (tokens arguments)) (add_found tracklist false)

  -- The query of `list`: one parameter is an artist, more are a query; nothing for the answer `None`.
  unfoldable pub list_query : Text → List Text → Outcome (Option (Option Query))
  unfolding query_for_search filter_query strip text_eq
  list_query field (artist ∷ []) =
      if not (text_eq field (codes "album"))
      then raised (ack (mpd_error arg_error (codes "should be \"Album\" for 3 arguments") none))
      else if is_empty (strip artist)
      then ok (some none)
      else ok (some (some ((codes "artist", artist ∷ []) ∷ [])))
  list_query field parameters = elim (filter_query (query_for_search parameters)) [
    | ok none ↦ ok none
    | ok (some query) ↦ ok (some (some query))
    | raised e ↦ raised e
    | diverged ↦ diverged
  ]

  unfoldable pub list_named : Text → Option (Option Query) → K W Result
  unfolding value_tags name_of
  list_named field none = pure nothing
  list_named field (some query) = do
    name ← lift (name_of field)
    values ← ask (searches.get_distinct field query)
    pure (tags_result (value_tags name values))

  unfoldable pub list_field : Text → List Text → Option Text → K W Result
  unfolding list_query list_named
  list_field field_arg params none =
      throw (mpd_error arg_error (codes "Unknown tag type: " ++ field_arg) none)
  list_field field_arg params (some field) = do
    query ← lift (list_query field params)
    list_named field query

  unfoldable pub list_tokens : List Text → K W Result
  unfolding list_field list_mapping lowered get text_eq
  list_tokens [] = throw (mpd_error arg_error (codes "too few arguments for \"list\"") none)
  list_tokens (field_arg ∷ params) =
      list_field field_arg params (get text_eq (lowered field_arg) list_mapping)

  unfoldable pub list_ : List Arg → K W Result
  unfolding tokens list_tokens
  list_ arguments = list_tokens (tokens arguments)
