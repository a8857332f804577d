-- ===== src/CoreCommands/MusicDb.antt =====
-- src/mopidy_mpd/protocol/music_db.py: the query that a command line spells, and results as tracks.
pub mod Queries
pub mod Finds
pub mod Listings
use mopidy_mpd.Prelude.{
  ℕ, ◌+◌, Text, codes, Bool, true, false, ◌&&◌, Option, none, some, List, [], ◌∷◌, ◌++◌, ◌==◌, leb,
  if◌then◌else◌, is_empty, map, text_eq, get,
}
use mopidy_mpd.Exceptions.{mpd_error, arg_error}
use mopidy_mpd.Outcome.{Outcome, ok, raised, ack, value_error}
use mopidy_mpd.Convert.Signed.{strip}
use mopidy_mpd.Translator.{Artist, Album, Track}
use mopidy_mpd.CoreCommands.Core.{Query, SearchResult}

-- `_LIST_MAPPING`
unfoldable pub list_mapping : List (Text × Text)
list_mapping =
    (codes "album", codes "album")
    ∷ (codes "albumartist", codes "albumartist")
    ∷ (codes "artist", codes "artist")
    ∷ (codes "comment", codes "comment")
    ∷ (codes "composer", codes "composer")
    ∷ (codes "date", codes "date")
    ∷ (codes "disc", codes "disc_no")
    ∷ (codes "file", codes "uri")
    ∷ (codes "filename", codes "uri")
    ∷ (codes "genre", codes "genre")
    ∷ (codes "musicbrainz_albumid", codes "musicbrainz_albumid")
    ∷ (codes "musicbrainz_artistid", codes "musicbrainz_artistid")
    ∷ (codes "musicbrainz_trackid", codes "musicbrainz_trackid")
    ∷ (codes "performer", codes "performer")
    ∷ (codes "title", codes "track_name")
    ∷ (codes "track", codes "track_no")
    ∷ []

-- `_LIST_NAME_MAPPING`
unfoldable pub list_name_mapping : List (Text × Text)
list_name_mapping =
    (codes "album", codes "Album")
    ∷ (codes "albumartist", codes "AlbumArtist")
    ∷ (codes "artist", codes "Artist")
    ∷ (codes "comment", codes "Comment")
    ∷ (codes "composer", codes "Composer")
    ∷ (codes "date", codes "Date")
    ∷ (codes "disc_no", codes "Disc")
    ∷ (codes "genre", codes "Genre")
    ∷ (codes "performer", codes "Performer")
    ∷ (codes "musicbrainz_albumid", codes "MUSICBRAINZ_ALBUMID")
    ∷ (codes "musicbrainz_artistid", codes "MUSICBRAINZ_ARTISTID")
    ∷ (codes "musicbrainz_trackid", codes "MUSICBRAINZ_TRACKID")
    ∷ (codes "track_name", codes "Title")
    ∷ (codes "track_no", codes "Track")
    ∷ (codes "uri", codes "file")
    ∷ []

-- `_SEARCH_MAPPING`
unfoldable pub search_mapping : List (Text × Text)
unfolding list_mapping
search_mapping = list_mapping ++ ((codes "any", codes "any") ∷ [])

-- `str.lower`, as far as a text of ASCII letters can come out of it: the Kelvin sign becomes a k.
unfoldable pub lower_char : ℕ → ℕ
lower_char c = if leb b'A' c && leb c b'Z' then c + 32 else if c == 0x212a then b'k' else c

unfoldable pub lowered : Text → Text
unfolding lower_char
lowered = map lower_char

-- `query.setdefault(field, []).append(value)`
unfoldable pub append_value : Text → Text → Query → Query
unfolding text_eq
append_value field value [] = (field, value ∷ []) ∷ []
append_value field value ((key, values) ∷ query) =
    let rest = append_value field value query in
    if text_eq key field then (key, values ++ (value ∷ [])) ∷ query else (key, values) ∷ rest

-- A value of spaces only is not looked for.
unfoldable pub add_value : Text → Text → Query → Query
unfolding append_value strip
add_value field value query =
    if is_empty (strip value) then query else append_value field value query

-- The loop of `_query_for_search`, on the query so far.
unfoldable pub query_from : Query → List Text → Outcome Query
unfolding search_mapping lowered get text_eq add_value
query_from query [] = ok query
query_from query (name ∷ []) = elim (get text_eq (lowered name) search_mapping) [
  | none ↦ raised (ack (mpd_error arg_error (codes "incorrect arguments") none))
  | some field ↦ raised value_error
]
query_from query (name ∷ value ∷ parameters) = elim (get text_eq (lowered name) search_mapping) [
  | none ↦ raised (ack (mpd_error arg_error (codes "incorrect arguments") none))
  | some field ↦ query_from (add_value field value query) parameters
]

-- `_query_for_search`
unfoldable pub query_for_search : List Text → Outcome Query
unfolding query_from
query_for_search = query_from []

-- `_get_albums`, `_get_artists` and `_get_tracks`
unfoldable pub get_albums : List SearchResult → List Album
get_albums [] = []
get_albums (r ∷ rs) = r.albums ++ get_albums rs

unfoldable pub get_artists : List SearchResult → List Artist
get_artists [] = []
get_artists (r ∷ rs) = r.artists ++ get_artists rs

unfoldable pub get_tracks : List SearchResult → List Track
get_tracks [] = []
get_tracks (r ∷ rs) = r.tracks ++ get_tracks rs

-- `prefix + name if name else None`
unfoldable pub prefixed : Text → Option Text → Option Text
prefixed prefix none = none
prefixed prefix (some name) = if is_empty name then none else some (prefix ++ name)

-- A `Track` with the defaults of its other fields.
abbrev track_with : Option Text → Option Text → List Artist → Option Album → Option Text → Track
track_with uri name artists album date = record {
  uri = uri;
  name = name;
  artists = artists;
  album = album;
  composers = [];
  performers = [];
  genre = none;
  date = date;
  length_ms = none;
  track_no = none;
  disc_no = none;
  bitrate = none;
  last_modified = none;
  musicbrainz_id = none;
}

-- `_album_as_track`
unfoldable pub album_as_track : Album → Track
unfolding prefixed
album_as_track album =
    track_with album.uri (prefixed (codes "Album: ") album.name) album.artists (some album)
      album.date

-- `_artist_as_track`
unfoldable pub artist_as_track : Artist → Track
unfolding prefixed
artist_as_track artist =
    track_with artist.uri (prefixed (codes "Artist: ") artist.name) (artist ∷ []) none none
