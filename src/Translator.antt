-- ===== src/Translator.antt =====
-- src/mopidy_mpd/translator.py: tracks as the tags that a client has enabled.
-- Of Mopidy's models, the records have the fields that the code reads; a set of artists is a list in
-- the order in which Python iterates it, and a MusicBrainz identifier is its text.
pub mod Windows
pub mod Dates
use mopidy_mpd.Prelude.{
  ℕ, zero, suc, ◌+◌, ◌-◌, ◌*◌, ◌/◌, ◌%◌, Text, codes, ℤ, pos, eq_int, Bool, true, false, not, ◌&&◌,
  Option, none, some, List, [], ◌∷◌, ◌++◌, ◌==◌, ltb, if◌then◌else◌, is_empty, length, take, drop,
  join, contains, show_nat,
}
use mopidy_mpd.Outcome.{Outcome, ok, raised, other_error}
use mopidy_mpd.Protocol.{Value, str, int}
use mopidy_mpd.Commands.Connection.{tagtype_list}
use mopidy_mpd.Translator.Dates.{iso_format}

pub record Artist : Type 0 where
  pub uri : Option Text
  pub name : Option Text
  pub musicbrainz_id : Option Text

pub record Album : Type 0 where
  pub name : Option Text
  pub uri : Option Text
  pub artists : List Artist
  pub num_tracks : Option ℕ
  pub date : Option Text
  pub musicbrainz_id : Option Text

pub record Track : Type 0 where
  pub uri : Option Text
  pub name : Option Text
  pub artists : List Artist
  pub album : Option Album
  pub composers : List Artist
  pub performers : List Artist
  pub genre : Option Text
  pub date : Option Text
  pub length_ms : Option ℕ
  pub track_no : Option ℕ
  pub disc_no : Option ℕ
  pub bitrate : Option ℕ
  pub last_modified : Option ℕ
  pub musicbrainz_id : Option Text

-- A `TlTrack`, or a `Track` with no identifier in the tracklist.
pub record Obj : Type 0 where
  pub tlid : Option ℕ
  pub track : Track

abbrev pub Tag : Type 0
Tag = Text × Value

-- `x or ""`, and `x or 0`
unfoldable pub or_empty : Option Text → Text
or_empty none = []
or_empty (some t) = t

unfoldable pub or_zero : Option ℕ → ℕ
or_zero none = 0
or_zero (some n) = n

-- `if x: result.append((tag, x))`
unfoldable pub if_text : Text → Option Text → List Tag
if_text tag none = []
if_text tag (some t) = if is_empty t then [] else (tag, str t) ∷ []

-- `if x is not None: result.append((tag, str(x)))`
unfoldable pub if_some : Text → Option Text → List Tag
if_some tag none = []
if_some tag (some t) = (tag, str t) ∷ []

unfoldable pub texts_of_artists : (Artist → Option Text) → List Artist → List Text
texts_of_artists attribute [] = []
texts_of_artists attribute (a ∷ rest) = elim (attribute a) [
  | none ↦ texts_of_artists attribute rest
  | some t ↦ t ∷ texts_of_artists attribute rest
]

-- `concat_multi_values`
unfoldable pub concat_multi_values : (Artist → Option Text) → List Artist → Text
unfolding texts_of_artists join
concat_multi_values attribute artists = join (codes ";") (texts_of_artists attribute artists)

unfoldable pub tag_all : Text → List Text → List Tag
tag_all tag [] = []
tag_all tag (t ∷ ts) = (tag, str t) ∷ tag_all tag ts

-- `multi_tag_list`
unfoldable pub multi_tag_list : Text → (Artist → Option Text) → List Artist → List Tag
unfolding tag_all texts_of_artists
multi_tag_list tag attribute artists = tag_all tag (texts_of_artists attribute artists)

-- The identifiers of artists under one tag, where there are any.
unfoldable pub ids_tag : Text → List Artist → List Tag
unfolding if_text concat_multi_values
ids_tag tag artists = if_text tag (some (concat_multi_values (λ a. a.musicbrainz_id) artists))

-- The tags `Title` and `Name`; a stream's title goes before the track's name
unfoldable pub title_tags : Option Text → Option Text → List Tag
unfolding or_empty if_text
title_tags none name = (codes "Title", str (or_empty name)) ∷ []
title_tags (some title) name = (codes "Title", str title) ∷ if_text (codes "Name") name

abbrev pub album_and {ℓ} : {A : Type ℓ} → (Album → Option A) → Option Album → Option A
album_and f none = none
album_and f (some album) = f album

-- The tag `Track`: `n/total` where the album says how many tracks it has
unfoldable pub track_tag : ℕ → Option ℕ → List Tag
unfolding show_nat
track_tag n none = (codes "Track", int (pos n)) ∷ []
track_tag n (some total) = (codes "Track", str (show_nat n ++ (codes "/" ++ show_nat total))) ∷ []

unfoldable pub position_tags : Option ℕ → Option ℕ → List Tag
position_tags (some position) (some tlid) =
    (codes "Pos", int (pos position)) ∷ (codes "Id", int (pos tlid)) ∷ []
position_tags _ _ = []

unfoldable pub album_artist_tags : Option Album → List Tag
unfolding multi_tag_list ids_tag
album_artist_tags none = []
album_artist_tags (some album) =
    multi_tag_list (codes "AlbumArtist") (λ a. a.name) album.artists
    ++ ids_tag (codes "MUSICBRAINZ_ALBUMARTISTID") album.artists

-- `if n: result.append((tag, n))`
unfoldable pub if_number : Text → Option ℕ → List Tag
if_number tag none = []
if_number tag (some n) = if n == 0 then [] else (tag, int (pos n)) ∷ []

unfoldable pub modified_tag : Option ℕ → List Tag
unfolding iso_format
modified_tag none = []
modified_tag (some ms) =
    if ms == 0 then [] else (codes "Last-Modified", str (iso_format (ms / 1000) ++ codes "Z")) ∷ []

-- The tags of `track_to_mpd_format`, before those that the client has not enabled are left out.
unfoldable pub all_tags : Text → Obj → Option ℕ → Option Text → List Tag
unfolding multi_tag_list or_empty or_zero title_tags if_text track_tag position_tags if_some
    album_artist_tags ids_tag if_number modified_tag
all_tags uri obj position stream_title =
    let t = obj.track in
    ((codes "file", str uri) ∷ (codes "Time", int (pos (or_zero t.length_ms / 1000))) ∷ [])
    ++ (multi_tag_list (codes "Artist") (λ a. a.name) t.artists
        ++ ((codes "Album", str (or_empty (album_and (λ a. a.name) t.album))) ∷ [])
        ++ title_tags stream_title t.name
        ++ if_text (codes "Date") t.date
        ++ track_tag (or_zero t.track_no) (album_and (λ a. a.num_tracks) t.album)
        ++ position_tags position obj.tlid
        ++ if_some (codes "MUSICBRAINZ_ALBUMID") (album_and (λ a. a.musicbrainz_id) t.album)
        ++ album_artist_tags t.album
        ++ ids_tag (codes "MUSICBRAINZ_ARTISTID") t.artists
        ++ multi_tag_list (codes "Composer") (λ a. a.name) t.composers
        ++ multi_tag_list (codes "Performer") (λ a. a.name) t.performers
        ++ if_text (codes "Genre") t.genre
        ++ if_number (codes "Disc") t.disc_no
        ++ modified_tag t.last_modified
        ++ if_some (codes "MUSICBRAINZ_TRACKID") t.musicbrainz_id
        ++ if_text (codes "X-AlbumUri") (album_and (λ a. a.uri) t.album))

unfoldable pub truthy : Value → Bool
truthy (str t) = not (is_empty t)
truthy (int n) = not (eq_int n (pos 0))

-- `_has_value`
unfoldable pub has_value : List Text → Tag → Bool
unfolding contains truthy
has_value tagtypes (tag, value) =
    if contains tagtype_list tag
    then (if contains tagtypes tag then truthy value else false)
    else true

unfoldable pub enabled : List Text → List Tag → List Tag
unfolding has_value
enabled tagtypes [] = []
enabled tagtypes (t ∷ ts) =
    let rest = enabled tagtypes ts in if has_value tagtypes t then t ∷ rest else rest

unfoldable pub tags_of : Option Text → Obj → List Text → Option ℕ → Option Text → List Tag
unfolding enabled all_tags
tags_of none obj tagtypes position stream_title = []
tags_of (some uri) obj tagtypes position stream_title =
    if is_empty uri then [] else enabled tagtypes (all_tags uri obj position stream_title)

-- `track_to_mpd_format`
unfoldable pub track_to_mpd_format : Obj → List Text → Option ℕ → Option Text → List Tag
unfolding tags_of
track_to_mpd_format obj = tags_of obj.track.uri obj

-- The loop of `tracks_to_mpd_format`.
unfoldable pub format_from : ℕ → List Obj → List Text → List Tag
unfolding track_to_mpd_format
format_from position [] tagtypes = []
format_from position (t ∷ ts) tagtypes =
    track_to_mpd_format t tagtypes (some position) none ++ format_from (position + 1) ts tagtypes

abbrev pub end_or : ℕ → Option ℕ → ℕ
end_or n none = n
end_or n (some stop) = stop

-- `tracks_to_mpd_format`: an end behind the last track fails the assertion, unless there is nothing
-- to format.
unfoldable pub tracks_to_mpd_format : List Obj → List Text → ℕ → Option ℕ → Outcome (List Tag)
unfolding format_from
tracks_to_mpd_format tracks tagtypes start stop =
    let last = end_or (length tracks) stop in
    let chosen = take (last - start) (drop start tracks) in
    if length chosen == (last - start)
    then ok (format_from start chosen tagtypes)
    else raised (other_error (codes "AssertionError"))

-- `playlist_to_mpd_format` with the default start and end
unfoldable pub playlist_to_mpd_format : List Obj → List Text → Outcome (List Tag)
unfolding tracks_to_mpd_format
playlist_to_mpd_format tracks tagtypes = tracks_to_mpd_format tracks tagtypes 0 none
