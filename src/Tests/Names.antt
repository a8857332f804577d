-- ===== src/Tests/Names.antt =====
-- The URI mapper at concrete inputs.
use mopidy_mpd.Prelude.{Option, Text, [], codes, ◌≡◌, ◌≢◌, refl, false, none, some, ◌∷◌, text_eq}
use mopidy_mpd.Outcome.{Outcome, ok, diverged}
use mopidy_mpd.UriMapper.{
  Uri, UriMapper, register, insert, create_unique_name, playlist_uri_from_name,
  playlist_name_from_uri,
}
use mopidy_mpd.UriMapper.Ends.{create_unique_name-total}
use mopidy_mpd.UriMapper.Names.{Extends, insert-Extends}
use mopidy_mpd.UriMapper.Back.{
  Reached, fresh, inserted, ReadsBack, playlist_name_from_uri-ReadsBack,
}

-- A mapper in which the first name is taken.
abbrev one_name : UriMapper
one_name = record {
  playlists = some (record { name = some (codes "a/b"); uri = some (codes "m3u:ab") } ∷ []);
  names = (codes "Radio", some (codes "dummy:1")) ∷ [];
  browse_names = [];
  playlist_names = [];
}

second_name :
    insert (codes "Radio") (some (codes "dummy:2")) false one_name
    ≡ ok (codes "Radio [2]", register false (some (codes "dummy:2")) (codes "Radio [2]") one_name)
unfolding insert text_eq
second_name = refl

abbrev two_names : UriMapper
two_names = register false (some (codes "dummy:2")) (codes "Radio [2]") one_name

insert-Extends_example : Extends one_name.names two_names.names
insert-Extends_example =
    insert-Extends (codes "Radio") (some (codes "dummy:2")) false one_name (codes "Radio [2]")
      two_names second_name

create_unique_name-total_example :
    create_unique_name (codes "Radio") (some (codes "dummy:2")) one_name ≢ diverged
create_unique_name-total_example =
    create_unique_name-total (codes "Radio") (some (codes "dummy:2")) one_name

abbrev uri_of : Outcome (Uri × UriMapper) → Uri
uri_of (ok (uri, m)) = uri
uri_of _ = none

finds_playlist : uri_of (playlist_uri_from_name (codes "a|b") one_name) ≡ some (codes "m3u:ab")
unfolding playlist_uri_from_name text_eq
finds_playlist = refl

-- A mapper in which a directory has the name of a playlist of the core.
abbrev new_mapper : UriMapper
new_mapper = record {
  playlists = some (record { name = some (codes "a/b"); uri = some (codes "m3u:ab") } ∷ []);
  names = [];
  browse_names = [];
  playlist_names = [];
}

abbrev one_directory : UriMapper
one_directory = register false (some (codes "dir:ab")) (codes "a|b") new_mapper

one_directory-Reached : Reached one_directory
unfolding insert
one_directory-Reached =
    inserted new_mapper (codes "a|b") (some (codes "dir:ab")) false (codes "a|b") one_directory
      (fresh (some (record { name = some (codes "a/b"); uri = some (codes "m3u:ab") } ∷ []))) refl

playlist_name_from_uri-ReadsBack_example :
    ReadsBack (some (codes "m3u:ab")) (playlist_name_from_uri (some (codes "m3u:ab")) one_directory)
playlist_name_from_uri-ReadsBack_example =
    playlist_name_from_uri-ReadsBack (some (codes "m3u:ab")) one_directory one_directory-Reached

abbrev name_of : Outcome (Text × UriMapper) → Option Text
name_of (ok (name, m)) = some name
name_of _ = none

names_playlist :
    name_of (playlist_name_from_uri (some (codes "m3u:ab")) one_directory) ≡ some (codes "a|b [2]")
unfolding playlist_name_from_uri text_eq
names_playlist = refl
