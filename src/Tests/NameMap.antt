-- ===== src/Tests/NameMap.antt =====
-- The mapper beside a core that lists one playlist, at concrete inputs.
use mopidy_mpd.Prelude.{codes, ◌≡◌, refl, true, false, none, some, List, [], ◌∷◌, text_eq}
use mopidy_mpd.Outcome.{Outcome, ok}
use mopidy_mpd.UriMapper.{UriMapper}
use mopidy_mpd.UriMapper.Back.{fresh}
use mopidy_mpd.CoreCommands.Core.{Ref, Playlist, Playlists}
use mopidy_mpd.CoreCommands.NameMap.{mapped, Finds, playlist_name-Finds}
use mopidy_mpd.Tests.Player.{Queue, numbered}
use mopidy_mpd.CoreCommands.StoredPlaylists.{get_playlist}

abbrev new_mapper : UriMapper
new_mapper = record { playlists = none; names = []; browse_names = []; playlist_names = [] }

abbrev list_of : Queue → Outcome (List Ref)
list_of q =
    ok (record { is_track = false; name = some (codes "a/b"); uri = some (codes "m3u:ab") } ∷ [])

abbrev playlist : Playlist
playlist = record { uri = some (codes "m3u:ab"); name = some (codes "a/b"); tracks = [] }

abbrev shelf : Playlists (UriMapper × Queue)
shelf = record {
  as_list = λ w. list_of w.1;
  lookup = λ uri w. ok (some playlist);
  create = λ name scheme w. (ok none, w);
  save = λ changed w. (ok (some changed), w);
  delete = λ uri w. (ok true, w);
}

playlist_name-Finds_example :
    Finds list_of shelf (some (codes "m3u:ab")) (
      (mapped list_of).playlist_name_from_uri (some (codes "m3u:ab")) (new_mapper, numbered 5 ∷ []))
playlist_name-Finds_example =
    playlist_name-Finds list_of shelf (some (codes "m3u:ab")) new_mapper (numbered 5 ∷ []) _
      (fresh none) refl

-- The name of a playlist with a slash.
finds_playlist :
    (get_playlist shelf (mapped list_of) (codes "a|b") (new_mapper, [])).0 ≡ ok (some playlist)
unfolding get_playlist mapped text_eq
finds_playlist = refl
