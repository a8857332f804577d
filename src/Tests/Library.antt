-- ===== src/Tests/Library.antt =====
-- The commands of the library and of the stored playlists, at concrete inputs. The core is the list of
-- its tracks, and the one stored playlist has the same tracks.
use mopidy_mpd.Prelude.{
  ℕ, ◌≤◌, ◌≡◌, ◌≢◌, refl, inl, pos, Text, codes, true, false, Option, none, some, List, [], ◌∷◌,
  ◌++◌, All, arith,
}
use mopidy_mpd.Exceptions.{mpd_invalid_playlist_name_error}
use mopidy_mpd.Outcome.{ok, raised, diverged, ack}
use mopidy_mpd.Protocol.{Result, str_arg, int_arg}
use mopidy_mpd.CoreCommands.Core.{Ref, Playlist, Library, Playlists, UriMap, Query, K, pure}
use mopidy_mpd.CoreCommands.Context.{browse}
use mopidy_mpd.CoreCommands.Context.Ends.{browse-ends}
use mopidy_mpd.CoreCommands.Context.Costs.{Finite, cost_of}
use mopidy_mpd.CoreCommands.StoredPlaylists.{is_invalid_name, get_playlist}
use mopidy_mpd.CoreCommands.StoredPlaylists.Saving.{Setting}
use mopidy_mpd.CoreCommands.StoredPlaylists.Edits.{
  of_tl, playlistadd, playlistclear, playlistdelete, playlistmove, rename, rm, save,
}
use mopidy_mpd.CoreCommands.StoredPlaylists.Names.{invalid_name_lem}
use mopidy_mpd.CoreCommands.MusicDb.{query_for_search}
use mopidy_mpd.CoreCommands.MusicDb.Queries.{values_of, wanted, query_for_search-wanted}
use mopidy_mpd.Tests.Player.{Queue, queue_core, numbered}

abbrev pub setting : Setting
setting = record {
  default_playlist_scheme = codes "m3u";
  bad_netloc = λ place. false;
  in_set_order = λ schemes. schemes;
}

abbrev mix : Queue → Playlist
mix q = record { uri = some (codes "m3u:mix"); name = some (codes "mix"); tracks = of_tl q }

abbrev pub stored : Playlists Queue
stored = record {
  as_list = λ q. ok [];
  lookup = λ uri q. ok (some (mix q));
  create = λ name scheme q. (ok none, q);
  save = λ playlist q. (ok (some playlist), q);
  delete = λ uri q. (ok true, q);
}

abbrev pub names : UriMap Queue
names = record {
  insert = λ name uri q. (ok name, q);
  uri_from_name = λ name q. ok none;
  playlist_uri_from_name = λ name q. (ok (some (codes "m3u:mix")), q);
  playlist_name_from_uri = λ uri q. (ok (codes "mix"), q);
}

-- A directory with one track below the root.
abbrev entries : Option Text → List Ref
entries none = record { is_track = false; name = some (codes "a"); uri = some (codes "dir:a") } ∷ []
entries (some uri) =
    record { is_track = true; name = some (codes "b"); uri = some (codes "dummy:b") } ∷ []

abbrev pub shelf : Library Queue
shelf = record { browse = λ uri q. ok (entries uri); lookup = λ uris q. ok [] }

abbrev weight : Option Text → ℕ
weight none = 1
weight (some uri) = 0

smaller : (uri : Option Text) → cost_of weight (ok (entries uri)) ≤ weight uri
unfolding cost_of
smaller none = omega arith
smaller (some uri) = omega arith

finite : Finite shelf names weight
finite = record {
  browse_ends = λ uri w e. cc;
  insert_ends = λ name uri w e. cc;
  known_ends = λ name w e. cc;
  smaller = λ uri w. smaller uri;
}

abbrev gather : List Text → Text → Option Ref → K Queue (List Text)
gather paths path ref = pure (paths ++ (path ∷ []))

browse-ends_example :
    (n : ℕ) × ((fuel : ℕ)
      → n ≤ fuel
      → (browse shelf names true (λ uri ref w. ref) gather fuel (codes "/") [] []).0 ≢ diverged)
browse-ends_example =
    browse-ends shelf names weight true (λ uri ref w. ref) gather (codes "/") [] [] finite
      (λ kept path d w e. cc)

browsed :
    browse shelf names true (λ uri ref w. ref) gather 3 (codes "/") [] []
    ≡ (ok ([] ∷ codes "/a" ∷ codes "/a/b" ∷ []), [])
unfolding browse
browsed = refl

abbrev pub songs : Queue
songs = numbered 5 ∷ numbered 6 ∷ []

pub proper : is_invalid_name (codes "mix") ≡ false
unfolding is_invalid_name
proper = refl

found : (q : Queue) → get_playlist stored names (codes "mix") q ≡ (ok (some (mix q)), q)
unfolding get_playlist
found q = refl

invalid_name_lem_example :
    All
      (λ (run : K Queue Result). run songs ≡ (raised (ack mpd_invalid_playlist_name_error), songs))
      (playlistadd setting stored names shelf
          (str_arg (codes "a/b") ∷ str_arg (codes "dummy:a") ∷ [])
        ∷ playlistclear setting stored names (str_arg (codes "a/b") ∷ [])
        ∷ playlistdelete setting stored names (str_arg (codes "a/b") ∷ int_arg (pos 0) ∷ [])
        ∷ playlistmove setting stored names
            (str_arg (codes "a/b") ∷ int_arg (pos 0) ∷ int_arg (pos 1) ∷ [])
        ∷ rename setting stored names (str_arg (codes "a/b") ∷ str_arg (codes "mix") ∷ [])
        ∷ rename setting stored names (str_arg (codes "mix") ∷ str_arg (codes "a/b") ∷ [])
        ∷ rm setting stored names (str_arg (codes "a/b") ∷ [])
        ∷ save setting stored names queue_core (str_arg (codes "a/b") ∷ [])
        ∷ [])
invalid_name_lem_example =
    invalid_name_lem setting stored names shelf queue_core (codes "a") (codes "b") (codes "mix")
      (codes "dummy:a") b'/' 0 1 songs (inl refl) refl proper

abbrev asked : List Text
asked = codes "Artist" ∷ codes "Foo" ∷ codes "date" ∷ codes "  " ∷ codes "ARTIST" ∷ codes "Bar" ∷ []

abbrev answered : Query
answered = (codes "artist", codes "Foo" ∷ codes "Bar" ∷ []) ∷ []

understood : query_for_search asked ≡ ok answered
unfolding query_for_search
understood = refl

query_for_search-wanted_example :
    values_of (codes "artist") answered
    ≡ wanted (codes "artist") (
        (codes "Artist", codes "Foo")
        ∷ (codes "date", codes "  ")
        ∷ (codes "ARTIST", codes "Bar")
        ∷ [])
query_for_search-wanted_example =
    query_for_search-wanted
      ((codes "Artist", codes "Foo")
        ∷ (codes "date", codes "  ")
        ∷ (codes "ARTIST", codes "Bar")
        ∷ [])
      answered (codes "artist") understood
