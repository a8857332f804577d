-- ===== src/Tests/Saved.antt =====
-- A playlist that is saved and loaded. The core is the stored playlists, by their URIs.
use mopidy_mpd.Prelude.{
  Text, codes, ◌≡◌, refl, Option, none, some, List, [], ◌∷◌, if◌then◌else◌, text_eq, ap, true,
  false,
}
use mopidy_mpd.Outcome.{ok}
use mopidy_mpd.Protocol.{nothing, str_arg, slice_arg}
use mopidy_mpd.CoreCommands.Core.{TlTrack, Playlist, Playlists, UriMap, Tracklist, K, done}
use mopidy_mpd.CoreCommands.StoredPlaylists.{load}
use mopidy_mpd.CoreCommands.StoredPlaylists.Edits.{of_tl, save}
use mopidy_mpd.CoreCommands.StoredPlaylists.SaveLoad.{StoreLaws, load-save}
use mopidy_mpd.Tests.Library.{setting, proper}
use mopidy_mpd.Tests.Tracks.{a_track}

abbrev Store : Type 0
Store = Text → Option Playlist

abbrev put_in : Text → Playlist → Store → Store
put_in uri playlist store other = if text_eq other uri then some playlist else store other

abbrev save_in : Option Text → Playlist → K Store (Option Playlist)
save_in none playlist store = (ok none, store)
save_in (some uri) playlist store = (ok (some playlist), put_in uri playlist store)

abbrev kept : Playlists Store
kept = record {
  as_list = λ w. ok [];
  lookup = λ uri w. ok (w uri);
  create = λ name scheme w. (ok none, w);
  save = λ playlist w. save_in playlist.uri playlist w;
  delete = λ uri w. (ok true, w);
}

abbrev mix_uri : Text → Option Text
mix_uri name = some (codes "m3u:mix")

abbrev named_mix : UriMap Store
named_mix = record {
  insert = λ name uri w. (ok name, w);
  uri_from_name = λ name w. ok none;
  playlist_uri_from_name = λ name w. (ok (mix_uri name), w);
  playlist_name_from_uri = λ uri w. (ok (codes "mix"), w);
}

abbrev songs : List TlTrack
songs =
    record { tlid = 5; track = (a_track (codes "dummy:a")).track }
    ∷ record { tlid = 6; track = (a_track (codes "dummy:b")).track }
    ∷ []

-- A tracklist that shows two songs, whatever is done.
abbrev shown : Tracklist Store
shown = record {
  get_tl_tracks = λ w. ok songs;
  get_length = λ w. ok 2;
  get_version = λ w. ok 1;
  get_next_tlid = λ w. ok none;
  get_consume = λ w. ok false;
  get_random = λ w. ok false;
  get_repeat = λ w. ok false;
  get_single = λ w. ok false;
  slice = λ start stop w. ok songs;
  filter_tlid = λ tlid w. ok [];
  filter_uri = λ uri w. ok [];
  index = λ track w. ok none;
  index_tlid = λ tlid w. ok none;
  add = λ uris at w. (ok songs, w);
  remove = λ tlids w. (ok [], w);
  clear = λ w. (ok tt, w);
  move = λ start stop to w. (ok tt, w);
  shuffle = λ start stop w. (ok tt, w);
  set_consume = λ b w. (ok tt, w);
  set_random = λ b w. (ok tt, w);
  set_repeat = λ b w. (ok tt, w);
  set_single = λ b w. (ok tt, w);
}

abbrev stored_at : Store → Text → Option Playlist
stored_at w = w

kept-StoreLaws : StoreLaws kept named_mix stored_at mix_uri
kept-StoreLaws = record {
  lookup_lem = λ uri w. refl;
  save_lem = λ playlist uri w e.
      (put_in uri playlist w, ap (λ (o : Option Text). save_in o playlist w) e, λ other. refl);
  name_lem = λ name w. (w, refl, λ other. refl);
}

-- The playlist before it is saved, without tracks.
abbrev empty_mix : Playlist
empty_mix = record { uri = some (codes "m3u:mix"); name = some (codes "mix"); tracks = [] }

abbrev before : Store
before uri = some empty_mix

load-save_example :
    (w2 w3 : Store) × (save setting kept named_mix shown (str_arg (codes "mix") ∷ []) before
      ≡ (ok nothing, w2))
    × (load kept named_mix shown
          (str_arg (codes "mix") ∷ slice_arg (record { start = 0; stop = none }) ∷ [])
          w2
        ≡ done (shown.add (codes "dummy:a" ∷ codes "dummy:b" ∷ []) none) w3)
    × ((other : Text)
        → stored_at w3 other ≡ (
            if text_eq other (codes "m3u:mix")
            then some (record empty_mix { tracks = of_tl songs })
            else stored_at before other))
load-save_example =
    load-save setting shown kept named_mix stored_at mix_uri (codes "mix") (codes "m3u:mix") songs
      (codes "dummy:a" ∷ codes "dummy:b" ∷ []) empty_mix before kept-StoreLaws proper refl refl refl
      refl refl (refl, (refl, tt))
