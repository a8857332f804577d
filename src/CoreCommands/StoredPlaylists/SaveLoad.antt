-- ===== src/CoreCommands/StoredPlaylists/SaveLoad.antt =====
-- src/mopidy_mpd/protocol/stored_playlists.py: `load` behind `save`.
use mopidy_mpd.Prelude.{
  ◌-◌, ◌≡◌, refl, ap, ◌∙◌, Text, text_eq, text_eq_refl, is_empty, if◌then◌else◌, false, Option,
  none, some, List, [], ◌∷◌, length, arith,
}
use mopidy_mpd.Outcome.{Outcome, ok}
use mopidy_mpd.Protocol.{nothing, str_arg, slice_arg}
use mopidy_mpd.Translator.{Track}
use mopidy_mpd.CoreCommands.Core.{
  Playlist, Playlists, UriMap, Tracklist, TlTrack, continue, continue-ok, done,
}
use mopidy_mpd.CoreCommands.CurrentPlaylist.Windows.{sliced, take_all}
use mopidy_mpd.CoreCommands.StoredPlaylists.{
  is_invalid_name, check_playlist_name, get_playlist, get_existing_playlist, required_playlist,
  track_uris, load, lookup_uri,
}
use mopidy_mpd.CoreCommands.StoredPlaylists.Saving.{Setting, save_tracks, check_saved}
use mopidy_mpd.CoreCommands.StoredPlaylists.Edits.{of_tl, save, save_into}

sliced-whole {ℓ} : {A : Type ℓ} (xs : List A) → sliced 0 none xs ≡ xs
unfolding sliced
sliced-whole xs = take_all (length xs - 0) xs (omega arith)

module _ {W : Type 0} (tracklist : Tracklist W) (playlists : Playlists W) (uri_map : UriMap W) where
  existing-found :
      (name : Text) (w w' : W) (playlist : Playlist)
      → get_playlist playlists uri_map name w ≡ (ok (some playlist), w')
      → get_existing_playlist playlists uri_map name w ≡ (ok playlist, w')
  unfolding get_existing_playlist required_playlist
  existing-found name w w' playlist found =
      ap (λ ((r, v) : Outcome (Option Playlist) × W). continue r required_playlist v) found

  load-found :
      (name : Text) (w w' : W) (playlist : Playlist)
      → get_playlist playlists uri_map name w ≡ (ok (some playlist), w')
      → load playlists uri_map tracklist
          (str_arg name ∷ slice_arg (record { start = 0; stop = none }) ∷ [])
          w
        ≡ done (tracklist.add (track_uris playlist.tracks) none) w'
  unfolding load
  load-found name w w' playlist found =
      ap
        (λ ((r, v) : Outcome Playlist × W).
          continue r (λ p. done (tracklist.add (track_uris (sliced 0 none p.tracks)) none)) v)
        (existing-found name w w' playlist found)
      ∙ ap (λ (tracks : List Track). done (tracklist.add (track_uris tracks) none) w')
          (sliced-whole playlist.tracks)

-- The steps of both.
save-load_steps :
    {W : Type 0} (setting : Setting) (tracklist : Tracklist W) (playlists : Playlists W)
    (uri_map : UriMap W) (name : Text) (ts : List TlTrack) (old saved : Playlist) (w w1 w2 w3 : W)
    → is_invalid_name name ≡ false
    → tracklist.get_tl_tracks w ≡ ok ts
    → get_playlist playlists uri_map name w ≡ (ok (some old), w1)
    → playlists.save (record old { tracks = of_tl ts }) w1 ≡ (ok (some saved), w2)
    → get_playlist playlists uri_map name w2 ≡ (ok (some saved), w3)
    → saved.tracks ≡ of_tl ts
    → (save setting playlists uri_map tracklist (str_arg name ∷ []) w ≡ (ok nothing, w2))
      × (load playlists uri_map tracklist
            (str_arg name ∷ slice_arg (record { start = 0; stop = none }) ∷ [])
            w2
          ≡ done (tracklist.add (track_uris (of_tl ts)) none) w3)
unfolding save check_playlist_name save_into save_tracks check_saved
save-load_steps {W} setting tracklist playlists uri_map name ts old saved w w1 w2 w3 proper all
      exists stores finds same =
    (
      rw proper (
          continue-ok _ w all
          ∙ ap
              (λ ((r, v) : Outcome (Option Playlist) × W).
                continue r (save_into setting playlists uri_map name (of_tl ts)) v)
              exists
          ∙ ap
              (λ ((r, v) : Outcome (Option Playlist) × W).
                continue r (check_saved setting playlists old.uri) v)
              stores),
      load-found tracklist playlists uri_map name w2 w3 saved finds
          ∙ ap (λ (tracks : List Track). done (tracklist.add (track_uris tracks) none) w3) same,
    )

-- What the core promises: a playlist that is saved is found under its URI as it was given, and all
-- others are as before; and the map of names gives a name its URI, and changes no playlist.
pub record StoreLaws {W : Type 0} (playlists : Playlists W) (uri_map : UriMap W)
    (store : W → Text → Option Playlist) (uri_of : Text → Option Text) : Type 0 where
  pub lookup_lem : (uri : Text) (w : W) → playlists.lookup uri w ≡ ok (store w uri)
  pub save_lem :
      (playlist : Playlist) (uri : Text) (w : W)
      → playlist.uri ≡ some uri
      → (w' : W) × (playlists.save playlist w ≡ (ok (some playlist), w'))
        × ((other : Text)
            → store w' other ≡ (if text_eq other uri then some playlist else store w other))
  pub name_lem :
      (name : Text) (w : W)
      → (w' : W) × (uri_map.playlist_uri_from_name name w ≡ (ok (uri_of name), w'))
        × ((other : Text) → store w' other ≡ store w other)

-- The URIs of the tracks, in order.
abbrev pub HaveUris : List TlTrack → List Text → Type 0
HaveUris [] [] = Unit
HaveUris (t ∷ ts) (uri ∷ uris) = (t.track.uri ≡ some uri) × HaveUris ts uris
HaveUris _ _ = ⊥

track_uris-of_tl :
    (ts : List TlTrack) (uris : List Text) → HaveUris ts uris → track_uris (of_tl ts) ≡ uris
unfolding track_uris
track_uris-of_tl [] [] h = refl
track_uris-of_tl [] (u ∷ us) h = absurd h
track_uris-of_tl (t ∷ ts) [] h = absurd h
track_uris-of_tl (t ∷ ts) (u ∷ us) (e, h) =
    rw e (ap (λ (l : List Text). u ∷ l) (track_uris-of_tl ts us h))

module _ {W : Type 0} (playlists : Playlists W) (uri_map : UriMap W)
    (store : W → Text → Option Playlist) (uri_of : Text → Option Text)
    (laws : StoreLaws playlists uri_map store uri_of) where
  get_playlist-store :
      (name uri : Text) (w : W)
      → uri_of name ≡ some uri
      → is_empty uri ≡ false
      → (w' : W) × (get_playlist playlists uri_map name w ≡ (ok (store w uri), w'))
        × ((other : Text) → store w' other ≡ store w other)
  unfolding get_playlist lookup_uri
  get_playlist-store name uri w known full =
      let (w', asked, same) = laws.name_lem name w in
      (
        w',
        ap (λ ((r, v) : Outcome (Option Text) × W). continue r (lookup_uri playlists uri_map) v)
              asked
            ∙ ap (λ (u : Option Text). lookup_uri playlists uri_map u w') known
            ∙ rw full (
                ap (λ (o : Outcome (Option Playlist)). (o, w'))
                  (laws.lookup_lem uri w' ∙ ap (λ (p : Option Playlist). ok p) (same uri))),
        same,
      )

-- Where a playlist with the name exists, save gives it the tracks of the tracklist and leaves every
-- other playlist, and its own name and URI, as they are; and load then adds the URIs of exactly these
-- tracks, in order, and leaves the playlists as they are until it adds. This holds where the core
-- finds what it saved and changes nothing else, the map gives the name one URI, which is not empty
-- and the URI of the playlist, and each track has a URI.
pub load-save :
    {W : Type 0} (setting : Setting) (tracklist : Tracklist W) (playlists : Playlists W)
    (uri_map : UriMap W) (store : W → Text → Option Playlist) (uri_of : Text → Option Text)
    (name uri : Text) (ts : List TlTrack) (uris : List Text) (old : Playlist) (w : W)
    → StoreLaws playlists uri_map store uri_of
    → is_invalid_name name ≡ false
    → uri_of name ≡ some uri
    → is_empty uri ≡ false
    → store w uri ≡ some old
    → old.uri ≡ some uri
    → tracklist.get_tl_tracks w ≡ ok ts
    → HaveUris ts uris
    → (w2 w3 : W) × (save setting playlists uri_map tracklist (str_arg name ∷ []) w
        ≡ (ok nothing, w2))
      × (load playlists uri_map tracklist
            (str_arg name ∷ slice_arg (record { start = 0; stop = none }) ∷ [])
            w2
          ≡ done (tracklist.add uris none) w3)
      × ((other : Text)
          → store w3 other ≡ (
              if text_eq other uri then some (record old { tracks = of_tl ts }) else store w other))
load-save setting tracklist playlists uri_map store uri_of name uri ts uris old w laws proper known
      full exists at all have =
    let new : Playlist = record old { tracks = of_tl ts } in
    let (w1, found, same) =
      get_playlist-store playlists uri_map store uri_of laws name uri w known full in
    let (w2, saves, stored) = laws.save_lem new uri w1 at in
    let (w3, found', same') =
      get_playlist-store playlists uri_map store uri_of laws name uri w2 known full in
    let (saved, loads) =
      save-load_steps setting tracklist playlists uri_map name ts old new w w1 w2 w3 proper all
        (found ∙ ap (λ (p : Option Playlist). (ok p, w1)) exists) saves
        (found'
          ∙ ap (λ (p : Option Playlist). (ok p, w3)) (stored uri ∙ rw (text_eq_refl uri) refl))
        refl in
    (
      w2,
      w3,
      saved,
      loads
          ∙ ap (λ (l : List Text). done (tracklist.add l none) w3) (track_uris-of_tl ts uris have),
      λ other.
          same' other
          ∙ stored other
          ∙ ap (λ (p : Option Playlist). if text_eq other uri then some new else p) (same other),
    )
