-- ===== src/CoreCommands/StoredPlaylists/Saving.antt =====
-- src/mopidy_mpd/protocol/stored_playlists.py: how a playlist is created and saved.
use mopidy_mpd.Prelude.{
  Text, Bool, true, false, Option, none, some, List, [], ◌∷◌, if◌then◌else◌, contains,
}
use mopidy_mpd.Exceptions.{mpd_failed_to_save_playlist_error}
use mopidy_mpd.Outcome.{Outcome, ok, raised, diverged}
use mopidy_mpd.Protocol.{Result, nothing}
use mopidy_mpd.Translator.{Track}
use mopidy_mpd.Url.{str_scheme}
use mopidy_mpd.CoreCommands.Core.{Playlist, Playlists, K, pure, throw, lift, ◌>>=◌}

-- The schemes of the tracks, each once.
unfoldable pub schemes : (Text → Bool) → List Track → Outcome (List Text)
unfolding str_scheme contains
schemes bad_netloc [] = ok []
schemes bad_netloc (t ∷ ts) =
    let rest = schemes bad_netloc ts in
    elim (str_scheme bad_netloc t.uri) [
      | ok scheme ↦ elim rest [
        | ok found ↦ ok (if contains found scheme then found else scheme ∷ found)
        | r ↦ r
      ]
      | raised e ↦ raised e
      | diverged ↦ diverged
    ]

-- What the commands use beside the playlists: `in_set_order` lists the elements of a set in the order
-- in which Python iterates it.
pub record Setting : Type 0 where
  pub default_playlist_scheme : Text
  pub bad_netloc : Text → Bool
  pub in_set_order : List Text → List Text

module _ {W : Type 0} (setting : Setting) (playlists : Playlists W) where
  unfoldable pub fail_to_save : Option Text → K W Result
  unfolding str_scheme
  fail_to_save uri = do
    scheme ← lift (str_scheme setting.bad_netloc uri)
    throw (mpd_failed_to_save_playlist_error scheme)

  -- `if saved_playlist is None: raise MpdFailedToSavePlaylistError`, with the scheme of a URI
  unfoldable pub check_saved : Option Text → Option Playlist → K W Result
  unfolding fail_to_save
  check_saved uri none = fail_to_save uri
  check_saved uri (some saved) = pure nothing

  -- `playlist.replace(tracks=tracks)`, saved.
  unfoldable pub save_tracks : Playlist → List Track → K W Result
  unfolding check_saved
  save_tracks playlist tracks = do
    saved_playlist ← playlists.save (record playlist { tracks = tracks })
    check_saved playlist.uri saved_playlist

  -- The default backend of `_create_playlist`
  unfoldable pub save_default : List Track → Option Playlist → K W Result
  unfolding save_tracks
  save_default tracks none =
      throw (mpd_failed_to_save_playlist_error setting.default_playlist_scheme)
  save_default tracks (some playlist) = save_tracks playlist tracks

  unfoldable pub create_default : Text → List Track → K W Result
  unfolding save_default
  create_default name tracks = do
    new_playlist ← playlists.create name (some setting.default_playlist_scheme)
    save_default tracks new_playlist

  -- Whether a playlist that a backend created was saved there.
  unfoldable pub try_save : List Track → Option Playlist → K W Bool
  try_save tracks none = pure false
  try_save tracks (some playlist) = do
    saved_playlist ← playlists.save (record playlist { tracks = tracks })
    pure (elim saved_playlist [ none ↦ false | some _ ↦ true ])

  -- The loop of `_create_playlist` over the schemes that are left.
  unfoldable pub create_with : Text → List Track → List Text → K W Result
  unfolding try_save create_default
  create_with name tracks [] = create_default name tracks
  create_with name tracks (scheme ∷ rest) = do
    new_playlist ← playlists.create name (some scheme)
    is_saved ← try_save tracks new_playlist
    if is_saved then pure nothing else create_with name tracks rest

  -- `_create_playlist`
  unfoldable pub create_playlist : Text → List Track → K W Result
  unfolding schemes create_with
  create_playlist name tracks = do
    uri_schemes ← lift (schemes setting.bad_netloc tracks)
    create_with name tracks (setting.in_set_order uri_schemes)
