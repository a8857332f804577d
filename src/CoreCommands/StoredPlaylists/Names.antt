-- ===== src/CoreCommands/StoredPlaylists/Names.antt =====
-- src/mopidy_mpd/protocol/stored_playlists.py: playlist names that are refused.
use mopidy_mpd.Prelude.{ℕ, ◌≡◌, ◌⊎◌, pos, Text, true, false, [], ◌∷◌, ◌++◌, ◌==◌, All, arith}
use mopidy_mpd.Exceptions.{mpd_invalid_playlist_name_error}
use mopidy_mpd.Outcome.{raised, ack}
use mopidy_mpd.Protocol.{Result, str_arg, int_arg}
use mopidy_mpd.CoreCommands.Core.{Playlists, Library, UriMap, Tracklist, K}
use mopidy_mpd.CoreCommands.StoredPlaylists.{is_invalid_name, check_playlist_name}
use mopidy_mpd.CoreCommands.StoredPlaylists.Saving.{Setting}
use mopidy_mpd.CoreCommands.StoredPlaylists.Edits.{
  playlistadd, playlistclear, playlistdelete, playlistmove, rename, rm, save,
}

-- A slash, a newline or a carriage return.
abbrev pub BreaksName : ℕ → Type 0
BreaksName c = (c ≡ 47) ⊎ ((c ≡ 10) ⊎ (c ≡ 13))

is_invalid_name-found :
    (before after : Text) (c : ℕ) → BreaksName c → is_invalid_name (before ++ (c ∷ after)) ≡ true
unfolding is_invalid_name
is_invalid_name-found [] after c h = ground (arith, h)
is_invalid_name-found (b ∷ before) after c h =
    ground (arith, is_invalid_name-found before after c h)

-- A command that changes playlists refuses a name with a slash, a newline or a carriage return with
-- an ACK, before it asks the core or the map of names for anything: playlistadd, playlistclear,
-- playlistdelete, playlistmove between different positions, rename from that name or to it, rm and
-- save.
pub invalid_name_lem :
    {W : Type 0} (setting : Setting) (playlists : Playlists W) (uri_map : UriMap W)
    (library : Library W) (tracklist : Tracklist W) (before after valid uri : Text) (c i j : ℕ)
    (w : W)
    → BreaksName c
    → (i == j) ≡ false
    → is_invalid_name valid ≡ false
    → All
        (λ (command : K W Result). command w ≡ (raised (ack mpd_invalid_playlist_name_error), w))
        (playlistadd setting playlists uri_map library
            (str_arg (before ++ (c ∷ after)) ∷ str_arg uri ∷ [])
          ∷ playlistclear setting playlists uri_map (str_arg (before ++ (c ∷ after)) ∷ [])
          ∷ playlistdelete setting playlists uri_map
              (str_arg (before ++ (c ∷ after)) ∷ int_arg (pos i) ∷ [])
          ∷ playlistmove setting playlists uri_map
              (str_arg (before ++ (c ∷ after)) ∷ int_arg (pos i) ∷ int_arg (pos j) ∷ [])
          ∷ rename setting playlists uri_map (str_arg (before ++ (c ∷ after)) ∷ str_arg valid ∷ [])
          ∷ rename setting playlists uri_map (str_arg valid ∷ str_arg (before ++ (c ∷ after)) ∷ [])
          ∷ rm setting playlists uri_map (str_arg (before ++ (c ∷ after)) ∷ [])
          ∷ save setting playlists uri_map tracklist (str_arg (before ++ (c ∷ after)) ∷ [])
          ∷ [])
unfolding playlistadd playlistclear playlistdelete playlistmove rename rm save check_playlist_name
invalid_name_lem setting playlists uri_map library tracklist before after valid uri c i j w h e
      proper =
    let bad = is_invalid_name-found before after c h in
    (
      rw bad,
      (rw bad, (rw bad, (rw (e, bad), (rw bad, (rw (proper, bad), (rw bad, (rw bad, tt))))))),
    )
