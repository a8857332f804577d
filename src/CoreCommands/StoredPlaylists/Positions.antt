-- ===== src/CoreCommands/StoredPlaylists/Positions.antt =====
-- src/mopidy_mpd/protocol/stored_playlists.py: `playlistmove` and `playlistdelete` against the moves of
-- the tracklist.
use mopidy_mpd.Prelude.{
  ℕ, zero, suc, ◌≤◌, ◌≡◌, refl, ap, ◌∙◌, pos, Text, codes, false, none, some, List, [], ◌∷◌, ◌++◌,
  ◌==◌, length, take, drop, arith,
}
use mopidy_mpd.Exceptions.{mpd_error, arg_error}
use mopidy_mpd.Outcome.{Outcome, ok, raised, ack}
use mopidy_mpd.Protocol.{str_arg, int_arg}
use mopidy_mpd.CoreCommands.Core.{Playlist, Playlists, UriMap, continue}
use mopidy_mpd.CoreCommands.StoredPlaylists.{
  is_invalid_name, check_playlist_name, get_existing_playlist,
}
use mopidy_mpd.CoreCommands.StoredPlaylists.Saving.{Setting}
use mopidy_mpd.CoreCommands.StoredPlaylists.Edits.{
  pop, moved_track, without_position, save_edited, playlistmove, playlistdelete,
}

module _ {ℓ} {A : Type ℓ} where
  -- The element at a position, taken out.
  record Popped (i : ℕ) (xs : List A) : Type ℓ where
    element : A
    popped : pop i xs ≡ some (element, take i xs ++ drop (suc i) xs)
    block : take 1 (drop i xs) ≡ element ∷ []

  pop-beyond : (i : ℕ) (xs : List A) → length xs ≤ i → pop i xs ≡ none
  unfolding pop
  pop-beyond i [] h = refl
  pop-beyond zero (x ∷ xs) h = absurd (omega arith)
  pop-beyond (suc i) (x ∷ xs) h = rw (pop-beyond i xs (omega arith)) refl

module _ {W : Type 0} (setting : Setting) (playlists : Playlists W) (uri_map : UriMap W)
    (name : Text) (w w' : W) (playlist : Playlist) (proper : is_invalid_name name ≡ false)
    (found : get_existing_playlist playlists uri_map name w ≡ (ok playlist, w')) where
  playlistmove-edits :
      (i j : ℕ)
      → (i == j) ≡ false
      → playlistmove setting playlists uri_map
          (str_arg name ∷ int_arg (pos i) ∷ int_arg (pos j) ∷ [])
          w
        ≡ save_edited setting playlists uri_map playlist (moved_track i j playlist.tracks) w'
  unfolding playlistmove check_playlist_name
  playlistmove-edits i j differ =
      rw (differ, proper)
        (ap
          (λ ((r, v) : Outcome Playlist × W).
            continue r (λ p. save_edited setting playlists uri_map p (moved_track i j p.tracks)) v)
          found)

  playlistdelete-edits :
      (i : ℕ)
      → playlistdelete setting playlists uri_map (str_arg name ∷ int_arg (pos i) ∷ []) w
        ≡ save_edited setting playlists uri_map playlist (without_position i playlist.tracks) w'
  unfolding playlistdelete check_playlist_name
  playlistdelete-edits i = rw proper (
      ap
        (λ ((r, v) : Outcome Playlist × W).
          continue r (λ p. save_edited setting playlists uri_map p (without_position i p.tracks)) v)
        found)

-- On a playlist that exists, playlistmove from a position behind its end and playlistdelete of one
-- answer with the ACK Bad song index and save nothing.
pub playlistmove-beyond :
    {W : Type 0} (setting : Setting) (playlists : Playlists W) (uri_map : UriMap W) (name : Text)
    (w w' : W) (playlist : Playlist) (i j : ℕ)
    → is_invalid_name name ≡ false
    → get_existing_playlist playlists uri_map name w ≡ (ok playlist, w')
    → (i == j) ≡ false
    → length playlist.tracks ≤ i
    → (playlistmove setting playlists uri_map
          (str_arg name ∷ int_arg (pos i) ∷ int_arg (pos j) ∷ [])
          w
        ≡ (raised (ack (mpd_error arg_error (codes "Bad song index") none)), w'))
      × (playlistdelete setting playlists uri_map (str_arg name ∷ int_arg (pos i) ∷ []) w
          ≡ (raised (ack (mpd_error arg_error (codes "Bad song index") none)), w'))
unfolding save_edited moved_track without_position
playlistmove-beyond setting playlists uri_map name w w' playlist i j proper found differ h = (
  playlistmove-edits setting playlists uri_map name w w' playlist proper found i j differ
      ∙ rw (pop-beyond i playlist.tracks h, moved_track) refl,
  playlistdelete-edits setting playlists uri_map name w w' playlist proper found i
      ∙ rw (pop-beyond i playlist.tracks h, without_position) refl,
)
