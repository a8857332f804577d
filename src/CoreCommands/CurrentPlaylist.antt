-- ===== src/CoreCommands/CurrentPlaylist.antt =====
-- src/mopidy_mpd/protocol/current_playlist.py: the commands that change the tracklist, and those that
-- show it.
pub mod Additions
pub mod Windows
pub mod Distinct
pub mod Identifiers
pub mod Moves
pub mod Listings
use mopidy_mpd.Prelude.{
  ℕ, ◌+◌, ℤ, pos, negsuc, lt_int, eq_int, add_int, Text, codes, Bool, true, false, not, ◌||◌,
  Option, none, some, List, [], ◌∷◌, if◌then◌else◌, ltb, is_empty, text_eq, length, map,
}
use mopidy_mpd.Exceptions.{mpd_error, arg_error, no_exist_error, mpd_not_implemented_error}
use mopidy_mpd.Outcome.{Outcome}
use mopidy_mpd.Convert.{Slice, range}
use mopidy_mpd.Protocol.{
  str, int, pair, Element, Result, nothing, single, many, items, Arg, none_arg, str_arg, int_arg,
  slice_arg,
}
use mopidy_mpd.Translator.{Tag, track_to_mpd_format, tracks_to_mpd_format}
use mopidy_mpd.CoreCommands.Core.{
  TlTrack, of_tl_track, of_tl_tracks, Tracklist, Playback, K, pure, throw, ask, lift, tell, done,
  bad_call, ◌>>=◌, ◌>>◌,
}

abbrev pub tlids : List TlTrack → List ℕ
tlids [] = []
tlids (t ∷ ts) = t.tlid ∷ tlids ts

-- A list of tags as a result.
abbrev pub pairs : List Tag → List Element
pairs [] = []
pairs ((tag, value) ∷ tags) = pair tag value ∷ pairs tags

abbrev pub tags_result : List Tag → Result
tags_result tags = many (items (pairs tags))

module _ {W : Type 0} (tracklist : Tracklist W) where
  -- The end of a range, where an open one ends with the tracklist.
  unfoldable pub end_of : Option ℕ → K W ℕ
  end_of none = ask tracklist.get_length
  end_of (some stop) = pure stop

  -- `songpos is not None and songpos > length.get()`
  unfoldable pub beyond_end : Option ℕ → K W Bool
  beyond_end none = pure false
  beyond_end (some songpos) = do length ← ask tracklist.get_length; pure (ltb length songpos)

  unfoldable pub id_of_first : List TlTrack → K W Result
  id_of_first [] = throw (mpd_error no_exist_error (codes "No such song") none)
  id_of_first (t ∷ _) = pure (single (pair (codes "Id") (int (pos t.tlid))))

  unfoldable pub addid_at : Text → Option ℕ → K W Result
  unfolding beyond_end id_of_first
  addid_at uri songpos =
      if is_empty uri then throw (mpd_error no_exist_error (codes "No such song") none) else do
        beyond ← beyond_end songpos
        if beyond
            then throw (mpd_error arg_error (codes "Bad song index") none)
            else do tl_tracks ← tracklist.add (uri ∷ []) songpos; id_of_first tl_tracks

  unfoldable pub addid : List Arg → K W Result
  unfolding addid_at
  addid (str_arg uri ∷ none_arg ∷ []) = addid_at uri none
  addid (str_arg uri ∷ int_arg (pos songpos) ∷ []) = addid_at uri (some songpos)
  addid _ = bad_call

  unfoldable pub remove_all : List TlTrack → K W Result
  remove_all [] = throw (mpd_error arg_error (codes "Bad song index") (some (codes "delete")))
  remove_all (t ∷ ts) = done (tell (tracklist.remove (tlids (t ∷ ts))))

  unfoldable pub delete_to : ℕ → ℕ → K W Result
  unfolding remove_all
  delete_to start stop = do
    tl_tracks ← ask (tracklist.slice (pos start) (pos stop))
    remove_all tl_tracks

  unfoldable pub delete : List Arg → K W Result
  unfolding end_of delete_to
  delete (slice_arg songrange ∷ []) = do
    stop ← end_of songrange.stop
    delete_to songrange.start stop
  delete _ = bad_call

  unfoldable pub any_removed : List TlTrack → K W Result
  any_removed [] = throw (mpd_error no_exist_error (codes "No such song") none)
  any_removed (t ∷ ts) = pure nothing

  unfoldable pub deleteid : List Arg → K W Result
  unfolding any_removed
  deleteid (int_arg (pos tlid) ∷ []) = do
    tl_tracks ← tracklist.remove (tlid ∷ [])
    any_removed tl_tracks
  deleteid _ = bad_call

  unfoldable pub clear : List Arg → K W Result
  clear [] = done (tell tracklist.clear)
  clear _ = bad_call

  unfoldable pub move_range : List Arg → K W Result
  unfolding end_of
  move_range (slice_arg songrange ∷ int_arg (pos to) ∷ []) = do
    stop ← end_of songrange.stop
    done (tell (tracklist.move (pos songrange.start) (pos stop) to))
  move_range _ = bad_call

  unfoldable pub move_from : ℕ → Option ℕ → K W Result
  move_from to none = throw (mpd_error no_exist_error (codes "No such song") none)
  move_from to (some position) = done (tell (tracklist.move (pos position) (pos (position + 1)) to))

  unfoldable pub moveid : List Arg → K W Result
  unfolding move_from
  moveid (int_arg (pos tlid) ∷ int_arg (pos to) ∷ []) = do
    position ← ask (tracklist.index_tlid (some tlid))
    move_from to position
  moveid _ = bad_call

  unfoldable pub shuffle : List Arg → K W Result
  shuffle (none_arg ∷ []) = done (tell (tracklist.shuffle none none))
  shuffle (slice_arg r ∷ []) = done (tell (tracklist.shuffle (some r.start) r.stop))
  shuffle _ = bad_call

  -- The two moves of `swap`, for the smaller position and the larger one.
  unfoldable pub swap_sorted : ℕ → ℕ → K W Result
  swap_sorted songpos1 songpos2 = do
    _ ← tell (tracklist.move (pos songpos1) (pos (songpos1 + 1)) songpos2)
    done (tell (tracklist.move (add_int (pos songpos2) (negsuc 0)) (pos songpos2) songpos1))

  unfoldable pub swap_positions : ℕ → ℕ → K W Result
  unfolding swap_sorted
  swap_positions songpos1 songpos2 =
      if ltb songpos2 songpos1 then swap_sorted songpos2 songpos1 else swap_sorted songpos1 songpos2

  unfoldable pub swap : List Arg → K W Result
  unfolding swap_positions
  swap (int_arg (pos songpos1) ∷ int_arg (pos songpos2) ∷ []) = swap_positions songpos1 songpos2
  swap _ = bad_call

  unfoldable pub swap_found : Option ℕ → Option ℕ → K W Result
  unfolding swap_positions
  swap_found (some position1) (some position2) = swap_positions position1 position2
  swap_found _ _ = throw (mpd_error no_exist_error (codes "No such song") none)

  unfoldable pub swapid : List Arg → K W Result
  unfolding swap_found
  swapid (int_arg (pos tlid1) ∷ int_arg (pos tlid2) ∷ []) = do
    position1 ← ask (tracklist.index_tlid (some tlid1))
    position2 ← ask (tracklist.index_tlid (some tlid2))
    swap_found position1 position2
  swapid _ = bad_call
