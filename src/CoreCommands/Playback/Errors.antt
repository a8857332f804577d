-- ===== src/CoreCommands/Playback/Errors.antt =====
-- src/mopidy_mpd/protocol/playback.py: what the commands do for a song that is not in the tracklist.
use mopidy_mpd.Prelude.{
  ℕ, ◌≡◌, ap, ◌∙◌, ℤ, pos, negsuc, eq_int, add_int, codes, Bool, true, false, Option, none, [], ◌∷◌,
  if◌then◌else◌,
}
use mopidy_mpd.Exceptions.{Ack, mpd_error, arg_error, no_exist_error}
use mopidy_mpd.Outcome.{Outcome, ok, raised, ack}
use mopidy_mpd.Convert.Float.{Float}
use mopidy_mpd.Protocol.{Result, nothing, int_arg, float_arg}
use mopidy_mpd.CoreCommands.Core.{
  TlTrack, Tracklist, Playback, K, pure, continue, continue-ok, ◌>>=◌,
}
use mopidy_mpd.CoreCommands.Playback.{
  play, play_position, play_at, playid, play_tlid, play_found, seek, seekid, is_not, is_other,
  seek_seconds,
}

abbrev bad_song_index : Ack
bad_song_index = mpd_error arg_error (codes "Bad song index") none

abbrev no_such_song : Ack
no_such_song = mpd_error no_exist_error (codes "No such song") none

module _ {W : Type 0} (tracklist : Tracklist W) (playback : Playback W) (w : W) where
  play_position-missing :
      (songpos : ℤ)
      → eq_int songpos (negsuc 0) ≡ false
      → tracklist.slice songpos (add_int songpos (pos 1)) w ≡ ok []
      → play_position tracklist playback songpos w ≡ (raised (ack bad_song_index), w)
  unfolding play_position play_at
  play_position-missing songpos e missing =
      rw (e) (continue-ok (play_at tracklist playback) w missing)

  play_tlid-missing :
      (tlid : ℤ)
      → eq_int tlid (negsuc 0) ≡ false
      → tracklist.filter_tlid tlid w ≡ ok []
      → play_tlid tracklist playback tlid w ≡ (raised (ack no_such_song), w)
  unfolding play_tlid play_found
  play_tlid-missing tlid e missing = rw (e) (continue-ok (play_found tracklist playback) w missing)

  stopped_by :
      (e : Ack) (m : K W Result) (next : K W Result) (differs : Bool)
      → differs ≡ true
      → m w ≡ (raised (ack e), w)
      → (do _ ← if differs then m else pure nothing; next) w ≡ (raised (ack e), w)
  stopped_by e m next true h fails =
      ap (λ ((r, w') : Outcome Result × W). continue r (λ _. next) w') fails
  stopped_by e m next false h fails = absurd (cc)

  module _ (songpos : ℤ) (proper : eq_int songpos (negsuc 0) ≡ false)
      (missing : tracklist.slice songpos (add_int songpos (pos 1)) w ≡ ok []) where
    seek_at :
        (index : Outcome (Option ℕ)) (i : Option ℕ) (seconds : Float)
        → index ≡ ok i
        → is_not tracklist playback i songpos ≡ true
        → continue index
            (λ index. do
              _ ←
                  if is_not tracklist playback index songpos
                  then play_position tracklist playback songpos
                  else pure nothing
              seek_seconds tracklist playback seconds)
            w
          ≡ (raised (ack bad_song_index), w)
    seek_at index i seconds found differs =
        continue-ok _ w found
        ∙ stopped_by bad_song_index (play_position tracklist playback songpos)
            (seek_seconds tracklist playback seconds) (is_not tracklist playback i songpos) differs
            (play_position-missing songpos proper missing)

-- Where no song is at the position, play and seek answer with the ACK Bad song index and do nothing
-- to the core: seek does not seek in the song that is current, which is not at that position.
seek-missing :
    {W : Type 0} (tracklist : Tracklist W) (playback : Playback W) (w : W) (songpos : ℤ)
    (seconds : Float) (current : Option TlTrack) (i : Option ℕ)
    → eq_int songpos (negsuc 0) ≡ false
    → tracklist.slice songpos (add_int songpos (pos 1)) w ≡ ok []
    → playback.get_current_tl_track w ≡ ok current
    → tracklist.index current w ≡ ok i
    → is_not tracklist playback i songpos ≡ true
    → (play tracklist playback (int_arg songpos ∷ []) w ≡ (raised (ack bad_song_index), w))
      × (seek tracklist playback (int_arg songpos ∷ float_arg seconds ∷ []) w
          ≡ (raised (ack bad_song_index), w))
unfolding play seek
seek-missing tracklist playback w songpos seconds current i proper missing now at differs = (
  play_position-missing tracklist playback w songpos proper missing,
  continue-ok _ w now
      ∙ seek_at tracklist playback w songpos proper missing (tracklist.index current w) i seconds at
          differs,
)

-- Where no song has the identifier, playid and seekid answer with the ACK No such song and do
-- nothing to the core: seekid does not seek in the song that is current, which is another one.
seekid-missing :
    {W : Type 0} (tracklist : Tracklist W) (playback : Playback W) (w : W) (tlid : ℤ)
    (seconds : Float) (current : Option TlTrack)
    → eq_int tlid (negsuc 0) ≡ false
    → tracklist.filter_tlid tlid w ≡ ok []
    → playback.get_current_tl_track w ≡ ok current
    → is_other tracklist playback current tlid ≡ true
    → (playid tracklist playback (int_arg tlid ∷ []) w ≡ (raised (ack no_such_song), w))
      × (seekid tracklist playback (int_arg tlid ∷ float_arg seconds ∷ []) w
          ≡ (raised (ack no_such_song), w))
unfolding playid seekid
seekid-missing tracklist playback w tlid seconds current proper missing now differs = (
  play_tlid-missing tracklist playback w tlid proper missing,
  continue-ok _ w now
      ∙ stopped_by tracklist playback w no_such_song (play_tlid tracklist playback tlid)
          (seek_seconds tracklist playback seconds) (is_other tracklist playback current tlid)
          differs (play_tlid-missing tracklist playback w tlid proper missing),
)
