-- ===== src/CoreCommands/StatusReport.antt =====
-- src/mopidy_mpd/protocol/status.py: `currentsong`, `stats` and `status`. The commands that wait for
-- events are in Commands.Status.
pub mod Agreement
use mopidy_mpd.Prelude.{
  ℕ, ◌/◌, ℤ, pos, negsuc, Text, codes, Bool, true, false, Option, none, some, List, [], ◌∷◌, ◌++◌,
  show_nat,
}
use mopidy_mpd.Convert.Float.{show_seconds}
use mopidy_mpd.Protocol.{str, int, dict, Result, nothing, single, Arg}
use mopidy_mpd.Translator.{Track, Tag, or_zero, track_to_mpd_format}
use mopidy_mpd.CoreCommands.Core.{
  TlTrack, of_tl_track, PlaybackState, playing, paused, stopped, Tracklist, Playback, Volume, K,
  pure, ask, lift, bad_call, ◌>>=◌,
}
use mopidy_mpd.CoreCommands.CurrentPlaylist.{tags_result}

-- `_status_state`
unfoldable pub status_state : PlaybackState → Text
status_state playing = codes "play"
status_state stopped = codes "stop"
status_state paused = codes "pause"

-- `_status_time`
unfoldable pub status_time : ℕ → Track → Text
unfolding show_nat
status_time position track =
    show_nat (position / 1000) ++ (b':' ∷ show_nat (or_zero track.length_ms / 1000))

abbrev int_of_bool : Bool → ℤ
int_of_bool true = pos 1
int_of_bool false = pos 0

-- `mixer_volume if mixer_volume is not None else -1`
abbrev volume_or : Option ℕ → ℤ
volume_or none = negsuc 0
volume_or (some n) = pos n

-- `if tlid is not None and index is not None`: both under their tags.
unfoldable pub song_tags : Text → Text → Option ℕ → Option ℕ → List Tag
song_tags index_tag id_tag (some tlid) (some index) =
    (index_tag, int (pos index)) ∷ (id_tag, int (pos tlid)) ∷ []
song_tags index_tag id_tag _ _ = []

abbrev tlid_of : Option TlTrack → Option ℕ
tlid_of none = none
tlid_of (some t) = some t.tlid

abbrev stats_tags : List Tag
stats_tags =
    (codes "artists", int (pos 0))
    ∷ (codes "albums", int (pos 0))
    ∷ (codes "songs", int (pos 0))
    ∷ (codes "uptime", int (pos 0))
    ∷ (codes "db_playtime", int (pos 0))
    ∷ (codes "db_update", int (pos 0))
    ∷ (codes "playtime", int (pos 0))
    ∷ []

-- What `status` knows once it has waited for all answers.
pub record Answers : Type 0 where
  pub current : Option TlTrack
  pub next_tlid : Option ℕ
  pub current_index : Option ℕ
  pub mixer_volume : Option ℕ
  pub next_index : Option ℕ
  pub state : PlaybackState
  pub time_position : ℕ
  pub consume : Bool
  pub length : ℕ
  pub random : Bool
  pub repeat : Bool
  pub single : Bool
  pub version : ℕ

unfoldable pub general_tags : Answers → List Tag
unfolding status_state
general_tags a =
    (codes "volume", int (volume_or a.mixer_volume))
    ∷ (codes "repeat", int (int_of_bool a.repeat))
    ∷ (codes "random", int (int_of_bool a.random))
    ∷ (codes "single", int (int_of_bool a.single))
    ∷ (codes "consume", int (int_of_bool a.consume))
    ∷ (codes "playlist", int (pos a.version))
    ∷ (codes "playlistlength", int (pos a.length))
    ∷ (codes "xfade", int (pos 0))
    ∷ (codes "state", str (status_state a.state))
    ∷ []

module _ {W : Type 0} where
  unfoldable pub played_tags : ℕ → Track → K W (List Tag)
  unfolding status_time show_seconds
  played_tags position track = do
    elapsed ← lift (show_seconds position)
    pure (
        (codes "time", str (status_time position track))
        ∷ (codes "elapsed", str elapsed)
        ∷ (codes "bitrate", int (pos (or_zero track.bitrate)))
        ∷ [])

  -- The tags of a current song that is played or paused.
  unfoldable pub time_tags : PlaybackState → ℕ → Option TlTrack → K W (List Tag)
  unfolding played_tags
  time_tags playing position (some t) = played_tags position t.track
  time_tags paused position (some t) = played_tags position t.track
  time_tags _ _ _ = pure []

  unfoldable pub status_report : Answers → K W Result
  unfolding general_tags song_tags time_tags
  status_report a = do
    times ← time_tags a.state a.time_position a.current
    pure (
        tags_result (
          general_tags a
          ++ (song_tags (codes "song") (codes "songid") (tlid_of a.current) a.current_index
              ++ (song_tags (codes "nextsong") (codes "nextsongid") a.next_tlid a.next_index
                  ++ times))))

module _ {W : Type 0} (tracklist : Tracklist W) (playback : Playback W) (mixer : Volume W)
    (tagtypes : List Text) where
  unfoldable pub show_current : Option Text → Option TlTrack → K W Result
  unfolding track_to_mpd_format
  show_current stream_title none = pure nothing
  show_current stream_title (some t) = do
    position ← ask (tracklist.index (some t))
    pure (tags_result (track_to_mpd_format (of_tl_track t) tagtypes position stream_title))

  unfoldable pub currentsong : List Arg → K W Result
  unfolding show_current
  currentsong [] = do
    tl_track ← ask playback.get_current_tl_track
    stream_title ← ask playback.get_stream_title
    show_current stream_title tl_track
  currentsong _ = bad_call

  unfoldable pub stats : List Arg → K W Result
  stats [] = pure (single (dict stats_tags))
  stats _ = bad_call

  unfoldable pub status : List Arg → K W Result
  unfolding status_report
  status [] = do
    current ← ask playback.get_current_tl_track
    next_tlid ← ask tracklist.get_next_tlid
    current_index ← ask (tracklist.index_tlid (tlid_of current))
    mixer_volume ← ask mixer.get_volume
    next_index ← ask (tracklist.index_tlid next_tlid)
    state ← ask playback.get_state
    time_position ← ask playback.get_time_position
    consume ← ask tracklist.get_consume
    length ← ask tracklist.get_length
    random ← ask tracklist.get_random
    repeat ← ask tracklist.get_repeat
    is_single ← ask tracklist.get_single
    version ← ask tracklist.get_version
    status_report (record {
      current = current;
      next_tlid = next_tlid;
      current_index = current_index;
      mixer_volume = mixer_volume;
      next_index = next_index;
      state = state;
      time_position = time_position;
      consume = consume;
      length = length;
      random = random;
      repeat = repeat;
      single = is_single;
      version = version;
    })
  status _ = bad_call
