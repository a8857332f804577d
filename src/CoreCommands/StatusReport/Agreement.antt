-- ===== src/CoreCommands/StatusReport/Agreement.antt =====
-- src/mopidy_mpd/protocol/status.py: what `status` and `currentsong` say of the current song.
use mathlib.Core.List.{Memᴰ}
use mathlib.Core.List.Memᴰ
use mopidy_mpd.Prelude.{
  ℕ, ◌/◌, ◌≡◌, refl, sym, ◌∙◌, pos, Text, codes, true, false, Option, some, List, [], ◌∷◌, ◌++◌,
  if◌then◌else◌, if_both, is_empty, contains, All, subst, text_eq,
}
use mopidy_mpd.Outcome.{ok}
use mopidy_mpd.Convert.Float.{show_seconds}
use mopidy_mpd.Protocol.{str, int, Result}
use mopidy_mpd.Translator.{
  Track, Tag, multi_tag_list, or_empty, or_zero, title_tags, if_text, track_tag, position_tags,
  album_and, if_some, album_artist_tags, ids_tag, if_number, modified_tag, has_value, enabled,
  all_tags, tags_of, track_to_mpd_format,
}
use mopidy_mpd.CoreCommands.Core.{
  TlTrack, of_tl_track, PlaybackState, playing, paused, stopped, Tracklist, Playback, Volume, K,
}
use mopidy_mpd.CoreCommands.CurrentPlaylist.{tags_result}
use mopidy_mpd.CoreCommands.StatusReport.{
  Answers, tlid_of, general_tags, song_tags, time_tags, played_tags, status_time, status_report,
  status, show_current, currentsong,
}

module _ (tagtypes : List Text) (t : Tag) (kept : has_value tagtypes t ≡ true) where
  enabled-Mem : (ts : List Tag) → Memᴰ t ts → Memᴰ t (enabled tagtypes ts)
  unfolding enabled
  enabled-Mem [] m = absurd (Memᴰ.not-nil m)
  enabled-Mem (u ∷ ts) (Memᴰ.head e) = rw (sym e, kept) (Memᴰ.head refl)
  enabled-Mem (u ∷ ts) (Memᴰ.tail m) =
      if_both (Memᴰ t) (has_value tagtypes u) (Memᴰ.tail (enabled-Mem ts m)) (enabled-Mem ts m)

abbrev pub place_tags : Text → Text → ℕ → ℕ → List Tag
place_tags index_tag id_tag i n = (index_tag, int (pos i)) ∷ (id_tag, int (pos n)) ∷ []

-- A song with a position is shown with the position and its identifier.
all_tags-position :
    (u : Text) (track : Track) (i n : ℕ) (title : Option Text) (t : Tag)
    → Memᴰ t (place_tags (codes "Pos") (codes "Id") i n)
    → Memᴰ t (all_tags u (record { tlid = some n; track = track }) (some i) title)
unfolding all_tags position_tags
all_tags-position u track i n title t m =
    Memᴰ.append_right
      ((codes "file", str u) ∷ (codes "Time", int (pos (or_zero track.length_ms / 1000))) ∷ [])
      (before_three
        (before_three
          (before_three (Memᴰ.append_left album_id (Memᴰ.append_right first m))
            (album_artist_tags track.album) (ids_tag (codes "MUSICBRAINZ_ARTISTID") track.artists)
            (multi_tag_list (codes "Composer") (λ a. a.name) track.composers))
          (multi_tag_list (codes "Performer") (λ a. a.name) track.performers)
          (if_text (codes "Genre") track.genre) (if_number (codes "Disc") track.disc_no))
        (modified_tag track.last_modified)
        (if_some (codes "MUSICBRAINZ_TRACKID") track.musicbrainz_id)
        (if_text (codes "X-AlbumUri") (album_and (λ a. a.uri) track.album)))
  where
    before_three : {p : List Tag} → Memᴰ t p → (a b c : List Tag) → Memᴰ t (p ++ a ++ b ++ c)
    before_three m a b c = Memᴰ.append_left c (Memᴰ.append_left b (Memᴰ.append_left a m))

    album_id : List Tag
    album_id = if_some (codes "MUSICBRAINZ_ALBUMID") (album_and (λ a. a.musicbrainz_id) track.album)

    first : List Tag
    first =
        multi_tag_list (codes "Artist") (λ a. a.name) track.artists
        ++ ((codes "Album", str (or_empty (album_and (λ a. a.name) track.album))) ∷ [])
        ++ title_tags title track.name
        ++ if_text (codes "Date") track.date
        ++ track_tag (or_zero track.track_no) (album_and (λ a. a.num_tracks) track.album)

place_tags-kept :
    (tagtypes : List Text) (i n : ℕ) (t : Tag)
    → Memᴰ t (place_tags (codes "Pos") (codes "Id") i n)
    → has_value tagtypes t ≡ true
unfolding has_value contains text_eq
place_tags-kept tagtypes i n t (Memᴰ.head e) = rw e refl
place_tags-kept tagtypes i n t (Memᴰ.tail (Memᴰ.head e)) = rw e refl
place_tags-kept tagtypes i n t (Memᴰ.tail (Memᴰ.tail m)) = absurd (Memᴰ.not-nil m)

tags_of-position :
    (tagtypes : List Text) (u : Text) (track : Track) (i n : ℕ) (title : Option Text) (t : Tag)
    → is_empty u ≡ false
    → Memᴰ t (place_tags (codes "Pos") (codes "Id") i n)
    → Memᴰ t (tags_of (some u) (record { tlid = some n; track = track }) tagtypes (some i) title)
unfolding tags_of
tags_of-position tagtypes u track i n title t named m =
    subst
      (λ b. Memᴰ t (
        if b
        then []
        else enabled tagtypes
            (all_tags u (record { tlid = some n; track = track }) (some i) title)))
      (sym named)
      (enabled-Mem tagtypes t (place_tags-kept tagtypes i n t m)
        (all_tags u (record { tlid = some n; track = track }) (some i) title)
        (all_tags-position u track i n title t m))

-- The tags that a run shows.
abbrev pub Shows : {W : Type 0} → K W Result → W → List Tag → Type 0
Shows run w wanted =
    (tags : List Tag) × (run w ≡ (ok (tags_result tags), w)) × All (λ t. Memᴰ t tags) wanted

-- Both of the tags of a place are shown.
place_tags-All :
    {index_tag id_tag : Text} {i n : ℕ} {tags : List Tag}
    → ((t : Tag) → Memᴰ t (place_tags index_tag id_tag i n) → Memᴰ t tags)
    → All (λ t. Memᴰ t tags) (place_tags index_tag id_tag i n)
place_tags-All f = (f _ (Memᴰ.head refl), (f _ (Memᴰ.tail (Memᴰ.head refl)), tt))

-- The song that is played, and its place in the tracklist.
abbrev pub playing_at : TlTrack → ℕ → Answers → Answers
playing_at t i a = record a { current = some t; current_index = some i }

played_tags-total :
    {W : Type 0} (position : ℕ) (track : Track) (elapsed : Text) (w : W)
    → show_seconds position ≡ ok elapsed
    → (times : List Tag) × (played_tags position track w ≡ (ok times, w))
unfolding played_tags
played_tags-total position track elapsed w h = (
  (codes "time", str (status_time position track))
      ∷ (codes "elapsed", str elapsed)
      ∷ (codes "bitrate", int (pos (or_zero track.bitrate)))
      ∷ [],
  rw h refl,
)

time_tags-total :
    {W : Type 0} (s : PlaybackState) (position : ℕ) (t : TlTrack) (elapsed : Text) (w : W)
    → show_seconds position ≡ ok elapsed
    → (times : List Tag) × (time_tags s position (some t) w ≡ (ok times, w))
unfolding time_tags
time_tags-total stopped position t elapsed w h = ([], refl)
time_tags-total playing position t elapsed w h = played_tags-total position t.track elapsed w h
time_tags-total paused position t elapsed w h = played_tags-total position t.track elapsed w h

-- What a general report says of the song.
status_report-Shows :
    {W : Type 0} (t : TlTrack) (i : ℕ) (a : Answers) (elapsed : Text) (w : W)
    → show_seconds a.time_position ≡ ok elapsed
    → Shows
        (status_report (playing_at t i a))
        w
        (place_tags (codes "song") (codes "songid") i t.tlid)
unfolding status_report song_tags
status_report-Shows t i a elapsed w h =
    let (times, e) = time_tags-total a.state a.time_position t elapsed w h in
    let rest =
      song_tags (codes "nextsong") (codes "nextsongid") a.next_tlid a.next_index ++ times in
    (
      general_tags (playing_at t i a)
          ++ (place_tags (codes "song") (codes "songid") i t.tlid ++ rest),
      rw e refl,
      place_tags-All
          (λ s m. Memᴰ.append_right (general_tags (playing_at t i a)) (Memᴰ.append_left rest m)),
    )

module _ {W : Type 0} (tracklist : Tracklist W) (playback : Playback W) (mixer : Volume W) where
  -- What the core answers to the questions of `status`.
  pub record Answered (a : Answers) (w : W) : Type 0 where
    pub current_eq : playback.get_current_tl_track w ≡ ok a.current
    pub next_tlid_eq : tracklist.get_next_tlid w ≡ ok a.next_tlid
    pub current_index_eq : tracklist.index_tlid (tlid_of a.current) w ≡ ok a.current_index
    pub mixer_volume_eq : mixer.get_volume w ≡ ok a.mixer_volume
    pub next_index_eq : tracklist.index_tlid a.next_tlid w ≡ ok a.next_index
    pub state_eq : playback.get_state w ≡ ok a.state
    pub time_position_eq : playback.get_time_position w ≡ ok a.time_position
    pub consume_eq : tracklist.get_consume w ≡ ok a.consume
    pub length_eq : tracklist.get_length w ≡ ok a.length
    pub random_eq : tracklist.get_random w ≡ ok a.random
    pub repeat_eq : tracklist.get_repeat w ≡ ok a.repeat
    pub single_eq : tracklist.get_single w ≡ ok a.single
    pub version_eq : tracklist.get_version w ≡ ok a.version

  status-report :
      (tagtypes : List Text) (a : Answers) (w : W)
      → Answered a w
      → status tracklist playback mixer tagtypes [] w ≡ status_report a w
  unfolding status
  status-report tagtypes a w h =
      rw
        (
          h.current_eq, h.next_tlid_eq, h.current_index_eq, h.mixer_volume_eq, h.next_index_eq,
          h.state_eq, h.time_position_eq, h.consume_eq, h.length_eq, h.random_eq, h.repeat_eq,
          h.single_eq, h.version_eq,
        )
        refl

  -- status and currentsong agree on the current song: both return, and what status shows as song and
  -- songid is what currentsong shows as Pos and Id, whether it is played, paused or stopped, where the
  -- core gives a track the position of its identifier, the song has a URI, and the time position is
  -- none that no double is near.
  pub status-currentsong :
      (tagtypes : List Text) (t : TlTrack) (i : ℕ) (u : Text) (title : Option Text) (a : Answers)
      (elapsed : Text) (w : W)
      → Answered (playing_at t i a) w
      → tracklist.index (some t) w ≡ tracklist.index_tlid (some t.tlid) w
      → playback.get_stream_title w ≡ ok title
      → t.track.uri ≡ some u
      → is_empty u ≡ false
      → show_seconds a.time_position ≡ ok elapsed
      → Shows
          (status tracklist playback mixer tagtypes [])
          w
          (place_tags (codes "song") (codes "songid") i t.tlid)
        × Shows
            (currentsong tracklist playback mixer tagtypes [])
            w
            (place_tags (codes "Pos") (codes "Id") i t.tlid)
  unfolding currentsong show_current track_to_mpd_format
  status-currentsong tagtypes t i u title a elapsed w h same titled has_uri named timed =
      let (tags, e, shown) = status_report-Shows t i a elapsed w timed in
      (
        (tags, status-report tagtypes (playing_at t i a) w h ∙ e, shown),
        (
          tags_of (some u) (of_tl_track t) tagtypes (some i) title,
          rw (h.current_eq, titled, same, h.current_index_eq, has_uri) refl,
          place_tags-All (λ s. tags_of-position tagtypes u t.track i t.tlid title s named),
        ),
      )
