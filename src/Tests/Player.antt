-- ===== src/Tests/Player.antt =====
-- The commands of the player and of the current playlist, at concrete inputs. The core is the list of
-- its tracks; a playback that is stopped, and a mixer that takes 0 to 100.
use mopidy_mpd.Prelude.{
  ℕ, ◌≤◌, ◌≡◌, refl, ℤ, pos, negsuc, codes, Bool, true, false, Option, none, some, List, [], ◌∷◌,
  ◌-◌, take, drop, length, leb, if◌then◌else◌, arith, text_eq,
}
use mopidy_mpd.Outcome.{Outcome, ok, raised, other_error, ◌>>=◌}
use mopidy_mpd.Convert.{range, Slice}
use mopidy_mpd.Convert.Float.{float, ufloat, milliseconds, infinite, finite, show_seconds}
use mopidy_mpd.Convert.Float.Times.{ufloat-milliseconds}
use mopidy_mpd.Protocol.{int_arg, str_arg, slice_arg}
use mopidy_mpd.Translator.{format_from}
use mopidy_mpd.CoreCommands.Core.{TlTrack, of_tl_tracks, stopped, Tracklist, Playback, Volume}
use mopidy_mpd.CoreCommands.Playback.Volumes.{setvol, volume, volume-bounds}
use mopidy_mpd.CoreCommands.CurrentPlaylist.{tags_result, swap, delete}
use mopidy_mpd.CoreCommands.CurrentPlaylist.Moves.{
  moved, position_of, without, QueueLaws, swap-exchanges,
}
use mopidy_mpd.CoreCommands.CurrentPlaylist.Identifiers.{delete-removes}
use mopidy_mpd.CoreCommands.CurrentPlaylist.Distinct.{Distinct}
use mopidy_mpd.CoreCommands.CurrentPlaylist.Listings.{playlistinfo}
use mopidy_mpd.CoreCommands.CurrentPlaylist.Windows.{sliced, playlistinfo-sliced}
use mopidy_mpd.Tests.Tracks.{a_track}

abbrev pub Queue : Type 0
Queue = List TlTrack

abbrev slice_of : ℤ → ℤ → Queue → Queue
slice_of (pos start) (pos stop) q = take (stop - start) (drop start q)
slice_of _ _ q = []

abbrev find_tlid : ℤ → Queue → Queue
find_tlid n [] = []
find_tlid (pos n) (t ∷ ts) = elim (position_of n (t ∷ [])) [
  | some _ ↦ t ∷ []
  | none ↦ find_tlid (pos n) ts
]
find_tlid (negsuc n) (t ∷ ts) = []

abbrev move_in : ℤ → ℤ → ℕ → Queue → Outcome (Unit {0}) × Queue
move_in (pos start) (pos stop) to q = (ok tt, moved start stop to q)
move_in _ _ to q = (raised (other_error (codes "AssertionError")), q)

abbrev tlid_position : Option ℕ → Queue → Option ℕ
tlid_position none q = none
tlid_position (some tlid) q = position_of tlid q

abbrev track_position : Option TlTrack → Queue → Option ℕ
track_position none q = none
track_position (some t) q = position_of t.tlid q

abbrev pub queue_core : Tracklist Queue
queue_core = record {
  get_tl_tracks = λ q. ok q;
  get_length = λ q. ok (length q);
  get_version = λ q. ok 7;
  get_next_tlid = λ q. ok none;
  get_consume = λ q. ok false;
  get_random = λ q. ok false;
  get_repeat = λ q. ok false;
  get_single = λ q. ok false;
  slice = λ start stop q. ok (slice_of start stop q);
  filter_tlid = λ tlid q. ok (find_tlid tlid q);
  filter_uri = λ uri q. ok [];
  index = λ t q. ok (track_position t q);
  index_tlid = λ tlid q. ok (tlid_position tlid q);
  add = λ uris at q. (ok [], q);
  remove = λ ids q. (ok [], without ids q);
  clear = λ q. (ok tt, []);
  move = move_in;
  shuffle = λ start stop q. (ok tt, q);
  set_consume = λ b q. (ok tt, q);
  set_random = λ b q. (ok tt, q);
  set_repeat = λ b q. (ok tt, q);
  set_single = λ b q. (ok tt, q);
}

queue_laws : QueueLaws queue_core (λ q. q)
queue_laws = record {
  length_lem = λ q. refl;
  slice_lem = λ start stop q. refl;
  index_tlid_lem = λ tlid q. refl;
  remove_lem = λ ids q. refl;
  move_lem = λ start stop to q _ _ _. refl;
}

abbrev pub silent : {W : Type 0} → Playback W
silent = record {
  get_state = λ q. ok stopped;
  get_current_tlid = λ q. ok none;
  get_current_tl_track = λ q. ok none;
  get_stream_title = λ q. ok none;
  get_time_position = λ q. ok 0;
  play = λ tlid q. (ok tt, q);
  pause = λ q. (ok tt, q);
  resume = λ q. (ok tt, q);
  stop = λ q. (ok tt, q);
  next = λ q. (ok tt, q);
  previous = λ q. (ok tt, q);
  seek = λ ms q. (ok true, q);
}

abbrev pub numbered : ℕ → TlTrack
numbered n = record { tlid = n; track = (a_track (codes "dummy:a")).track }

swap-exchanges_example :
    ((swap queue_core
        (int_arg (pos 1) ∷ int_arg (pos 3) ∷ [])
        (numbered 5 ∷ numbered 6 ∷ numbered 7 ∷ numbered 8 ∷ [])).1
      ≡ numbered 5 ∷ numbered 8 ∷ numbered 7 ∷ numbered 6 ∷ [])
    × ((swap queue_core
          (int_arg (pos 3) ∷ int_arg (pos 1) ∷ [])
          (numbered 5 ∷ numbered 6 ∷ numbered 7 ∷ numbered 8 ∷ [])).1
        ≡ numbered 5 ∷ numbered 8 ∷ numbered 7 ∷ numbered 6 ∷ [])
swap-exchanges_example =
    swap-exchanges queue_core (λ q. q) (numbered 5 ∷ numbered 6 ∷ numbered 7 ∷ numbered 8 ∷ [])
      (numbered 5 ∷ []) (numbered 7 ∷ []) [] (numbered 6) (numbered 8) queue_laws refl

-- A position exchanged with itself moves the song in front of it.
swap_same :
    (swap queue_core
      (int_arg (pos 1) ∷ int_arg (pos 1) ∷ [])
      (numbered 5 ∷ numbered 6 ∷ numbered 7 ∷ [])).1
    ≡ numbered 6 ∷ numbered 5 ∷ numbered 7 ∷ []
unfolding swap moved
swap_same = refl

distinct : Distinct (numbered 5 ∷ numbered 6 ∷ numbered 7 ∷ [])
unfolding Distinct
distinct = (((λ e. cc), ((λ e. cc), tt)), (((λ e. cc), tt), (tt, tt)))

delete-removes_example :
    (delete queue_core
      (slice_arg (record { start = 1; stop = some 3 }) ∷ [])
      (numbered 5 ∷ numbered 6 ∷ numbered 7 ∷ [])).1
    ≡ numbered 5 ∷ []
delete-removes_example =
    delete-removes queue_core (λ q. q) (numbered 5 ∷ numbered 6 ∷ numbered 7 ∷ []) (numbered 5 ∷ [])
      (numbered 7 ∷ []) [] (numbered 6) (some 3) queue_laws refl distinct refl

abbrev window : Slice
window = record { start = 1; stop = some 9 }

window_parsed : range (codes "1:9") ≡ ok window
unfolding range
window_parsed = refl

not_all : text_eq (codes "1:9") (codes "-1") ≡ false
unfolding text_eq
not_all = refl

playlistinfo-sliced_example :
    playlistinfo queue_core silent [] (str_arg (codes "1:9") ∷ []) (numbered 5 ∷ numbered 6 ∷ [])
    ≡ (
      ok (
          tags_result
            (format_from 1 (sliced 1 (some 9) (of_tl_tracks (numbered 5 ∷ numbered 6 ∷ []))) [])),
      numbered 5 ∷ numbered 6 ∷ [],
    )
playlistinfo-sliced_example =
    playlistinfo-sliced queue_core silent [] (numbered 5 ∷ numbered 6 ∷ [])
      (numbered 5 ∷ numbered 6 ∷ []) (codes "1:9") window refl not_all window_parsed

-- The mixer is its volume; one sets what it is told, and one refuses what is no percentage.
abbrev percentage : ℤ → ℕ → Outcome Bool × ℕ
percentage (pos n) w = if leb n 100 then (ok true, n) else (ok false, w)
percentage (negsuc n) w = (ok false, w)

abbrev to_nat : ℤ → ℕ
to_nat (pos n) = n
to_nat (negsuc n) = 0

abbrev willing : Volume ℕ
willing = record { get_volume = λ w. ok (some w); set_volume = λ v w. (ok true, to_nat v) }

abbrev pub strict : Volume ℕ
strict = record { get_volume = λ w. ok (some w); set_volume = percentage }

alike : (n : ℕ) → n ≤ 100 → willing.set_volume (pos n) 90 ≡ strict.set_volume (pos n) 90
alike n h = let small : leb n 100 ≡ true = ground arith in rw small refl

volume-bounds_example :
    (setvol willing (int_arg (pos 30) ∷ []) 90 ≡ setvol strict (int_arg (pos 30) ∷ []) 90)
    × (volume willing (int_arg (pos 30) ∷ []) 90 ≡ volume strict (int_arg (pos 30) ∷ []) 90)
volume-bounds_example = volume-bounds willing strict 90 (pos 30) alike refl

ufloat_text : ufloat (codes "1.5") ≡ ok (finite false 6755399441055744 1022)
unfolding ufloat
ufloat_text = refl

in_milliseconds : milliseconds (finite false 6755399441055744 1022) ≡ ok (pos 1500)
unfolding milliseconds
in_milliseconds = refl

ufloat-milliseconds_example : (n : ℕ) × (pos 1500 ≡ pos n)
ufloat-milliseconds_example =
    ufloat-milliseconds (codes "1.5") (finite false 6755399441055744 1022) (pos 1500) ufloat_text
      in_milliseconds

float-spaces : (float (codes " +1_2.5e1 ") >>= milliseconds) ≡ ok (pos 125000)
unfolding float milliseconds
float-spaces = refl

tenth : (float (codes "0.001") >>= milliseconds) ≡ ok (pos 1)
unfolding float milliseconds
tenth = refl

twenty_nine : (float (codes "0.29") >>= milliseconds) ≡ ok (pos 290)
unfolding float milliseconds
twenty_nine = refl

rounded_down : (float (codes "1.005") >>= milliseconds) ≡ ok (pos 1004)
unfolding float milliseconds
rounded_down = refl

huge : (float (codes "1e400")) ≡ ok (infinite false)
unfolding float milliseconds
huge = refl

show_seconds-short : show_seconds 9042 ≡ ok (codes "9.042")
unfolding show_seconds
show_seconds-short = refl
