-- ===== src/CoreCommands/CurrentPlaylist/Windows.antt =====
-- src/mopidy_mpd/protocol/current_playlist.py: what `playlistinfo` shows.
use mopidy_mpd.Prelude.{
  ℕ, zero, suc, ◌-◌, ◌≤◌, ◌<◌, ◌≡◌, refl, sym, ap, ◌∙◌, Text, codes, Bool, true, false, Option,
  none, some, List, [], ◌∷◌, ◌==◌, ltb, if◌then◌else◌, length, length-drop, length-take, take, drop,
  Bool-cases, inl, inr, text_eq, arith,
}
use mopidy_mpd.Exceptions.{mpd_error, arg_error}
use mopidy_mpd.Outcome.{ok, raised, ack}
use mopidy_mpd.Convert.{Slice, range}
use mopidy_mpd.Protocol.{str_arg}
use mopidy_mpd.Translator.{Obj, end_or, format_from, tracks_to_mpd_format}
use mopidy_mpd.CoreCommands.Core.{TlTrack, of_tl_tracks, Tracklist, Playback, throw, continue-ok}
use mopidy_mpd.CoreCommands.CurrentPlaylist.{tags_result}
use mopidy_mpd.CoreCommands.CurrentPlaylist.Listings.{
  playlistinfo, window_of, show_slice, show_window, show_tracks, clipped,
}

length-of_tl_tracks : (ts : List TlTrack) → length (of_tl_tracks ts) ≡ length ts
length-of_tl_tracks [] = refl
length-of_tl_tracks (t ∷ ts) = ap (λ (n : ℕ). suc n) (length-of_tl_tracks ts)

module _ {ℓ} {A : Type ℓ} where
  pub take_all : (n : ℕ) (xs : List A) → length xs ≤ n → take n xs ≡ xs
  take_all zero [] h = refl
  take_all zero (x ∷ xs) h = absurd (omega arith)
  take_all (suc n) [] h = refl
  take_all (suc n) (x ∷ xs) h = ap (λ (r : List A). x ∷ r) (take_all n xs (omega arith))

  -- `xs[start:stop]`
  unfoldable pub sliced : ℕ → Option ℕ → List A → List A
  sliced start stop xs = take (end_or (length xs) stop - start) (drop start xs)

  -- An end behind the list may be left out.
  sliced-beyond :
      (start stop : ℕ) (xs : List A)
      → length xs < stop
      → sliced start none xs ≡ sliced start (some stop) xs
  unfolding sliced
  sliced-beyond start stop xs h =
      take_all (length xs - start) (drop start xs) (omega (arith, length-drop start xs))
      ∙ sym (take_all (stop - start) (drop start xs) (omega (arith, length-drop start xs)))

  length-sliced :
      (start stop : ℕ) (xs : List A)
      → stop ≤ length xs
      → length (take (stop - start) (drop start xs)) ≡ stop - start
  length-sliced start stop xs h =
      length-take (stop - start) (drop start xs) (omega (arith, length-drop start xs))

-- A window that ends within the tracks passes the assertion.
tracks_to_mpd_format-sliced :
    (tracks : List Obj) (tagtypes : List Text) (start : ℕ) (stop : Option ℕ)
    → end_or (length tracks) stop ≤ length tracks
    → tracks_to_mpd_format tracks tagtypes start stop
      ≡ ok (format_from start (sliced start stop tracks) tagtypes)
unfolding tracks_to_mpd_format sliced
tracks_to_mpd_format-sliced tracks tagtypes start stop h =
    let last = end_or (length tracks) stop in
    let fits : (length (take (last - start) (drop start tracks)) == (last - start)) ≡ true =
      ground (arith, length-sliced start last tracks h) in
    rw fits

module _ {W : Type 0} (tracklist : Tracklist W) (playback : Playback W) (tagtypes : List Text)
    (ts : List TlTrack) (w : W) where
  show_tracks-sliced :
      (start : ℕ) (stop : Option ℕ)
      → end_or (length ts) stop ≤ length ts
      → show_tracks tracklist playback tagtypes ts start stop w
        ≡ (ok (tags_result (format_from start (sliced start stop (of_tl_tracks ts)) tagtypes)), w)
  unfolding show_tracks
  show_tracks-sliced start stop h =
      continue-ok (λ tags v. (ok (tags_result tags), v)) w
        (tracks_to_mpd_format-sliced (of_tl_tracks ts) tagtypes start stop
          (rw (length-of_tl_tracks ts) h))

  clipped-sliced :
      (start : ℕ) (stop : Option ℕ)
      → show_tracks tracklist playback tagtypes ts start
          (clipped tracklist playback tagtypes stop (length ts))
          w
        ≡ (ok (tags_result (format_from start (sliced start stop (of_tl_tracks ts)) tagtypes)), w)
  clipped-sliced start none = show_tracks-sliced start none (omega arith)
  clipped-sliced start (some stop) = elim (Bool-cases (ltb (length ts) stop)) [
    | inl e ↦
        let beyond : length (of_tl_tracks ts) < stop = ground (arith, length-of_tl_tracks ts) in
        rw e (
          show_tracks-sliced start none (omega arith)
          ∙ ap (λ (objs : List Obj). (ok (tags_result (format_from start objs tagtypes)), w))
              (sliced-beyond start stop (of_tl_tracks ts) beyond))
    | inr e ↦ rw e (show_tracks-sliced start (some stop) (ground arith))
  ]

-- playlistinfo with a range shows exactly that slice of the tracklist, each song with its position,
-- or answers with the ACK Bad song index where the range starts behind the end: an end behind the
-- last song is no error, and the assertion of the translator never fails.
pub playlistinfo-sliced :
    {W : Type 0} (tracklist : Tracklist W) (playback : Playback W) (tagtypes : List Text)
    (ts : List TlTrack) (w : W) (parameter : Text) (window : Slice)
    → tracklist.get_tl_tracks w ≡ ok ts
    → text_eq parameter (codes "-1") ≡ false
    → range parameter ≡ ok window
    → playlistinfo tracklist playback tagtypes (str_arg parameter ∷ []) w ≡ (
      if ltb (length ts) window.start
          then raised (ack (mpd_error arg_error (codes "Bad song index") none))
          else ok (
              tags_result (
                format_from window.start
                  (sliced window.start window.stop (of_tl_tracks ts))
                  tagtypes)),
      w,
    )
unfolding playlistinfo window_of show_slice show_window
playlistinfo-sliced tracklist playback tagtypes ts w parameter window all proper parsed =
    rw proper (
      continue-ok (show_slice tracklist playback tagtypes) w parsed
      ∙ continue-ok (show_window tracklist playback tagtypes window) w all
      ∙ by_start (ltb (length ts) window.start))
  where
    by_start :
        (b : Bool)
        → (if b
              then throw (mpd_error arg_error (codes "Bad song index") none)
              else show_tracks tracklist playback tagtypes ts window.start
                  (clipped tracklist playback tagtypes window.stop (length ts)))
            w
          ≡ (
            if b
                then raised (ack (mpd_error arg_error (codes "Bad song index") none))
                else ok (
                    tags_result (
                      format_from window.start
                        (sliced window.start window.stop (of_tl_tracks ts))
                        tagtypes)),
            w,
          )
    by_start true = refl
    by_start false = clipped-sliced tracklist playback tagtypes ts w window.start window.stop
