-- ===== src/CoreCommands/CurrentPlaylist/Moves.antt =====
-- src/mopidy_mpd/protocol/current_playlist.py: `swap`, `move` and their kin on the tracklist as a list.
-- The description of `move` is the one of Mopidy's `TracklistController.move`.
use mopidy_mpd.Prelude.{
  ℕ, suc, ◌+◌, ◌-◌, ◌≤◌, ◌<◌, ◌≡◌, refl, sym, ap, ◌∙◌, ℤ, pos, negsuc, add_int, Bool, true, false,
  Option, none, some, List, [], ◌∷◌, ◌++◌, ◌==◌, ◌||◌, ltb, if◌then◌else◌, length, length-append,
  take, drop, append_assoc, arith,
}
use mopidy_mpd.Outcome.{ok}
use mopidy_mpd.Protocol.{int_arg}
use mopidy_mpd.CoreCommands.Core.{TlTrack, Tracklist}
use mopidy_mpd.CoreCommands.CurrentPlaylist.{swap, swap_positions, swap_sorted}

pub plus_minus : (m n : ℕ) → m + n - m ≡ n
plus_minus m n = omega arith

module _ {ℓ} {A : Type ℓ} where
  -- The elements from `start` up to `stop`, taken out and put back behind the first `to` others.
  unfoldable pub moved : ℕ → ℕ → ℕ → List A → List A
  moved start stop to xs =
      let rest = take start xs ++ drop stop xs in
      take to rest ++ (take (stop - start) (drop start xs) ++ drop to rest)

  pub take-append : (xs ys : List A) → take (length xs) (xs ++ ys) ≡ xs
  take-append [] ys = refl
  take-append (x ∷ xs) ys = ap (λ r. x ∷ r) (take-append xs ys)

  pub drop-append : (xs ys : List A) → drop (length xs) (xs ++ ys) ≡ ys
  drop-append [] ys = refl
  drop-append (x ∷ xs) ys = drop-append xs ys

  drop-append-append : (xs ys zs : List A) → drop (length xs + length ys) (xs ++ (ys ++ zs)) ≡ zs
  drop-append-append xs ys zs =
      ap (λ (n : ℕ). drop n (xs ++ (ys ++ zs))) (sym (length-append xs ys))
      ∙ ap (λ (t : List A). drop (length (xs ++ ys)) t) (sym (append_assoc xs ys zs))
      ∙ drop-append (xs ++ ys) zs

  pub moved-parts :
      (before block after to_left to_right : List A)
      → before ++ after ≡ to_left ++ to_right
      → moved
          (length before)
          (length before + length block)
          (length to_left)
          (before ++ (block ++ after))
        ≡ to_left ++ (block ++ to_right)
  unfolding moved
  moved-parts before block after to_left to_right same = rw (
    take-append before (block ++ after),
    drop-append before (block ++ after),
    drop-append-append before block after,
    same,
    plus_minus (length before) (length block),
    take-append to_left to_right,
    drop-append to_left to_right,
    take-append block after,
  )

before_pos : (n : ℕ) → 0 < n → add_int (pos n) (negsuc 0) ≡ pos (n - 1)
before_pos n h = ground arith

unfoldable pub position_from : ℕ → ℕ → List TlTrack → Option ℕ
position_from n tlid [] = none
position_from n tlid (t ∷ ts) = if t.tlid == tlid then some n else position_from (n + 1) tlid ts

-- Where the first track with an identifier stands.
unfoldable pub position_of : ℕ → List TlTrack → Option ℕ
unfolding position_from
position_of = position_from 0

unfoldable pub is_one_of : List ℕ → ℕ → Bool
is_one_of [] n = false
is_one_of (m ∷ ms) n = (m == n) || is_one_of ms n

-- The tracks with none of the identifiers.
unfoldable pub without : List ℕ → List TlTrack → List TlTrack
unfolding is_one_of
without ids [] = []
without ids (t ∷ ts) = let rest = without ids ts in if is_one_of ids t.tlid then rest else t ∷ rest

-- What the core's tracklist does, on the list of its tracks.
pub record QueueLaws {W : Type 0} (tracklist : Tracklist W) (queue : W → List TlTrack)
    : Type 0 where
  pub length_lem : (w : W) → tracklist.get_length w ≡ ok (length (queue w))
  pub slice_lem :
      (start stop : ℕ) (w : W)
      → tracklist.slice (pos start) (pos stop) w ≡ ok (take (stop - start) (drop start (queue w)))
  pub index_tlid_lem :
      (tlid : ℕ) (w : W) → tracklist.index_tlid (some tlid) w ≡ ok (position_of tlid (queue w))
  pub remove_lem : (ids : List ℕ) (w : W) → queue (tracklist.remove ids w).1 ≡ without ids (queue w)
  pub move_lem :
      (start stop to : ℕ) (w : W)
      → start < stop
      → stop ≤ length (queue w)
      → to ≤ length (queue w)
      → queue (tracklist.move (pos start) (pos stop) to w).1 ≡ moved start stop to (queue w)

module _ {W : Type 0} (tracklist : Tracklist W) (queue : W → List TlTrack)
    (laws : QueueLaws tracklist queue) where
  -- A move whose positions are the lengths of parts of the tracklist.
  pub move-parts :
      (start stop to : ℕ) (before block after to_left to_right : List TlTrack) (w : W)
      → queue w ≡ before ++ (block ++ after)
      → before ++ after ≡ to_left ++ to_right
      → start ≡ length before
      → stop ≡ length before + length block
      → to ≡ length to_left
      → 0 < length block
      → queue (tracklist.move (pos start) (pos stop) to w).1 ≡ to_left ++ (block ++ to_right)
  move-parts start stop to before block after to_left to_right w whole same at until target filled =
      let sizes : length (queue w) ≡ length before + (length block + length after) =
        ap length whole
        ∙ length-append before (block ++ after)
        ∙ ap (λ (n : ℕ). length before + n) (length-append block after) in
      let rest : length before + length after ≡ length to_left + length to_right =
        sym (length-append before after) ∙ ap length same ∙ length-append to_left to_right in
      laws.move_lem start stop to w (omega arith) (omega arith) (omega arith)
      ∙ rw (whole, at, until, target) (moved-parts before block after to_left to_right same)

  module _ (xs ys zs : List TlTrack) (x y : TlTrack) where
    abbrev position2 : ℕ
    position2 = length xs + suc (length ys)

    -- The tracks behind the first of the two moves.
    between : List TlTrack
    between = (xs ++ (ys ++ (y ∷ []))) ++ (x ∷ zs)

    regroup : (tail : List TlTrack) → (xs ++ (ys ++ (y ∷ []))) ++ tail ≡ xs ++ (ys ++ (y ∷ tail))
    regroup tail =
        append_assoc xs (ys ++ (y ∷ [])) tail
        ∙ ap (λ (t : List TlTrack). xs ++ t) (append_assoc ys (y ∷ []) tail)

    size_between : length (xs ++ (ys ++ (y ∷ []))) ≡ position2
    size_between = omega (arith, length-append xs (ys ++ (y ∷ [])), length-append ys (y ∷ []))

    first_move :
        (w : W)
        → queue w ≡ xs ++ (x ∷ ys ++ (y ∷ zs))
        → queue (tracklist.move (pos (length xs)) (pos (length xs + 1)) position2 w).1 ≡ between
    unfolding between
    first_move w whole =
        move-parts (length xs) (length xs + 1) position2 xs (x ∷ []) (ys ++ (y ∷ zs))
          (xs ++ (ys ++ (y ∷ []))) zs w whole (sym (regroup zs)) refl (omega arith)
          (sym size_between) (omega arith)

    second_move :
        (w : W)
        → queue w ≡ between
        → queue
            (tracklist.move (add_int (pos position2) (negsuc 0)) (pos position2) (length xs) w).1
          ≡ xs ++ (y ∷ ys ++ (x ∷ zs))
    unfolding between
    second_move w whole =
        ap (λ (z : ℤ). queue (tracklist.move z (pos position2) (length xs) w).1)
          (before_pos position2 (omega arith))
        ∙ move-parts (position2 - 1) position2 (length xs) (xs ++ ys) (y ∷ []) (x ∷ zs) xs
            (ys ++ (x ∷ zs)) w (whole ∙ regroup (x ∷ zs) ∙ sym (append_assoc xs ys (y ∷ (x ∷ zs))))
            (append_assoc xs ys (x ∷ zs)) (omega (arith, length-append xs ys))
            (omega (arith, length-append xs ys)) refl (omega arith)

    pub swap_sorted-exchanges :
        (w : W)
        → queue w ≡ xs ++ (x ∷ ys ++ (y ∷ zs))
        → queue (swap_sorted tracklist (length xs) position2 w).1 ≡ xs ++ (y ∷ ys ++ (x ∷ zs))
    unfolding swap_sorted
    swap_sorted-exchanges w whole =
        second_move (tracklist.move (pos (length xs)) (pos (length xs + 1)) position2 w).1
          (first_move w whole)

-- swap exchanges the songs at two different positions and leaves the others where they are, in
-- whichever order it is given the positions, where the core moves as it says it does.
pub swap-exchanges :
    {W : Type 0} (tracklist : Tracklist W) (queue : W → List TlTrack) (w : W)
    (xs ys zs : List TlTrack) (x y : TlTrack)
    → QueueLaws tracklist queue
    → queue w ≡ xs ++ (x ∷ ys ++ (y ∷ zs))
    → (queue
          (swap tracklist
            (int_arg (pos (length xs)) ∷ int_arg (pos (length xs + suc (length ys))) ∷ [])
            w).1
        ≡ xs ++ (y ∷ ys ++ (x ∷ zs)))
      × (queue
            (swap tracklist
              (int_arg (pos (length xs + suc (length ys))) ∷ int_arg (pos (length xs)) ∷ [])
              w).1
          ≡ xs ++ (y ∷ ys ++ (x ∷ zs)))
unfolding swap swap_positions
swap-exchanges tracklist queue w xs ys zs x y laws whole =
    let done = swap_sorted-exchanges tracklist queue laws xs ys zs x y w whole in
    let up : ltb (length xs + suc (length ys)) (length xs) ≡ false = ground arith in
    let down : ltb (length xs) (length xs + suc (length ys)) ≡ true = ground arith in
    (rw up done, rw down done)
