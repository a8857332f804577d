-- ===== src/CoreCommands/CurrentPlaylist/Identifiers.antt =====
-- src/mopidy_mpd/protocol/current_playlist.py: `delete`, `moveid` and `swapid` on the tracklist as a
-- list.
use mopidy_mpd.Prelude.{
  ℕ, suc, ◌+◌, ◌≡◌, refl, sym, ap, ◌∙◌, subst, pos, Option, none, some, List, [], ◌∷◌, ◌++◌, length,
  length-append, append_assoc, All-map, arith,
}
use mopidy_mpd.Outcome.{Outcome, ok}
use mopidy_mpd.Protocol.{Result, int_arg, slice_arg}
use mopidy_mpd.Translator.{end_or}
use mopidy_mpd.CoreCommands.Core.{TlTrack, Tracklist, continue, continue-ok}
use mopidy_mpd.CoreCommands.CurrentPlaylist.{
  tlids, delete, delete_to, remove_all, end_of, moveid, move_from, swap, swapid, swap_found,
}
use mopidy_mpd.CoreCommands.CurrentPlaylist.Moves.{
  take-append, drop-append, QueueLaws, position_of, move-parts, swap-exchanges, plus_minus,
}
use mopidy_mpd.CoreCommands.CurrentPlaylist.Distinct.{
  Distinct, position_from-Apart, Distinct-split, without-block,
}

module _ {W : Type 0} (tracklist : Tracklist W) (queue : W → List TlTrack)
    (laws : QueueLaws tracklist queue) where
  index-found :
      (w : W) (before after : List TlTrack) (x : TlTrack)
      → queue w ≡ before ++ (x ∷ after)
      → Distinct (before ++ (x ∷ after))
      → tracklist.index_tlid (some x.tlid) w ≡ ok (some (length before))
  unfolding position_of
  index-found w before after x whole distinct =
      let (apart, _) = Distinct-split before (x ∷ after) distinct in
      laws.index_tlid_lem x.tlid w
      ∙ ap (λ (o : Option ℕ). ok o)
          (rw whole (
            position_from-Apart 0 before after x (All-map before (λ t (h, _). λ e. h (sym e)) apart)
            ∙ ap (λ (k : ℕ). some k) (omega arith)))

  end_of-queue :
      (w : W) (stop : Option ℕ) → end_of tracklist stop w ≡ (ok (end_or (length (queue w)) stop), w)
  unfolding end_of
  end_of-queue w none = ap (λ (o : Outcome ℕ). (o, w)) (laws.length_lem w)
  end_of-queue w (some stop) = refl

  slice-block :
      (w : W) (before block after : List TlTrack)
      → queue w ≡ before ++ (block ++ after)
      → tracklist.slice (pos (length before)) (pos (length before + length block)) w ≡ ok block
  slice-block w before block after whole =
      laws.slice_lem (length before) (length before + length block) w
      ∙ rw (whole, drop-append before (block ++ after), plus_minus (length before) (length block))
          (ap (λ (t : List TlTrack). ok t) (take-append block after))

  remove_all-block :
      (w : W) (before bs after : List TlTrack) (b : TlTrack)
      → queue w ≡ before ++ (b ∷ bs ++ after)
      → Distinct (before ++ (b ∷ bs ++ after))
      → queue (remove_all tracklist (b ∷ bs) w).1 ≡ before ++ after
  unfolding remove_all
  remove_all-block w before bs after b whole distinct =
      laws.remove_lem (tlids (b ∷ bs)) w ∙ rw whole (without-block before (b ∷ bs) after distinct)

-- delete takes out exactly the songs of its range, where no two songs of the tracklist share an
-- identifier: a range with an end, and an open range up to the last song.
pub delete-removes :
    {W : Type 0} (tracklist : Tracklist W) (queue : W → List TlTrack) (w : W)
    (before bs after : List TlTrack) (b : TlTrack) (stop : Option ℕ)
    → QueueLaws tracklist queue
    → queue w ≡ before ++ (b ∷ bs ++ after)
    → Distinct (before ++ (b ∷ bs ++ after))
    → end_or (length (queue w)) stop ≡ length before + length (b ∷ bs)
    → queue (delete tracklist (slice_arg (record { start = length before; stop = stop }) ∷ []) w).1
      ≡ before ++ after
unfolding delete delete_to
delete-removes {W} tracklist queue w before bs after b stop laws whole distinct ends =
    ap (λ ((r, w') : Outcome ℕ × W). queue (continue r (delete_to tracklist (length before)) w').1)
      (end_of-queue tracklist queue laws w stop)
    ∙ ap (λ (n : ℕ). queue (delete_to tracklist (length before) n w).1) ends
    ∙ ap (λ (p : Outcome Result × W). queue p.1)
        (continue-ok (remove_all tracklist) w
          (slice-block tracklist queue laws w before (b ∷ bs) after whole))
    ∙ remove_all-block tracklist queue laws w before bs after b whole distinct

-- moveid moves the song with the identifier so that it stands behind the given number of the other
-- songs, which keep their order, where no two songs share an identifier.
pub moveid-moves :
    {W : Type 0} (tracklist : Tracklist W) (queue : W → List TlTrack) (w : W)
    (before after to_left to_right : List TlTrack) (x : TlTrack)
    → QueueLaws tracklist queue
    → queue w ≡ before ++ (x ∷ after)
    → Distinct (before ++ (x ∷ after))
    → before ++ after ≡ to_left ++ to_right
    → queue (moveid tracklist (int_arg (pos x.tlid) ∷ int_arg (pos (length to_left)) ∷ []) w).1
      ≡ to_left ++ (x ∷ to_right)
unfolding moveid move_from
moveid-moves {W} tracklist queue w before after to_left to_right x laws whole distinct same =
    ap (λ (p : Outcome Result × W). queue p.1)
      (continue-ok (move_from tracklist (length to_left)) w
        (index-found tracklist queue laws w before after x whole distinct))
    ∙ move-parts tracklist queue laws (length before) (length before + 1) (length to_left) before
        (x ∷ []) after to_left to_right w whole same refl (omega arith) refl (omega arith)

-- swapid exchanges the songs with the two identifiers and leaves the others where they are, where no
-- two songs share an identifier.
pub swapid-exchanges :
    {W : Type 0} (tracklist : Tracklist W) (queue : W → List TlTrack) (w : W)
    (xs ys zs : List TlTrack) (x y : TlTrack)
    → QueueLaws tracklist queue
    → queue w ≡ xs ++ (x ∷ ys ++ (y ∷ zs))
    → Distinct (xs ++ (x ∷ ys ++ (y ∷ zs)))
    → (queue (swapid tracklist (int_arg (pos x.tlid) ∷ int_arg (pos y.tlid) ∷ []) w).1
        ≡ xs ++ (y ∷ ys ++ (x ∷ zs)))
      × (queue (swapid tracklist (int_arg (pos y.tlid) ∷ int_arg (pos x.tlid) ∷ []) w).1
          ≡ xs ++ (y ∷ ys ++ (x ∷ zs)))
unfolding swapid swap_found swap
swapid-exchanges {W} tracklist queue w xs ys zs x y laws whole distinct =
    let regrouped = append_assoc xs (x ∷ ys) (y ∷ zs) in
    let one = index-found tracklist queue laws w xs (ys ++ (y ∷ zs)) x whole distinct in
    let two =
      index-found tracklist queue laws w (xs ++ (x ∷ ys)) zs y (whole ∙ sym regrouped)
        (subst Distinct (sym regrouped) distinct)
      ∙ ap (λ (n : ℕ). ok (some n)) (length-append xs (x ∷ ys)) in
    let (up, down) = swap-exchanges tracklist queue w xs ys zs x y laws whole in
    (
      ap (λ (p : Outcome Result × W). queue p.1)
            (continue-ok _ w one ∙ continue-ok (swap_found tracklist (some (length xs))) w two)
          ∙ up,
      ap (λ (p : Outcome Result × W). queue p.1)
            (continue-ok _ w two
              ∙ continue-ok (swap_found tracklist (some (length xs + suc (length ys)))) w one)
          ∙ down,
    )
