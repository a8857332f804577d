-- ===== src/CoreCommands/CurrentPlaylist/Distinct.antt =====
-- Tracks with distinct identifiers, for src/mopidy_mpd/protocol/current_playlist.py.
use mopidy_mpd.Prelude.{
  ℕ, ◌+◌, ◌≡◌, ◌≢◌, refl, sym, ap, ◌∙◌, Bool, true, false, some, List, [], ◌∷◌, ◌++◌, ◌==◌,
  if◌then◌else◌, length, All, All-map, All-split, arith,
}
use mopidy_mpd.CoreCommands.Core.{TlTrack}
use mopidy_mpd.CoreCommands.CurrentPlaylist.{tlids}
use mopidy_mpd.CoreCommands.CurrentPlaylist.Moves.{position_from, is_one_of, without}

abbrev Apart : ℕ → List TlTrack → Type 0
Apart n ts = All (λ (t : TlTrack). t.tlid ≢ n) ts

-- No two tracks have the same identifier.
unfoldable pub Distinct : List TlTrack → Type 0
Distinct [] = Unit
Distinct (t ∷ ts) = Apart t.tlid ts × Distinct ts

different : (m n : ℕ) → m ≢ n → (m == n) ≡ false
different m n h = ground (arith, h)

pub position_from-Apart :
    (n : ℕ) (before after : List TlTrack) (x : TlTrack)
    → Apart x.tlid before
    → position_from n x.tlid (before ++ (x ∷ after)) ≡ some (n + length before)
unfolding position_from
position_from-Apart n [] after x _ =
    let same : (x.tlid == x.tlid) ≡ true = ground arith in
    rw same (ap (λ (k : ℕ). some k) (omega arith))
position_from-Apart n (t ∷ before) after x (h, hs) =
    rw (different t.tlid x.tlid h)
      (position_from-Apart (n + 1) before after x hs ∙ ap (λ (k : ℕ). some k) (omega arith))

is_one_of-Apart : (n : ℕ) (ts : List TlTrack) → Apart n ts → is_one_of (tlids ts) n ≡ false
unfolding is_one_of
is_one_of-Apart n [] _ = refl
is_one_of-Apart n (t ∷ ts) (h, hs) = ground (arith, h, is_one_of-Apart n ts hs)

-- Tracks none of whose identifiers is among the others stay.
without-Apart :
    (block ts : List TlTrack)
    → All (λ (t : TlTrack). Apart t.tlid block) ts
    → without (tlids block) ts ≡ ts
unfolding without
without-Apart block [] _ = refl
without-Apart block (t ∷ ts) (h, hs) =
    rw (is_one_of-Apart t.tlid block h)
      (ap (λ (r : List TlTrack). t ∷ r) (without-Apart block ts hs))

without-append :
    (ids : List ℕ) (ts us : List TlTrack)
    → without ids (ts ++ us) ≡ without ids ts ++ without ids us
unfolding without
without-append ids [] us = refl
without-append ids (t ∷ ts) us = step (is_one_of ids t.tlid) _ _ _ (without-append ids ts us)
  where
    step :
        (b : Bool) (whole left right : List TlTrack)
        → whole ≡ left ++ right
        → (if b then whole else t ∷ whole) ≡ (if b then left else t ∷ left) ++ right
    step true whole left right e = e
    step false whole left right e = ap (λ (r : List TlTrack). t ∷ r) e

without-gone :
    (ids : List ℕ) (ts : List TlTrack)
    → All (λ (t : TlTrack). is_one_of ids t.tlid ≡ true) ts
    → without ids ts ≡ []
unfolding without
without-gone ids [] _ = refl
without-gone ids (t ∷ ts) (h, hs) = rw h (without-gone ids ts hs)

own_tlids : (ts : List TlTrack) → All (λ (t : TlTrack). is_one_of (tlids ts) t.tlid ≡ true) ts
unfolding is_one_of
own_tlids [] = tt
own_tlids (t ∷ ts) = (ground arith, All-map ts (λ u h. ground (arith, h)) (own_tlids ts))

join-Apart :
    (b : TlTrack) (bs cs : List TlTrack)
    → Apart b.tlid cs
    → All (λ (t : TlTrack). Apart t.tlid bs) cs
    → All (λ (t : TlTrack). Apart t.tlid (b ∷ bs)) cs
join-Apart b bs [] _ _ = tt
join-Apart b bs (c ∷ cs) (h, hs) (k, ks) = (((λ e. h (sym e)), k), join-Apart b bs cs hs ks)

flip-Apart :
    (bs cs : List TlTrack)
    → All (λ (t : TlTrack). Apart t.tlid cs) bs
    → All (λ (t : TlTrack). Apart t.tlid bs) cs
flip-Apart [] [] _ = tt
flip-Apart [] (c ∷ cs) _ = (tt, flip-Apart [] cs tt)
flip-Apart (b ∷ bs) cs (h, hs) = join-Apart b bs cs h (flip-Apart bs cs hs)

pub Distinct-split :
    (xs ys : List TlTrack)
    → Distinct (xs ++ ys)
    → All (λ (t : TlTrack). Apart t.tlid ys) xs × Distinct ys
unfolding Distinct
Distinct-split [] ys h = (tt, h)
Distinct-split (x ∷ xs) ys (h, hs) =
    let (apart, rest) = Distinct-split xs ys hs in
    (((All-split (λ (t : TlTrack). t.tlid ≢ x.tlid) xs ys h).1, apart), rest)

-- Where the identifiers are distinct, the tracks without those of a block are the others.
pub without-block :
    (before block after : List TlTrack)
    → Distinct (before ++ (block ++ after))
    → without (tlids block) (before ++ (block ++ after)) ≡ before ++ after
without-block before block after distinct =
    let (left, rest) = Distinct-split before (block ++ after) distinct in
    let (right, _) = Distinct-split block after rest in
    without-append (tlids block) before (block ++ after)
    ∙ rw (
      without-Apart block before (
          All-map before (λ t h. (All-split (λ (u : TlTrack). u.tlid ≢ t.tlid) block after h).0)
            left),
      without-append (tlids block) block after,
      without-gone (tlids block) block (own_tlids block),
      without-Apart block after (flip-Apart block after right),
    )
