-- ===== src/CoreCommands/Playback/Volumes.antt =====
-- src/mopidy_mpd/protocol/playback.py: `setvol` and `volume`.
use mopidy_mpd.Prelude.{
  ℕ, ◌≤◌, ◌≡◌, refl, ap, ◌∙◌, ℤ, pos, negsuc, lt_int, add_int, min_int, max_int, codes, Bool, true,
  false, ◌||◌, Option, none, some, List, [], ◌∷◌, if◌then◌else◌, ltb, Bool-cases, inl, inr, arith,
}
use mopidy_mpd.Exceptions.{mpd_error, arg_error, system_error}
use mopidy_mpd.Outcome.{Outcome, ok, raised, diverged}
use mopidy_mpd.Protocol.{Result, nothing, Arg, int_arg}
use mopidy_mpd.CoreCommands.Core.{Volume, K, pure, throw, ask, continue, bad_call, ◌>>=◌}

-- `min(max(0, volume), 100)`
unfoldable pub percentage : ℤ → ℤ
percentage volume = min_int (max_int (pos 0) volume) (pos 100)

-- A change outside -100 to 100.
abbrev pub out_of_range : ℤ → Bool
out_of_range change = lt_int change (negsuc 99) || lt_int (pos 100) change

module _ {W : Type 0} where
  unfoldable pub check_volume : Bool → K W Result
  check_volume true = pure nothing
  check_volume false = throw (mpd_error system_error (codes "problems setting volume") none)

module _ {W : Type 0} (mixer : Volume W) where
  unfoldable pub set_percentage : ℤ → K W Result
  unfolding percentage check_volume
  set_percentage volume = do success ← mixer.set_volume (percentage volume); check_volume success

  unfoldable pub setvol : List Arg → K W Result
  unfolding set_percentage
  setvol (int_arg volume ∷ []) = set_percentage volume
  setvol _ = bad_call

  unfoldable pub change_from : ℤ → Option ℕ → K W Result
  unfolding set_percentage
  change_from change none = throw (mpd_error system_error (codes "problems setting volume") none)
  change_from change (some old_volume) = set_percentage (add_int (pos old_volume) change)

  unfoldable pub volume : List Arg → K W Result
  unfolding change_from
  volume (int_arg change ∷ []) =
      if out_of_range change
      then throw (mpd_error arg_error (codes "Invalid volume value") none)
      else do old_volume ← ask mixer.get_volume; change_from change old_volume
  volume _ = bad_call

percentage_bounds : (v : ℤ) → (n : ℕ) × (n ≤ 100) × (percentage v ≡ pos n)
unfolding percentage
percentage_bounds (negsuc n) = (0, omega arith, refl)
percentage_bounds (pos n) = elim (Bool-cases (ltb 0 n)) [
  | inr e ↦ (0, omega arith, rw e)
  | inl e ↦ elim (Bool-cases (ltb 100 n)) [
    | inl e' ↦ (100, omega arith, rw (e, e'))
    | inr e' ↦ (n, ground arith, rw (e, e'))
  ]
]

module _ {W : Type 0} (a b : Volume W) (w : W)
    (agree : (n : ℕ) → n ≤ 100 → a.set_volume (pos n) w ≡ b.set_volume (pos n) w) where
  set_percentage-agree : (v : ℤ) → set_percentage a v w ≡ set_percentage b v w
  unfolding set_percentage
  set_percentage-agree v =
      let (n, small, e) = percentage_bounds v in
      ap (λ ((r, w') : Outcome Bool × W). continue r check_volume w') (rw e (agree n small))

  change_from-agree :
      (change : ℤ) (old : Option ℕ) → change_from a change old w ≡ change_from b change old w
  unfolding change_from
  change_from-agree change none = refl
  change_from-agree change (some old) = set_percentage-agree (add_int (pos old) change)

  change-agree :
      (change : ℤ) (old : Outcome (Option ℕ))
      → continue old (change_from a change) w ≡ continue old (change_from b change) w
  change-agree change (ok old) = change_from-agree change old
  change-agree change (raised e) = refl
  change-agree change diverged = refl

-- setvol and volume ask the mixer for volumes from 0 to 100 only: two mixers that give the same
-- volume, and do the same on each of those, are not told apart by them.
pub volume-bounds :
    {W : Type 0} (a b : Volume W) (w : W) (number : ℤ)
    → ((n : ℕ) → n ≤ 100 → a.set_volume (pos n) w ≡ b.set_volume (pos n) w)
    → a.get_volume w ≡ b.get_volume w
    → (setvol a (int_arg number ∷ []) w ≡ setvol b (int_arg number ∷ []) w)
      × (volume a (int_arg number ∷ []) w ≡ volume b (int_arg number ∷ []) w)
unfolding setvol volume
volume-bounds {W} a b w number agree same =
    (set_percentage-agree a b w agree number, by_range (out_of_range number))
  where
    by_range :
        (wide : Bool)
        → (if wide
              then throw (mpd_error arg_error (codes "Invalid volume value") none)
              else (do old_volume ← ask a.get_volume; change_from a number old_volume))
            w
          ≡ (if wide
                then throw (mpd_error arg_error (codes "Invalid volume value") none)
                else (do old_volume ← ask b.get_volume; change_from b number old_volume))
              w
    by_range true = refl
    by_range false =
        change-agree a b w agree number (a.get_volume w)
        ∙ ap (λ (o : Outcome (Option ℕ)). continue o (change_from b number) w) same
