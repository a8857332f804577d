-- ===== src/Tokenize/Spans.antt =====
-- Runs of characters that satisfy a test, as the regular expressions take them.
use mopidy_mpd.Prelude.{ℕ, Text, ◌≡◌, ◌≢◌, refl, ap, Bool, true, false, [], ◌∷◌, ◌++◌, All, arith}
use mopidy_mpd.Tokenize.{newline, take_while, drop_while, until_newline}

abbrev pub AllTrue : (ℕ → Bool) → Text → Type 0
AllTrue p = All (λ c. p c ≡ true)

-- The text is empty or its first character fails the test.
abbrev pub Stops : (ℕ → Bool) → Text → Type 0
Stops p [] = Unit
Stops p (c ∷ s) = p c ≡ false

abbrev pub NoNewline : Text → Type 0
NoNewline = All (λ c. c ≢ newline)

module _ (p : ℕ → Bool) where
  pub take_while-append :
      (w rest : Text) → AllTrue p w → Stops p rest → take_while p (w ++ rest) ≡ w
  unfolding take_while
  take_while-append [] [] _ h = refl
  take_while-append [] (c ∷ s) _ h = rw h
  take_while-append (c ∷ w) rest (hc, hw) h =
      rw hc (ap (λ r. c ∷ r) (take_while-append w rest hw h))

  pub drop_while-append :
      (w rest : Text) → AllTrue p w → Stops p rest → drop_while p (w ++ rest) ≡ rest
  unfolding drop_while
  drop_while-append [] [] _ h = refl
  drop_while-append [] (c ∷ s) _ h = rw h
  drop_while-append (c ∷ w) rest (hc, hw) h = rw hc (drop_while-append w rest hw h)

  pub take-drop_while : (s : Text) → take_while p s ++ drop_while p s ≡ s
  unfolding take_while drop_while
  take-drop_while [] = refl
  take-drop_while (c ∷ s) = ground (arith, take-drop_while s)

  pub take_while-AllTrue : (s : Text) → AllTrue p (take_while p s)
  unfolding take_while
  take_while-AllTrue [] = tt
  take_while-AllTrue (c ∷ s) = ground (arith, take_while-AllTrue s)

  pub drop_while-Stops : (s : Text) → Stops p (drop_while p s)
  unfolding drop_while
  drop_while-Stops [] = tt
  drop_while-Stops (c ∷ s) = ground (arith, drop_while-Stops s)

pub until_newline_all : (s : Text) → NoNewline s → until_newline s ≡ s
unfolding until_newline take_while
until_newline_all [] _ = refl
until_newline_all (c ∷ s) (hc, hs) = ground (arith, until_newline_all s hs)
