-- ===== src/Tokenize/Total.antt =====
-- The loop of `split` in src/mopidy_mpd/tokenize.py, and what a match of `PARAM_RE` leaves.
use mopidy_mpd.Prelude.{
  ℕ, zero, suc, ◌≤◌, ◌<◌, Text, ◌≢◌, Bool, true, false, not, Option, none, some, List, [], ◌∷◌,
  ◌++◌, ◌==◌, length, is_empty, arith, Bool-cases, inl, inr,
}
use mopidy_mpd.Outcome.{Outcome, raised, ack, diverged}
use mopidy_mpd.Exceptions.{mpd_error, arg_error}
use mopidy_mpd.Tokenize.{
  is_space, quote, newline, take_while, drop_while, until_newline, separator, backslash,
  match_unquoted, scan_quoted, match_closed, match_param, determine_error_message, split_params,
  split_match, match_word, split, split_lem,
}

take_while-le : (p : ℕ → Bool) (s : Text) → length (take_while p s) ≤ length s
unfolding take_while
take_while-le p [] = omega arith
take_while-le p (c ∷ s) = ground (arith, take_while-le p s)

drop_while-le : (p : ℕ → Bool) (s : Text) → length (drop_while p s) ≤ length s
unfolding drop_while
drop_while-le p [] = omega arith
drop_while-le p (c ∷ s) = ground (arith, drop_while-le p s)

-- A match leaves fewer than `n` characters, and a separator at most `n`.
abbrev pub Leaves : ℕ → Option (Text × Text) → Type 0
Leaves n none = Unit
Leaves n (some (w, r)) = length r < n

abbrev LeavesAtMost : ℕ → Option Text → Type 0
LeavesAtMost n none = Unit
LeavesAtMost n (some r) = length r ≤ n

separator-LeavesAtMost : (s : Text) → LeavesAtMost (length s) (separator s)
unfolding separator until_newline
separator-LeavesAtMost [] = omega arith
separator-LeavesAtMost (c ∷ s) = ground (
  arith,
  take_while-le (λ (d : ℕ). not (d == newline)) (drop_while is_space s),
  drop_while-le is_space s,
)

match_unquoted-Leaves : (s : Text) → Leaves (length s) (match_unquoted s)
unfolding match_unquoted
match_unquoted-Leaves [] = tt
match_unquoted-Leaves (c ∷ s) = ground (arith, match_unquoted-Leaves s, separator-LeavesAtMost s)

scan_quoted-Leaves : (b : Bool) (s : Text) → Leaves (length s) (scan_quoted b s)
unfolding scan_quoted
scan_quoted-Leaves true [] = tt
scan_quoted-Leaves false [] = tt
scan_quoted-Leaves true (c ∷ s) = ground (arith, scan_quoted-Leaves false s)
scan_quoted-Leaves false (c ∷ s) = ground (arith, scan_quoted-Leaves (c == backslash) s)

match_closed-Leaves : (n : ℕ) (m : Option (Text × Text)) → Leaves n m → Leaves n (match_closed m)
unfolding match_closed
match_closed-Leaves n none h = tt
match_closed-Leaves n (some (body, after)) h = ground (arith, separator-LeavesAtMost after)

Leaves-suc : (n : ℕ) (m : Option (Text × Text)) → Leaves n m → Leaves (suc n) m
Leaves-suc n none h = tt
Leaves-suc n (some (w, r)) h = omega arith

pub match_param-Leaves : (s : Text) → Leaves (length s) (match_param s)
unfolding match_param
match_param-Leaves [] = tt
match_param-Leaves (c ∷ s) = elim (Bool-cases (c == quote)) [
  | inl quoted ↦ rw quoted (
      match_closed-Leaves (suc (length s)) (scan_quoted false s)
        (Leaves-suc (length s) (scan_quoted false s) (scan_quoted-Leaves false s)))
  | inr plain ↦ rw plain (match_unquoted-Leaves (c ∷ s))
]

-- A bound that is at least the remainder's length is enough.
split_params-total :
    (fuel : ℕ) (command : Text) (result : List Text) (s : Text)
    → length s ≤ fuel
    → split_params fuel command result s ≢ diverged
unfolding split_params
split_params-total fuel command result [] h = λ e. cc
split_params-total zero command result (c ∷ s) h = absurd (omega arith)
split_params-total (suc fuel) command result (c ∷ s) h =
    next (match_param (c ∷ s)) (match_param-Leaves (c ∷ s))
      (λ param r le. split_params-total fuel command (result ++ param ∷ []) r le)
  where
    next :
        (m : Option (Text × Text))
        → Leaves (suc (length s)) m
        → ((param r : Text)
            → length r ≤ fuel
            → split_params fuel command (result ++ param ∷ []) r ≢ diverged)
        → (elim m as (λ _. Outcome (List Text)) [
          | none ↦
              raised (ack (mpd_error arg_error (determine_error_message (c ∷ s)) (some command)))
          | some (param, remainder) ↦ split_params fuel command (result ++ param ∷ []) remainder
        ])
          ≢ diverged
    next none _ _ = λ e. cc
    next (some (param, r)) shorter ih = ih param r (omega arith)

split_match-total : (m : Option (Text × Text × Text)) → split_match m ≢ diverged
unfolding split_match
split_match-total none = λ e. cc
split_match-total (some ([], command, r)) =
    split_params-total (length r) command (command ∷ []) r (omega arith)
split_match-total (some (c ∷ ws, command, r)) = λ e. cc

-- `split` returns or raises on every line: the bound on the rounds of its loop is enough.
pub split-total : (line : Text) → split line ≢ diverged
split-total line = rw split_lem (elim (Bool-cases (is_empty (drop_while is_space line))) [
  | inl blank ↦ rw blank (λ e. cc)
  | inr text ↦ rw text (split_match-total (match_word line))
])
