-- ===== src/Tokenize/Errors.antt =====
-- The errors of `split` in src/mopidy_mpd/tokenize.py.
use mopidy_mpd.Prelude.{ℕ, ◌≤◌, Text, codes, ◌≡◌, ◌≢◌, ◌⊎◌, none, some, List, [], ◌∷◌, ◌++◌, All}
use mopidy_mpd.Exceptions.{Ack, mpd_error, mpd_no_command_error, arg_error, unknown_error}
use mopidy_mpd.Outcome.{Outcome, Raised, ack}
use mopidy_mpd.Tokenize.{is_space, take_while, drop_while}
use mopidy_mpd.Tokenize.Spans.{AllTrue}
use mopidy_mpd.Tokenize.Written.{Param, IsParam}
use mopidy_mpd.Tokenize.RoundTrip.{write_request}
use mopidy_mpd.Tokenize.Commands.{EndsWord}

-- A character of a word as the MPD protocol has it: a lower-case letter, a digit, or an underscore.
abbrev pub IsWordChar : ℕ → Type 0
IsWordChar c = ((97 ≤ c) × (c ≤ 122)) ⊎ ((48 ≤ c) × (c ≤ 57)) ⊎ (c ≡ 95)

-- A command: a lower-case letter, and characters of a word.
abbrev pub IsName : Text → Type 0
IsName [] = ⊥
IsName (c ∷ w) = (97 ≤ c) × (c ≤ 122) × All IsWordChar w

-- The text begins with the command, and a space or nothing follows.
abbrev pub Begins : Text → Text → Type 0
Begins s command = (rest : Text) × (s ≡ command ++ rest) × IsName command × EndsWord rest

-- An error of a line, and when it is raised: no command, on a line of spaces only; a line that does
-- not begin with a command, be it behind spaces or not; a command that spaces stand before; and a
-- command at the start with something behind it that is no list of parameters.
pub data SplitError (line : Text) : Ack → Type 0 where
  blank : AllTrue is_space line → SplitError line mpd_no_command_error
  bad_word :
      ((command : Text) → ¬ Begins (drop_while is_space line) command)
      → SplitError line (mpd_error unknown_error (codes "Invalid word character") none)
  early_space :
      (command : Text)
      → take_while is_space line ≢ []
      → Begins (drop_while is_space line) command
      → SplitError line (mpd_error unknown_error (codes "Letter expected") none)
  bad_param :
      (command message : Text)
      → Begins line command
      → ((ps : List Param) → All IsParam ps → line ≢ write_request command ps)
      → SplitError line (mpd_error arg_error message (some command))

abbrev RaisesSplitError : Text → Raised → Type 0
RaisesSplitError line e = (a : Ack) × (e ≡ ack a) × SplitError line a
