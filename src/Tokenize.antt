-- ===== src/Tokenize.antt =====
-- src/mopidy_mpd/tokenize.py: a request line into its command and parameters.
-- Each regular expression is the function that its match computes, with the greedy choice first and
-- the backtracking that Python's `re` does behind it.
pub mod Total
pub mod Spans
pub mod Written
pub mod RoundTrip
pub mod Commands
pub mod Errors
use mopidy_mpd.Prelude.{
  ℕ, zero, suc, Text, codes, ◌≡◌, refl, Bool, true, false, ◌&&◌, ◌||◌, not, Option, none, some,
  List, [], ◌∷◌, ◌++◌, ltb, leb, ◌==◌, if◌then◌else◌, length, is_empty,
}
use mathlib.Core.Option
use mopidy_mpd.Exceptions.{mpd_error, mpd_no_command_error, unknown_error, arg_error}
use mopidy_mpd.Outcome.{Outcome, ok, raised, diverged, ack}

abbrev pub newline : ℕ
newline = 10

abbrev pub quote : ℕ
quote = b'"'

abbrev pub backslash : ℕ
backslash = b'\\'

-- `\s` on a `str`, and the characters that `str.strip` removes.
unfoldable pub is_space : ℕ → Bool
is_space c =
    (leb 9 c && leb c 13)
    || ((leb 28 c && leb c 32)
        || (c == 0x85
            || (c == 0xa0
                || (c == 0x1680
                    || ((leb 0x2000 c && leb c 0x200a)
                        || (c == 0x2028
                            || (c == 0x2029 || (c == 0x202f || (c == 0x205f || c == 0x3000)))))))))

-- `[a-z]`, and `[a-z0-9_]`
unfoldable pub is_lower : ℕ → Bool
is_lower c = leb b'a' c && leb c b'z'

unfoldable pub is_word : ℕ → Bool
is_word c = is_lower c || ((leb b'0' c && leb c b'9') || c == b'_')

-- `[^{unprintable}"']`
unfoldable pub is_plain : ℕ → Bool
is_plain c = ltb 0x20 c && (not (c == quote) && not (c == b'\''))

unfoldable pub take_while : (ℕ → Bool) → Text → Text
take_while p [] = []
take_while p (c ∷ s) = let rest = take_while p s in if p c then c ∷ rest else []

unfoldable pub drop_while : (ℕ → Bool) → Text → Text
drop_while p [] = []
drop_while p (c ∷ s) = let rest = drop_while p s in if p c then rest else c ∷ s

-- `(.*)`: the rest of the line, as `.` does not match a newline
unfoldable pub until_newline : Text → Text
unfolding take_while
until_newline = take_while (λ c. not (c == newline))

-- `(?:\s+|$)(.*)`
pub separator : Text → Option Text
separator [] = some []
separator (c ∷ s) = if is_space c then some (until_newline (drop_while is_space s)) else none

-- `WORD_RE`: its three groups. No character of a word is a space, so there is nothing to backtrack.
pub match_command : Text → Text → Option (Text × Text × Text)
match_command whitespace [] = none
match_command whitespace (c ∷ s) =
    if is_lower c
    then Option.map (λ r. (whitespace, c ∷ take_while is_word s, r))
        (separator (drop_while is_word s))
    else none

pub match_word : Text → Option (Text × Text × Text)
match_word line = match_command (take_while is_space line) (drop_while is_space line)

-- `([^…"']+)(?:\s+|$)(.*)`: a longest run first, then shorter ones, as a run can hold spaces past
-- ASCII.
pub match_unquoted : Text → Option (Text × Text)
match_unquoted [] = none
match_unquoted (c ∷ s) =
    let longer = match_unquoted s in
    if is_plain c
    then elim longer [
      | some (w, r) ↦ some (c ∷ w, r)
      | none ↦ Option.map (λ r. (c ∷ [], r)) (separator s)
    ]
    else none

-- `[^"\\]*(?:\\.[^"\\]*)*"` behind an opening quote: the body and what follows the closing quote.
-- The flag says that a backslash stands before.
pub scan_quoted : Bool → Text → Option (Text × Text)
scan_quoted escaped [] = none
scan_quoted true (c ∷ s) =
    if c == newline then none else Option.map (λ (w, r). (c ∷ w, r)) (scan_quoted false s)
scan_quoted false (c ∷ s) =
    if c == quote
    then some ([], s)
    else Option.map (λ (w, r). (c ∷ w, r)) (scan_quoted (c == backslash) s)

-- `UNESCAPE_RE.sub(r"\g<1>", quoted)`; a backslash with nothing to match behind it stays
pub unescape : Bool → Text → Text
unescape false [] = []
unescape true [] = backslash ∷ []
unescape true (c ∷ s) = (if c == newline then backslash ∷ c ∷ [] else c ∷ []) ++ unescape false s
unescape false (c ∷ s) = (if c == backslash then [] else c ∷ []) ++ unescape (c == backslash) s

match_closed : Option (Text × Text) → Option (Text × Text)
match_closed none = none
match_closed (some (body, after)) = Option.map (λ r. (unescape false body, r)) (separator after)

-- `PARAM_RE`: the parameter, unescaped if it was quoted, and the remainder
pub match_param : Text → Option (Text × Text)
match_param [] = none
match_param (c ∷ s) =
    if c == quote then match_closed (scan_quoted false s) else match_unquoted (c ∷ s)

-- Group 1 of `BAD_QUOTED_PARAM_RE`: a closing quote, then no space.
glued : Option (Text × Text) → Bool
glued none = false
glued (some (body, [])) = false
glued (some (body, c ∷ after)) = not (is_space c)

-- Group 2: whatever the quoted part took, it can give back up to its first character.
starts_body : Text → Bool
starts_body [] = false
starts_body (c ∷ s) = not (c == quote)

pub determine_error_message : Text → Text
determine_error_message [] = codes "Invalid unquoted character"
determine_error_message (c ∷ s) =
    if not (c == quote)
    then codes "Invalid unquoted character"
    else if glued (scan_quoted false s)
    then codes "Space expected after closing '\"'"
    else if starts_body s
    then codes "Missing closing '\"'"
    else codes "Invalid unquoted character"

-- `while remainder:`, with a bound on the rounds
pub split_params : ℕ → Text → List Text → Text → Outcome (List Text)
split_params fuel command result [] = ok result
split_params zero command result (c ∷ s) = diverged
split_params (suc fuel) command result (c ∷ s) = elim (match_param (c ∷ s)) [
  | none ↦ raised (ack (mpd_error arg_error (determine_error_message (c ∷ s)) (some command)))
  | some (param, remainder) ↦ split_params fuel command (result ++ param ∷ []) remainder
]

pub split_match : Option (Text × Text × Text) → Outcome (List Text)
split_match none = raised (ack (mpd_error unknown_error (codes "Invalid word character") none))
split_match (some (whitespace, command, remainder)) =
    if is_empty whitespace
    then split_params (length remainder) command (command ∷ []) remainder
    else raised (ack (mpd_error unknown_error (codes "Letter expected") none))

-- A parameter is at least one character, so the remainder's length bounds the rounds.
unfoldable pub split : Text → Outcome (List Text)
unfolding is_space is_lower is_word is_plain take_while drop_while until_newline separator
    match_command match_word match_unquoted scan_quoted unescape match_closed match_param glued
    starts_body determine_error_message split_params split_match
split line =
    if is_empty (drop_while is_space line)
    then raised (ack mpd_no_command_error)
    else split_match (match_word line)

-- The equation of `split`, for proofs in which the parts stay shut.
pub split_lem :
    (line : Text)
    → split line ≡ (
        if is_empty (drop_while is_space line)
        then raised (ack mpd_no_command_error)
        else split_match (match_word line))
unfolding split
split_lem line = refl
