-- ===== src/Tokenize/Commands.antt =====
-- The first token, and the errors, of `split` in src/mopidy_mpd/tokenize.py.
use mopidy_mpd.Prelude.{
  ℕ, zero, suc, Text, ◌≡◌, refl, sym, ap, ◌∙◌, true, false, not, Option, none, some, List, [], ◌∷◌,
  ◌++◌, append_assoc, append-nil, is_empty, length, subst, arith, Bool-cases, inl, inr,
}
use mopidy_mpd.Exceptions.{mpd_error, mpd_no_command_error, arg_error}
use mopidy_mpd.Outcome.{Outcome, ok, raised, ack}
use mopidy_mpd.Tokenize.{
  is_space, is_lower, is_word, take_while, drop_while, separator, match_param, match_command,
  match_word, determine_error_message, split_params, split_match, split, split_lem,
}
use mopidy_mpd.Tokenize.Spans.{Stops, take-drop_while, take_while-AllTrue}
use mopidy_mpd.Tokenize.Written.{IsCommand}

-- Behind a word stands a space or nothing.
abbrev pub EndsWord : Text → Type 0
EndsWord = Stops (λ c. not (is_space c))

-- What an accepted line and its tokens have in common.
pub record FirstToken (line : Text) (tokens : List Text) : Type 0 where
  pub command : Text
  pub params : List Text
  pub rest : Text
  pub tokens_eq : tokens ≡ command ∷ params
  pub line_eq : line ≡ command ++ rest
  pub is_command : IsCommand command
  pub ends : EndsWord rest

split_params-prefix :
    (fuel : ℕ) (command : Text) (result : List Text) (s : Text) (tokens : List Text)
    → split_params fuel command result s ≡ ok tokens
    → (params : List Text) × (tokens ≡ result ++ params)
unfolding split_params
split_params-prefix zero command result [] tokens h = ([], cc (append-nil result))
split_params-prefix (suc fuel) command result [] tokens h = ([], cc (append-nil result))
split_params-prefix zero command result (c ∷ s) tokens h = absurd (cc)
split_params-prefix (suc fuel) command result (c ∷ s) tokens h =
    next (match_param (c ∷ s))
      (λ p r e. split_params-prefix fuel command (result ++ p ∷ []) r tokens e) h
  where
    next :
        (m : Option (Text × Text))
        → ((p r : Text)
            → split_params fuel command (result ++ p ∷ []) r ≡ ok tokens
            → (params : List Text) × (tokens ≡ (result ++ p ∷ []) ++ params))
        → (elim m as (λ _. Outcome (List Text)) [
          | none ↦
              raised (ack (mpd_error arg_error (determine_error_message (c ∷ s)) (some command)))
          | some (param, remainder) ↦ split_params fuel command (result ++ param ∷ []) remainder
        ])
          ≡ ok tokens
        → (params : List Text) × (tokens ≡ result ++ params)
    next none ih e = absurd (cc)
    next (some (p, r)) ih e =
        let (params, eq) = ih p r e in (p ∷ params, eq ∙ append_assoc result (p ∷ []) params)

separator-EndsWord : (s : Text) {r : Text} → separator s ≡ some r → EndsWord s
unfolding separator
separator-EndsWord [] h = tt
separator-EndsWord (c ∷ s) h = ground arith

match_command-parts :
    (ws : Text) (c : ℕ) (s ws' command r : Text)
    → match_command ws (c ∷ s) ≡ some (ws', command, r)
    → (is_lower c ≡ true)
      × (ws ≡ ws')
      × (c ∷ take_while is_word s ≡ command)
      × (separator (drop_while is_word s) ≡ some r)
unfolding match_command
match_command-parts ws c s ws' command r h = ground arith

-- What `WORD_RE` finds in a line that starts with `s` behind its spaces.
pub record WordMatch (ws s ws' command : Text) : Type 0 where
  pub rest : Text
  pub spaces_eq : ws ≡ ws'
  pub word_eq : s ≡ command ++ rest
  pub is_command : IsCommand command
  pub ends : EndsWord rest

match_command-WordMatch :
    (ws s ws' command r : Text)
    → match_command ws s ≡ some (ws', command, r)
    → WordMatch ws s ws' command
match_command-WordMatch ws [] ws' command r h = unfold match_command in absurd (cc)
match_command-WordMatch ws (c ∷ s) ws' command r h =
    let (lower, spaces, word, sep) = match_command-parts ws c s ws' command r h in
    record {
      rest = drop_while is_word s;
      spaces_eq = spaces;
      word_eq =
          ap (λ (t : Text). c ∷ t) (sym (take-drop_while is_word s))
          ∙ ap (λ (t : Text). t ++ drop_while is_word s) word;
      is_command = subst IsCommand word (lower, take_while-AllTrue is_word s);
      ends = separator-EndsWord (drop_while is_word s) sep;
    }

pub match_word-WordMatch :
    (line ws' command r : Text)
    → match_word line ≡ some (ws', command, r)
    → WordMatch (take_while is_space line) (drop_while is_space line) ws' command
unfolding match_word
match_word-WordMatch line =
    match_command-WordMatch (take_while is_space line) (drop_while is_space line)

pub line_of_match :
    (line : Text) {command : Text}
    (w : WordMatch (take_while is_space line) (drop_while is_space line) [] command)
    → line ≡ command ++ w.rest
line_of_match line w =
    sym (take-drop_while is_space line)
    ∙ ap (λ (t : Text). t ++ drop_while is_space line) w.spaces_eq
    ∙ w.word_eq

split_match-FirstToken :
    (line : Text) (m : Option (Text × Text × Text)) (tokens : List Text)
    → match_word line ≡ m
    → split_match m ≡ ok tokens
    → FirstToken line tokens
unfolding split_match
split_match-FirstToken line none tokens e h = absurd (cc)
split_match-FirstToken line (some (c ∷ ws, command, r)) tokens e h = absurd (cc)
split_match-FirstToken line (some ([], command, r)) tokens e h =
    let (params, eq) = split_params-prefix (length r) command (command ∷ []) r tokens h in
    let w = match_word-WordMatch line [] command r e in
    record {
      command = command;
      params = params;
      rest = w.rest;
      tokens_eq = eq;
      line_eq = line_of_match line w;
      is_command = w.is_command;
      ends = w.ends;
    }

pub split_blank :
    (line : Text)
    → is_empty (drop_while is_space line) ≡ true
    → split line ≡ raised (ack mpd_no_command_error)
split_blank line h = rw (split_lem, h)

pub split_text :
    (line : Text)
    → is_empty (drop_while is_space line) ≡ false
    → split line ≡ split_match (match_word line)
split_text line h = rw (split_lem line, h)

-- In a line that `split` accepts the first token is a command word, stands at the very start of
-- the line, and is followed by a space or by nothing.
pub split-FirstToken :
    (line : Text) (tokens : List Text) → split line ≡ ok tokens → FirstToken line tokens
split-FirstToken line tokens h = elim (Bool-cases (is_empty (drop_while is_space line))) [
  | inl blank ↦ absurd (cc (split_blank line blank))
  | inr text ↦
      split_match-FirstToken line (match_word line) tokens refl (sym (split_text line text) ∙ h)
]
