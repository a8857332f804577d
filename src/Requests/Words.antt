-- ===== src/Requests/Words.antt =====
-- The word before the first blank of a request, which `_authenticate_filter` of
-- src/mopidy_mpd/dispatcher.py takes for its command, and the tokenizer.
use mopidy_mpd.Prelude.{
  ℕ, Text, ◌≡◌, refl, sym, ap, ◌∙◌, subst, Bool, true, false, not, List, [], ◌∷◌, ◌++◌, ◌==◌,
  Bool-cases, inl, inr, arith, append-nil,
}
use mopidy_mpd.Outcome.{ok}
use mopidy_mpd.Tokenize.{split, is_space, is_lower, is_word}
use mopidy_mpd.Tokenize.Spans.{AllTrue}
use mopidy_mpd.Tokenize.Written.{IsCommand}
use mopidy_mpd.Tokenize.Commands.{EndsWord, split-FirstToken}
use mopidy_mpd.Dispatcher.{first_word}

space_not_word : (c : ℕ) → is_space c ≡ true → is_word c ≡ false
unfolding is_space is_word is_lower
space_not_word c h = ground arith

word_not_blank : (c : ℕ) → is_word c ≡ true → (c == 32) ≡ false
unfolding is_word is_lower
word_not_blank c h = ground arith

-- A word, then a space or nothing: up to the first blank stands the word, or a text with a space
-- that is not a blank.
unnot : (b : Bool) → not b ≡ false → b ≡ true
unnot true h = refl
unnot false h = cc

word_head :
    (c : ℕ) (rest : Text)
    → (c == 32) ≡ false
    → AllTrue is_word (first_word (c ∷ rest))
    → is_word c ≡ true
unfolding first_word
word_head c rest e w = ground (arith, w)

first_word-end :
    (rest : Text) → EndsWord rest → AllTrue is_word (first_word rest) → first_word rest ≡ []
unfolding first_word
first_word-end [] h w = refl
first_word-end (c ∷ rest) h w = elim (Bool-cases (c == 32)) [
  | inl e ↦ rw e
  | inr e ↦ absurd (cc (space_not_word c (unnot (is_space c) h), word_head c rest e w))
]

first_word-append :
    (w rest : Text) → AllTrue is_word w → first_word (w ++ rest) ≡ w ++ first_word rest
unfolding first_word
first_word-append [] rest _ = refl
first_word-append (c ∷ w) rest (hc, hw) = rw (word_not_blank c hc, first_word-append w rest hw)

AllTrue-suffix : (p : ℕ → Bool) (w rest : Text) → AllTrue p (w ++ rest) → AllTrue p rest
AllTrue-suffix p [] rest h = h
AllTrue-suffix p (c ∷ w) rest h = AllTrue-suffix p w rest h.1

IsCommand-AllTrue : (w : Text) → IsCommand w → AllTrue is_word w
IsCommand-AllTrue [] h = absurd h
IsCommand-AllTrue (c ∷ w) (hc, hw) = (unfold is_word in rw hc, hw)

-- Where the text before the first blank of a request is a word, and the request is split, that
-- text is the command of the request.
pub first_word-command :
    (request command : Text) (params : List Text)
    → split request ≡ ok (command ∷ params)
    → AllTrue is_word (first_word request)
    → first_word request ≡ command
first_word-command request command params h w =
    let f = split-FirstToken request (command ∷ params) h in
    let same : command ≡ f.command = ground (arith, f.tokens_eq) in
    let word = IsCommand-AllTrue f.command f.is_command in
    let spelled : first_word request ≡ f.command ++ first_word f.rest =
      ap first_word f.line_eq ∙ first_word-append f.command f.rest word in
    let tail =
      AllTrue-suffix is_word f.command (first_word f.rest) (subst (AllTrue is_word) spelled w) in
    spelled
    ∙ ap (λ (t : Text). f.command ++ t) (first_word-end f.rest f.ends tail)
    ∙ append-nil f.command
    ∙ sym same
