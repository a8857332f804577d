-- ===== src/Tokenize/Written.antt =====
-- Parameters as a client writes them, for `split` of src/mopidy_mpd/tokenize.py.
use mathlib.Core.List.{cons-ne-nil}
use mopidy_mpd.Prelude.{
  ℕ, Text, ◌≡◌, ◌≢◌, refl, ap, true, false, not, ◌&&◌, some, List, [], ◌∷◌, ◌++◌, ◌==◌,
  if◌then◌else◌, All, All-append, arith,
}
use mopidy_mpd.Tokenize.{
  is_space, is_plain, is_lower, is_word, quote, backslash, separator, scan_quoted, unescape,
}
use mopidy_mpd.Tokenize.Spans.{AllTrue, Stops, NoNewline, drop_while-append, until_newline_all}

-- A parameter as a client writes it, and the text that it stands for.
pub data Param : Type 0 where
  bare : Text → Param
  in_quotes : Text → Param

abbrev pub value : Param → Text
value (bare w) = w
value (in_quotes w) = w

pub escape : Text → Text
escape [] = []
escape (c ∷ s) =
    (if c == quote
      then backslash ∷ c ∷ []
      else if c == backslash
      then backslash ∷ c ∷ []
      else c ∷ [])
    ++ escape s

unfoldable pub write_param : Param → Text
write_param (bare w) = w
write_param (in_quotes w) = quote ∷ (escape w ++ quote ∷ [])

-- Each parameter stands behind one space.
unfoldable pub write_params : List Param → Text
write_params [] = []
write_params (p ∷ ps) = 32 ∷ (write_param p ++ write_params ps)

-- A bare parameter is not empty and has neither spaces nor quotes; in quotes all but a newline goes.
abbrev pub IsParam : Param → Type 0
IsParam (bare w) = (w ≢ []) × AllTrue (λ c. is_plain c && not (is_space c)) w
IsParam (in_quotes w) = NoNewline w

abbrev pub IsCommand : Text → Type 0
IsCommand [] = ⊥
IsCommand (c ∷ w) = (is_lower c ≡ true) × AllTrue is_word w

pub plain_ne_quote : (c : ℕ) → (is_plain c && not (is_space c)) ≡ true → (c == quote) ≡ false
unfolding is_plain
plain_ne_quote c h = ground arith

pub scan_quoted-escape :
    (w rest : Text)
    → NoNewline w
    → scan_quoted false (escape w ++ quote ∷ rest) ≡ some (escape w, rest)
unfolding scan_quoted escape
scan_quoted-escape [] rest _ = refl
scan_quoted-escape (c ∷ w) rest (hc, hw) = ground (arith, scan_quoted-escape w rest hw)

pub unescape-escape : (w : Text) → NoNewline w → unescape false (escape w) ≡ w
unfolding unescape escape
unescape-escape [] _ = refl
unescape-escape (c ∷ w) (hc, hw) = ground (arith, unescape-escape w hw)

escape-NoNewline : (w : Text) → NoNewline w → NoNewline (escape w)
unfolding escape
escape-NoNewline [] _ = tt
escape-NoNewline (c ∷ w) (hc, hw) = ground (arith, escape-NoNewline w hw)

plain-NoNewline : (w : Text) → AllTrue (λ c. is_plain c && not (is_space c)) w → NoNewline w
unfolding is_plain is_space
plain-NoNewline [] _ = tt
plain-NoNewline (c ∷ w) (hc, hw) = (ground arith, plain-NoNewline w hw)

-- The parameters behind the first space.
unfoldable pub after : List Param → Text
after [] = []
after (p ∷ ps) = write_param p ++ write_params ps

write_params-after : (p : Param) (ps : List Param) → write_params (p ∷ ps) ≡ 32 ∷ after (p ∷ ps)
unfolding write_params after
write_params-after p ps = refl

write_param-NoNewline : (p : Param) → IsParam p → NoNewline (write_param p)
unfolding write_param
write_param-NoNewline (bare w) h = plain-NoNewline w h.1
write_param-NoNewline (in_quotes w) h =
    (ground arith, All-append _ (escape w) (quote ∷ []) (escape-NoNewline w h) (ground arith))

write_params-NoNewline : (ps : List Param) → All IsParam ps → NoNewline (write_params ps)
unfolding write_params
write_params-NoNewline [] _ = tt
write_params-NoNewline (p ∷ ps) (hp, hps) = (
  ground arith,
  All-append _ (write_param p) (write_params ps) (write_param-NoNewline p hp)
      (write_params-NoNewline ps hps),
)

write_param-Stops : (p : Param) (s : Text) → IsParam p → Stops is_space (write_param p ++ s)
unfolding write_param is_space
write_param-Stops (bare []) s h = absurd (h.0 refl)
write_param-Stops (bare (c ∷ w)) s h = ground (arith, h.1.0)
write_param-Stops (in_quotes w) s h = refl

space_is_space : is_space 32 ≡ true
unfolding is_space
space_is_space = refl

separator_space : (s : Text) → Stops is_space s → NoNewline s → separator (32 ∷ s) ≡ some s
unfolding separator
separator_space s h n =
    rw (space_is_space, drop_while-append is_space [] s tt h) (ap some (until_newline_all s n))

pub separator-write_params :
    (ps : List Param) → All IsParam ps → separator (write_params ps) ≡ some (after ps)
separator-write_params [] _ = unfold separator write_params after in refl
separator-write_params (p ∷ ps) (hp, hps) =
    let blanks = write_params-NoNewline (p ∷ ps) (hp, hps) in
    unfold write_params after in
    separator_space (write_param p ++ write_params ps) (write_param-Stops p (write_params ps) hp)
      (blanks.1)

pub after-ne-nil : (p : Param) (ps : List Param) → IsParam p → after (p ∷ ps) ≢ []
unfolding after write_param
after-ne-nil (bare []) ps h = absurd (h.0 refl)
after-ne-nil (bare (c ∷ w)) ps h = cons-ne-nil _ _
after-ne-nil (in_quotes w) ps h = cons-ne-nil _ _
