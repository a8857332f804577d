-- ===== src/Convert/Signed.antt =====
-- src/mopidy_mpd/protocol/__init__.py: `INT`, and Python's `int` on a text.
use mopidy_mpd.Prelude.{
  ℕ, suc, ◌+◌, ◌*◌, ℤ, pos, negsuc, Text, Bool, true, false, ◌&&◌, ◌||◌, Option, none, some, [],
  ◌∷◌, ltb, leb, ◌==◌, if◌then◌else◌, is_empty,
}
use mopidy_mpd.Outcome.{Outcome, ok, raised, value_error}
use mopidy_mpd.Tokenize.{is_space, drop_while}
use mopidy_mpd.Convert.{decimal_value, digit_in, max_str_digits}

strip_right : Text → Text
strip_right [] = []
strip_right (c ∷ s) =
    let rest = strip_right s in if is_space c && is_empty rest then [] else c ∷ rest

-- `str.strip`
unfoldable pub strip : Text → Text
unfolding strip_right drop_while is_space
strip s = strip_right (drop_while is_space s)

-- The value of a run of digits, how many they are, and the text behind them.
pub record Digits : Type 0 where
  pub value : ℕ
  pub count : ℕ
  pub rest : Text

ended : Bool → Digits → Option Digits
ended true d = none
ended false d = some d

-- Digits with single underscores between them; `open_end` where the last character is one.
digits_run : Bool → ℕ → ℕ → Text → Option Digits
unfolding ended
digits_run open_end n k [] = ended open_end (record { value = n; count = k; rest = [] })
digits_run open_end n k (c ∷ s) = elim (decimal_value c) [
  | some d ↦ digits_run false (n * 10 + d) (k + 1) s
  | none ↦ elim (c == b'_') [
    | true ↦ elim (open_end || (k == 0)) [ true ↦ none | false ↦ digits_run true n k s ]
    | false ↦ ended open_end (record { value = n; count = k; rest = c ∷ s })
  ]
]

unfoldable pub digits : Text → Option Digits
unfolding digits_run
digits = digits_run false 0 0

-- The sign in front of a number, and the text behind it.
unfoldable pub sign : Text → Bool × Text
sign [] = (false, [])
sign (c ∷ s) = if c == b'-' then (true, s) else if c == b'+' then (false, s) else (false, c ∷ s)

unfoldable pub signed : Bool → ℕ → ℤ
signed true (suc n) = negsuc n
signed _ n = pos n

unfoldable pub whole : Bool → Option Digits → Outcome ℤ
unfolding signed
whole minus none = raised value_error
whole minus (some d) =
    if is_empty d.rest && (ltb 0 d.count && leb d.count max_str_digits)
    then ok (signed minus d.value)
    else raised value_error

-- `INT`
unfoldable pub integer : Text → Outcome ℤ
unfolding strip strip_right sign digits digits_run ended signed whole decimal_value digit_in
    is_space drop_while
integer value = let (minus, s) = sign (strip value) in whole minus (digits s)
