-- ===== src/Convert.antt =====
-- src/mopidy_mpd/protocol/__init__.py: the converters that turn a token into an argument.
pub mod Laws
pub mod Errors
pub mod Signed
pub mod Float
use mathlib.Core.Option
use mopidy_mpd.Prelude.{
  ℕ, zero, suc, ◌+◌, ◌-◌, ◌*◌, Text, codes, ◌≡◌, refl, Bool, true, false, ◌&&◌, ◌||◌, Option, none,
  some, List, [], ◌∷◌, ltb, leb, ◌==◌, if◌then◌else◌, length, is_empty, text_eq,
}
use mopidy_mpd.Outcome.{Outcome, ok, raised, value_error, ◌>>=◌}
use mopidy_mpd.Tokenize.{is_space, drop_while}

-- The zeros of the runs of ten decimal digits that Unicode has, the ones that `int` reads.
abbrev decimal_zeros : List ℕ
decimal_zeros =
    0x30 ∷ 0x660 ∷ 0x6f0 ∷ 0x7c0 ∷ 0x966 ∷ 0x9e6 ∷ 0xa66 ∷ 0xae6 ∷ 0xb66 ∷ 0xbe6 ∷ 0xc66 ∷ 0xce6
    ∷ 0xd66 ∷ 0xde6 ∷ 0xe50 ∷ 0xed0 ∷ 0xf20 ∷ 0x1040 ∷ 0x1090 ∷ 0x17e0 ∷ 0x1810 ∷ 0x1946 ∷ 0x19d0
    ∷ 0x1a80 ∷ 0x1a90 ∷ 0x1b50 ∷ 0x1bb0 ∷ 0x1c40 ∷ 0x1c50 ∷ 0xa620 ∷ 0xa8d0 ∷ 0xa900 ∷ 0xa9d0
    ∷ 0xa9f0 ∷ 0xaa50 ∷ 0xabf0 ∷ 0xff10 ∷ 0x104a0 ∷ 0x10d30 ∷ 0x11066 ∷ 0x110f0 ∷ 0x11136 ∷ 0x111d0
    ∷ 0x112f0 ∷ 0x11450 ∷ 0x114d0 ∷ 0x11650 ∷ 0x116c0 ∷ 0x11730 ∷ 0x118e0 ∷ 0x11950 ∷ 0x11c50
    ∷ 0x11d50 ∷ 0x11da0 ∷ 0x11f50 ∷ 0x16a60 ∷ 0x16ac0 ∷ 0x16b50 ∷ 0x1d7ce ∷ 0x1d7d8 ∷ 0x1d7e2
    ∷ 0x1d7ec ∷ 0x1d7f6 ∷ 0x1e140 ∷ 0x1e2f0 ∷ 0x1e4d0 ∷ 0x1e950 ∷ 0x1fbf0 ∷ []

unfoldable pub digit_in : List ℕ → ℕ → Option ℕ
digit_in [] c = none
digit_in (z ∷ zs) c = if leb z c && ltb c (z + 10) then some (c - z) else digit_in zs c

unfoldable pub decimal_value : ℕ → Option ℕ
unfolding digit_in
decimal_value = digit_in decimal_zeros

-- The number that decimal digits spell behind `n`.
pub decimals : ℕ → Text → Option ℕ
decimals n [] = some n
decimals n (c ∷ s) = elim (decimal_value c) [ none ↦ none | some d ↦ decimals (n * 10 + d) s ]

-- `int` refuses a text of more than 4300 digits.
abbrev pub max_str_digits : ℕ
max_str_digits = 4300

pub to_outcome : Option ℕ → Outcome ℕ
to_outcome none = raised value_error
to_outcome (some n) = ok n

-- `UINT`. `isdigit` also takes digits that are not decimal, such as a superscript: `int` raises a
-- `ValueError` for those, as the function itself does for what is no digit.
unfoldable pub uint : Text → Outcome ℕ
unfolding digit_in decimal_value decimals to_outcome
uint value =
    if is_empty value || ltb max_str_digits (length value)
    then raised value_error
    else to_outcome (decimals 0 value)

-- The equations of the converters, for proofs in which the parts stay shut.
pub uint_lem :
    (value : Text)
    → uint value ≡ (
        if is_empty value || ltb max_str_digits (length value)
        then raised value_error
        else to_outcome (decimals 0 value))
unfolding uint
uint_lem value = refl

-- `BOOL`
unfoldable pub bool : Text → Outcome Bool
bool value =
    if text_eq value (codes "1")
    then ok true
    else if text_eq value (codes "0")
    then ok false
    else raised value_error

-- `slice(start, stop)`
pub record Slice : Type 0 where
  pub start : ℕ
  pub stop : Option ℕ

-- `value.split(":", 1)`, or nothing where no colon is in the value
pub split_colon : Text → Option (Text × Text)
split_colon [] = none
split_colon (c ∷ s) =
    let rest = split_colon s in
    if c == b':' then some ([], s) else Option.map (λ (a, b). (c ∷ a, b)) rest

pub bounded : ℕ → ℕ → Outcome Slice
bounded start stop =
    if ltb start stop then ok (record { start = start; stop = some stop }) else raised value_error

pub range_parts : Option (Text × Text) → Text → Outcome Slice
range_parts none value = do
  start ← uint value
  ok (record { start = start; stop = some (start + 1) })
range_parts (some (first, second)) value = do
  start ← uint first
  if is_empty (drop_while is_space second)
      then ok (record { start = start; stop = none })
      else (do stop ← uint second; bounded start stop)

-- `RANGE`
unfoldable pub range : Text → Outcome Slice
unfolding split_colon range_parts bounded uint drop_while is_space
range value = range_parts (split_colon value) value

pub range_lem : (value : Text) → range value ≡ range_parts (split_colon value) value
unfolding range
range_lem value = refl
