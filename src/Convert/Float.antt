-- ===== src/Convert/Float.antt =====
-- src/mopidy_mpd/protocol/__init__.py: `FLOAT` and `UFLOAT`, with the double-precision numbers that
-- Python's `float` stands for.
pub mod Times
use mopidy_mpd.Prelude.{
  ℕ, zero, suc, ◌+◌, ◌-◌, ◌*◌, ◌/◌, ◌%◌, ℤ, pos, negsuc, Text, codes, Bool, true, false, not, ◌&&◌,
  ◌||◌, ◌≡◌, refl, Option, none, some, List, [], ◌∷◌, ltb, leb, ◌==◌, if◌then◌else◌, is_empty,
  text_eq, map, ◌++◌, show_nat,
}
use Prim.Native.Nat.{◌^◌}
use mopidy_mpd.Outcome.{Outcome, ok, raised, value_error, other_error, ◌>>=◌}
use mopidy_mpd.Tokenize.{drop_while, is_space}
use mopidy_mpd.Convert.{decimal_value, digit_in}
use mopidy_mpd.Convert.Signed.{Digits, digits, sign, signed, strip}

-- `finite minus m e` is m * 2 ^ (e - 1074), with its sign; m is less than 2 ^ 53.
pub data Float : Type 0 where
  nan : Float
  infinite : Bool → Float
  finite : Bool → ℕ → ℕ → Float

-- A quotient rounded to the nearest number, to the even one where two are as near.
pub half_even : ℕ → ℕ → ℕ
half_even num den =
    let q = num / den in
    let r = num % den in if ltb den (2 * r) then q + 1 else if 2 * r == den then q + q % 2 else q

-- `rounds` exponents are left, from `e` on.
pub nearest_from : ℕ → ℕ → Bool → ℕ → ℕ → Float
unfolding half_even
nearest_from zero e minus num den = infinite minus
nearest_from (suc rounds) e minus num den =
    let m = half_even num den in
    elim (ltb m (2 ^ 53)) [
      | true ↦ finite minus m e
      | false ↦ nearest_from rounds (e + 1) minus num (2 * den)
    ]

-- The double nearest to a quotient: a finite one has one of 2046 exponents.
unfoldable pub nearest : Bool → ℕ → ℕ → Float
unfolding nearest_from
nearest minus num den = nearest_from 2046 0 minus (num * 2 ^ 1074) den

-- `x * 1000`
pub times_1000 : Float → Float
unfolding nearest
times_1000 nan = nan
times_1000 (infinite minus) = infinite minus
times_1000 (finite minus m e) = nearest minus (m * 1000 * 2 ^ e) (2 ^ 1074)

-- `n / 1000.0`
unfoldable pub over_1000 : ℕ → Float
unfolding nearest
over_1000 n = elim (nearest false n 1) [
  | finite minus m e ↦ nearest minus (m * 2 ^ e) (1000 * 2 ^ 1074)
  | x ↦ x
]

-- The thousandths of a number, rounded.
thousandths : Float → Outcome ℕ
unfolding half_even
thousandths (finite minus m e) = ok (half_even (m * 2 ^ e * 1000) (2 ^ 1074))
thousandths x = raised (other_error (codes "OverflowError"))

three_digits : ℕ → Text
unfolding show_nat
three_digits n = show_nat (n / 100) ++ (show_nat (n / 10 % 10) ++ show_nat (n % 10))

-- `f"{n / 1000.0:.3f}"`; an `n` that no double is near raises an `OverflowError` in the division.
unfoldable pub show_seconds : ℕ → Outcome Text
unfolding over_1000 thousandths three_digits show_nat
show_seconds n =
    thousandths (over_1000 n) >>= λ k. ok (show_nat (k / 1000) ++ (b'.' ∷ three_digits (k % 1000)))

-- `int(x)`
unfoldable pub truncate : Float → Outcome ℤ
unfolding signed
truncate nan = raised value_error
truncate (infinite minus) = raised (other_error (codes "OverflowError"))
truncate (finite minus m e) = ok (signed minus (m * 2 ^ e / 2 ^ 1074))

-- `x < 0`
pub is_negative : Float → Bool
is_negative nan = false
is_negative (infinite minus) = minus
is_negative (finite minus m e) = minus && ltb 0 m

to_lower : ℕ → ℕ
to_lower c = if leb b'A' c && leb c b'Z' then c + 32 else c

scaled : Bool → ℕ → ℕ → ℤ → Float
unfolding nearest
scaled minus n places (pos e) = nearest minus (n * 10 ^ e) (10 ^ places)
scaled minus n places (negsuc e) = nearest minus n (10 ^ (places + e + 1))

exponent_of : Option Digits → Bool → Option ℤ
unfolding signed
exponent_of none minus = none
exponent_of (some d) minus =
    if is_empty d.rest && ltb 0 d.count then some (signed minus d.value) else none

-- Nothing, or `e` and a number.
exponent : Text → Option ℤ
unfolding exponent_of to_lower sign digits
exponent [] = some (pos 0)
exponent (c ∷ s) =
    if to_lower c == b'e' then (let (minus, t) = sign s in exponent_of (digits t) minus) else none

with_exponent : Bool → ℕ → ℕ → ℕ → Option ℤ → Option Float
unfolding scaled
with_exponent minus n places count none = none
with_exponent minus n places count (some e) =
    if ltb 0 count then some (scaled minus n places e) else none

-- What may stand behind the digits in front of the point.
fraction : Bool → Digits → Option Digits → Option Float
unfolding with_exponent exponent
fraction minus d none = none
fraction minus d (some f) =
    with_exponent minus (d.value * 10 ^ f.count + f.value) f.count (d.count + f.count)
      (exponent f.rest)

behind : Bool → Digits → Text → Option Float
unfolding fraction with_exponent exponent digits
behind minus d [] = with_exponent minus d.value 0 d.count (some (pos 0))
behind minus d (c ∷ s) =
    if c == b'.'
    then fraction minus d (digits s)
    else with_exponent minus d.value 0 d.count (exponent (c ∷ s))

decimal : Bool → Option Digits → Option Float
unfolding behind
decimal minus none = none
decimal minus (some d) = behind minus d d.rest

pub number : Bool → Text → Option Float
unfolding decimal digits to_lower
number minus s =
    let word = map to_lower s in
    if text_eq word (codes "nan")
    then some nan
    else if text_eq word (codes "inf") || text_eq word (codes "infinity")
    then some (infinite minus)
    else decimal minus (digits s)

unfoldable pub or_value_error : Option Float → Outcome Float
or_value_error none = raised value_error
or_value_error (some x) = ok x

-- `FLOAT`
unfoldable pub float : Text → Outcome Float
unfolding number or_value_error strip sign text_eq drop_while is_space decimal_value digit_in
float value = let (minus, s) = sign (strip value) in or_value_error (number minus s)

unfoldable pub not_negative : Float → Outcome Float
unfolding is_negative
not_negative x = if is_negative x then raised value_error else ok x

-- `UFLOAT`
unfoldable pub ufloat : Text → Outcome Float
unfolding not_negative float
ufloat value = float value >>= not_negative

-- `int(x * 1000)`
unfoldable pub milliseconds : Float → Outcome ℤ
unfolding truncate times_1000
milliseconds x = truncate (times_1000 x)
