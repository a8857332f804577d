-- ===== src/Prelude/Decimal.antt =====
-- Python's decimal print of a natural number, `f"{n:d}"` and `str(n)`.
use Prim.Native.Nat.{ℕ, zero, suc, ◌+◌, ◌-◌, ◌*◌, ◌/◌, ◌%◌, ◌<◌, ◌≤◌}
use mathlib.Core.Path.{◌≡◌, refl}
use mathlib.Core.List.{[], ◌∷◌}
use native.Mathlib.Omega.{arith}
use mopidy_mpd.Prelude.Tests.{ltb, if◌then◌else◌}
use mathlib.Core.Bool.{false}
use mopidy_mpd.Prelude.Lists.{All, is_empty}
use mopidy_mpd.Prelude.Texts.{Text, codes}

-- The last digit first, in front of the digits found so far. A round divides by ten.
digits_from : ℕ → ℕ → Text → Text
digits_from zero n out = out
digits_from (suc fuel) n out =
    let more = digits_from fuel (n / 10) ((b'0' + n % 10) ∷ out) in
    if ltb n 10 then (b'0' + n) ∷ out else more

unfoldable pub show_nat : ℕ → Text
unfolding digits_from
show_nat n = digits_from (suc n) n []

-- The number that ASCII digits spell behind `n`.
abbrev pub read_from : ℕ → Text → ℕ
read_from n [] = n
read_from n (c ∷ s) = read_from (n * 10 + (c - b'0')) s

abbrev pub IsAsciiDigit : ℕ → Type 0
IsAsciiDigit c = (48 ≤ c) × (c < 58)

read_from-digits_from :
    (fuel n : ℕ) (out : Text) → n < fuel → read_from 0 (digits_from fuel n out) ≡ read_from n out
unfolding digits_from
read_from-digits_from zero n out h = absurd (omega arith)
read_from-digits_from (suc fuel) n out h =
    ground (arith, read_from-digits_from fuel (n / 10) ((b'0' + n % 10) ∷ out))

digits_from-All :
    (fuel n : ℕ) (out : Text) → All IsAsciiDigit out → All IsAsciiDigit (digits_from fuel n out)
unfolding digits_from
digits_from-All zero n out h = h
digits_from-All (suc fuel) n out h =
    ground (arith, digits_from-All fuel (n / 10) ((b'0' + n % 10) ∷ out))

-- Reading a decimal print gives the number back.
pub read_from-show_nat : (n : ℕ) → read_from 0 (show_nat n) ≡ n
unfolding show_nat
read_from-show_nat n = read_from-digits_from (suc n) n [] (omega arith)

pub show_nat-All : (n : ℕ) → All IsAsciiDigit (show_nat n)
unfolding show_nat
show_nat-All n = digits_from-All (suc n) n [] tt

digits_from-behind :
    (fuel n : ℕ) (c : ℕ) (out : Text) → is_empty (digits_from fuel n (c ∷ out)) ≡ false
unfolding digits_from
digits_from-behind zero n c out = refl
digits_from-behind (suc fuel) n c out =
    ground (arith, digits_from-behind fuel (n / 10) (b'0' + n % 10) (c ∷ out))

pub is_empty-show_nat : (n : ℕ) → is_empty (show_nat n) ≡ false
unfolding show_nat digits_from
is_empty-show_nat n = ground (arith, digits_from-behind n (n / 10) (b'0' + n % 10) [])

show_nat_test : show_nat 4096 ≡ codes "4096"
unfolding show_nat
show_nat_test = refl
