-- ===== src/Convert/Float/Times.antt =====
-- src/mopidy_mpd/protocol/__init__.py: the times that `UFLOAT` lets through, in milliseconds.
use Prim.Native.Nat.{◌^◌}
use mopidy_mpd.Prelude.{
  ℕ, zero, suc, ◌+◌, ◌*◌, ◌/◌, ◌≡◌, refl, sym, subst, ℤ, pos, Text, Bool, true, false, ltb, arith,
  if◌then◌else◌,
}
use mopidy_mpd.Outcome.{Outcome, ok, raised, diverged, value_error, ◌>>=◌}
use mopidy_mpd.Convert.Signed.{signed}
use mopidy_mpd.Convert.Float.{
  Float, nan, infinite, finite, half_even, nearest_from, nearest, times_1000, truncate, is_negative,
  float, not_negative, ufloat, milliseconds,
}

-- No number, or one that is not below zero.
abbrev Positive : Outcome ℤ → Type 0
Positive (ok z) = (n : ℕ) × (z ≡ pos n)
Positive (raised e) = Unit
Positive diverged = Unit

both-Positive :
    (b : Bool) (x y : Float)
    → Positive (truncate x)
    → Positive (truncate y)
    → Positive (truncate (elim b [ true ↦ x | false ↦ y ]))
both-Positive true x y hx hy = hx
both-Positive false x y hx hy = hy

nearest_from-Positive :
    (rounds e num den : ℕ) → Positive (truncate (nearest_from rounds e false num den))
unfolding nearest_from truncate signed
nearest_from-Positive zero e num den = tt
nearest_from-Positive (suc rounds) e num den =
    both-Positive (ltb (half_even num den) (2 ^ 53)) (finite false (half_even num den) e)
      (nearest_from rounds (e + 1) false num (2 * den)) (half_even num den * 2 ^ e / 2 ^ 1074, refl)
      (nearest_from-Positive rounds (e + 1) num (2 * den))

zero_times : (n : ℕ) → 0 * n ≡ 0
zero_times n = omega arith

-- Minus zero is rounded to minus zero, and that is the number 0.
nearest-zero : (num : ℕ) → num ≡ 0 → Positive (truncate (nearest true num (2 ^ 1074)))
unfolding nearest nearest_from half_even truncate signed
nearest-zero num h = rw (h) (rw (zero_times (2 ^ 1074)) (0, refl))

zero-Positive : (e m : ℕ) → m ≡ 0 → Positive (truncate (times_1000 (finite true m e)))
unfolding times_1000
zero-Positive e m h = nearest-zero (m * 1000 * 2 ^ e) (rw (h) (zero_times (2 ^ e)))

not_negative-Positive : (x : Float) → is_negative x ≡ false → Positive (milliseconds x)
unfolding milliseconds times_1000 nearest truncate is_negative
not_negative-Positive nan h = tt
not_negative-Positive (infinite minus) h = tt
not_negative-Positive (finite false m e) h =
    nearest_from-Positive 2046 0 (m * 1000 * 2 ^ e * 2 ^ 1074) (2 ^ 1074)
not_negative-Positive (finite true m e) h = zero-Positive e m (ground arith)

ufloat-Positive : (x y : Float) → not_negative x ≡ ok y → Positive (milliseconds y)
unfolding not_negative
ufloat-Positive x y h = step (is_negative x) refl h
  where
    step :
        (b : Bool)
        → b ≡ is_negative x
        → (if b then raised value_error else ok x) ≡ ok y
        → Positive (milliseconds y)
    step true e h = absurd (cc h)
    step false e h =
        let same : x ≡ y = cc h in
        subst (λ (v : Float). Positive (milliseconds v)) same (not_negative-Positive x (sym e))

-- A time that UFLOAT accepts is, where it is a number of milliseconds at all, not below zero.
pub ufloat-milliseconds :
    (text : Text) (x : Float) (z : ℤ)
    → ufloat text ≡ ok x
    → milliseconds x ≡ ok z
    → (n : ℕ) × (z ≡ pos n)
unfolding ufloat
ufloat-milliseconds text x z accepted number = subst Positive number (step (float text) accepted)
  where
    step : (o : Outcome Float) → o >>= not_negative ≡ ok x → Positive (milliseconds x)
    step (ok y) h = ufloat-Positive y x h
    step (raised e) h = absurd (cc h)
    step diverged h = absurd (cc h)
