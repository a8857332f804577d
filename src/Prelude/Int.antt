-- ===== src/Prelude/Int.antt =====
-- Python's integers: `negsuc n` is -(n + 1).
use Prim.Native.Nat.{ℕ, ◌+◌, ◌-◌}
use mathlib.Core.List.{◌∷◌}
use mathlib.Core.Bool.{Bool, true, false}
use mopidy_mpd.Prelude.Tests.{ltb, ◌==◌, if◌then◌else◌}
use mopidy_mpd.Prelude.Texts.{Text}
use mopidy_mpd.Prelude.Decimal.{show_nat}

pub data ℤ : Type 0 where
  pos : ℕ → ℤ
  negsuc : ℕ → ℤ

unfoldable pub show_int : ℤ → Text
unfolding show_nat
show_int (pos n) = show_nat n
show_int (negsuc n) = b'-' ∷ show_nat (n + 1)

abbrev pub lt_int : ℤ → ℤ → Bool
lt_int (pos a) (pos b) = ltb a b
lt_int (pos a) (negsuc b) = false
lt_int (negsuc a) (pos b) = true
lt_int (negsuc a) (negsuc b) = ltb b a

abbrev pub eq_int : ℤ → ℤ → Bool
eq_int (pos a) (pos b) = a == b
eq_int (negsuc a) (negsuc b) = a == b
eq_int _ _ = false

-- `a - b` for a at most b
abbrev signed_gap : ℕ → ℕ → ℤ
signed_gap a b = if a == b then pos 0 else negsuc (b - a - 1)

abbrev pub add_int : ℤ → ℤ → ℤ
add_int (pos a) (pos b) = pos (a + b)
add_int (negsuc a) (negsuc b) = negsuc (a + b + 1)
add_int (pos a) (negsuc b) = if ltb b a then pos (a - (b + 1)) else signed_gap a (b + 1)
add_int (negsuc a) (pos b) = if ltb a b then pos (b - (a + 1)) else signed_gap b (a + 1)

abbrev pub min_int : ℤ → ℤ → ℤ
min_int a b = if lt_int b a then b else a

abbrev pub max_int : ℤ → ℤ → ℤ
max_int a b = if lt_int a b then b else a
