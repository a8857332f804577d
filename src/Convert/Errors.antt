-- ===== src/Convert/Errors.antt =====
-- The converters of src/mopidy_mpd/protocol/__init__.py return, or raise a `ValueError`.
use mopidy_mpd.Prelude.{
  ℕ, Text, codes, Bool, true, false, ◌&&◌, ◌||◌, Option, none, some, ltb, leb, length, is_empty,
  if◌then◌else◌, text_eq,
}
use mopidy_mpd.Outcome.{
  Outcome, ok, raised, diverged, value_error, ack, actor_dead, other_error, ◌>>=◌,
}
use mopidy_mpd.Tokenize.{is_space, drop_while}
use mopidy_mpd.Convert.{
  max_str_digits, decimals, to_outcome, uint, uint_lem, bool, split_colon, bounded, range_parts,
  range, range_lem,
}
use mopidy_mpd.Convert.Signed.{strip, sign, digits, Digits, whole, integer}
use mopidy_mpd.Convert.Float.{
  Float, number, or_value_error, is_negative, float, not_negative, ufloat,
}

-- A value with the property, or a `ValueError`, and no other exception.
abbrev pub Parses : {A : Type 0} → (A → Type 0) → Outcome A → Type 0
Parses P (ok a) = P a
Parses P (raised value_error) = Unit
Parses P (raised _) = ⊥
Parses P diverged = ⊥

pub Parses-bind :
    {A B : Type 0} (P : A → Type 0) (Q : B → Type 0) (m : Outcome A) (f : A → Outcome B)
    → Parses P m
    → ((a : A) → P a → Parses Q (f a))
    → Parses Q (m >>= f)
Parses-bind P Q (ok a) f h k = k a h
Parses-bind P Q (raised value_error) f h k = tt
Parses-bind P Q (raised (ack a)) f h k = absurd h
Parses-bind P Q (raised (actor_dead a)) f h k = absurd h
Parses-bind P Q (raised (other_error a)) f h k = absurd h
Parses-bind P Q diverged f h k = absurd h

pub Parses-map :
    {A : Type 0} (P Q : A → Type 0) (m : Outcome A)
    → ((a : A) → P a → Q a)
    → Parses P m
    → Parses Q m
Parses-map P Q (ok a) k h = k a h
Parses-map P Q (raised value_error) k h = tt
Parses-map P Q (raised (ack a)) k h = h
Parses-map P Q (raised (actor_dead a)) k h = h
Parses-map P Q (raised (other_error a)) k h = h
Parses-map P Q diverged k h = h

-- Any value, or a `ValueError`.
abbrev pub Reads : {A : Type 0} → Outcome A → Type 0
Reads = Parses (λ a. Unit)

Reads-if :
    {A : Type 0} (b : Bool) (x y : Outcome A) → Reads x → Reads y → Reads (if b then x else y)
Reads-if true x y h k = h
Reads-if false x y h k = k

Reads-bind :
    {A B : Type 0} (m : Outcome A) (f : A → Outcome B)
    → Reads m
    → ((a : A) → Reads (f a))
    → Reads (m >>= f)
Reads-bind m f h k = Parses-bind (λ a. Unit) (λ b. Unit) m f h (λ a _. k a)

to_outcome-Reads : (o : Option ℕ) → Reads (to_outcome o)
unfolding to_outcome
to_outcome-Reads none = tt
to_outcome-Reads (some n) = tt

pub uint-Reads : (value : Text) → Reads (uint value)
uint-Reads value = rw (uint_lem value) (
    Reads-if (is_empty value || ltb max_str_digits (length value)) _ _ tt
      (to_outcome-Reads (decimals 0 value)))

pub bool-Reads : (value : Text) → Reads (bool value)
unfolding bool
bool-Reads value =
    Reads-if (text_eq value (codes "1")) _ _ tt (Reads-if (text_eq value (codes "0")) _ _ tt tt)

range_parts-Reads : (parts : Option (Text × Text)) (value : Text) → Reads (range_parts parts value)
unfolding range_parts bounded
range_parts-Reads none value = Reads-bind (uint value) _ (uint-Reads value) (λ start. tt)
range_parts-Reads (some (first, second)) value =
    Reads-bind (uint first) _ (uint-Reads first) (λ start.
      Reads-if (is_empty (drop_while is_space second)) _ _ tt (
        Reads-bind (uint second) _ (uint-Reads second)
          (λ stop. Reads-if (ltb start stop) _ _ tt tt)))

pub range-Reads : (value : Text) → Reads (range value)
range-Reads value = rw (range_lem value) (range_parts-Reads (split_colon value) value)

whole-Reads : (minus : Bool) (d : Option Digits) → Reads (whole minus d)
unfolding whole
whole-Reads minus none = tt
whole-Reads minus (some d) =
    Reads-if (is_empty d.rest && (ltb 0 d.count && leb d.count max_str_digits)) _ _ tt tt

pub integer-Reads : (value : Text) → Reads (integer value)
unfolding integer
integer-Reads value = whole-Reads (sign (strip value)).0 (digits (sign (strip value)).1)

or_value_error-Reads : (x : Option Float) → Reads (or_value_error x)
unfolding or_value_error
or_value_error-Reads none = tt
or_value_error-Reads (some x) = tt

float-Reads : (value : Text) → Reads (float value)
unfolding float
float-Reads value = or_value_error-Reads (number (sign (strip value)).0 (sign (strip value)).1)

pub ufloat-Reads : (value : Text) → Reads (ufloat value)
unfolding ufloat not_negative
ufloat-Reads value =
    Reads-bind (float value) not_negative (float-Reads value)
      (λ x. Reads-if (is_negative x) _ _ tt tt)
