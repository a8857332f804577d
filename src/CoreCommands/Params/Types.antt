-- ===== src/CoreCommands/Params/Types.antt =====
-- What the parameters of registered functions stand for, by the validators of
-- src/mopidy_mpd/protocol/__init__.py.
use mopidy_mpd.Prelude.{ℕ, ℤ, pos, Text, Bool, ◌≡◌, refl, subst, none, some, ◌⊎◌, inl, inr}
use mopidy_mpd.Outcome.{Outcome, ok, ◌>>=◌}
use mopidy_mpd.Convert.{Slice, uint, bool, range}
use mopidy_mpd.Convert.Signed.{integer}
use mopidy_mpd.Convert.Float.{Float, ufloat}
use mopidy_mpd.Convert.Errors.{
  Parses, Parses-bind, Parses-map, Reads, uint-Reads, bool-Reads, range-Reads, integer-Reads,
  ufloat-Reads,
}
use mopidy_mpd.Protocol.{Arg, none_arg, str_arg, int_arg, bool_arg, slice_arg, float_arg}
use mopidy_mpd.Protocol.Binding.{IsTyped}
use mopidy_mpd.Commands.Connection.{required}
use mopidy_mpd.CoreCommands.Outputs.{uint_arg, uint_param}
use mopidy_mpd.CoreCommands.Params.{
  int_token, bool_token, range_token, ufloat_token, int_param, bool_param, range_param,
  ufloat_param, optional_int, optional_uint, optional_bool, optional_range,
}

abbrev pub IsText : Arg → Type 0
IsText a = (t : Text) × (a ≡ str_arg t)

abbrev pub IsInteger : Arg → Type 0
IsInteger a = (n : ℤ) × (a ≡ int_arg n)

abbrev pub IsNatural : Arg → Type 0
IsNatural a = (n : ℕ) × (a ≡ int_arg (pos n))

abbrev pub IsTruth : Arg → Type 0
IsTruth a = (b : Bool) × (a ≡ bool_arg b)

abbrev pub IsRange : Arg → Type 0
IsRange a = (r : Slice) × (a ≡ slice_arg r)

abbrev pub IsTime : Arg → Type 0
IsTime a = (x : Float) × (a ≡ float_arg x)

-- `None`, or of the type.
abbrev pub OrNone : (Arg → Type 0) → Arg → Type 0
OrNone P a = (a ≡ none_arg) ⊎ P a

Parses-arg :
    {A : Type 0} (P : Arg → Type 0) (m : Outcome A) (f : A → Arg)
    → Reads m
    → ((a : A) → P (f a))
    → Parses P (m >>= λ a. ok (f a))
Parses-arg P m f h k = Parses-bind (λ a. Unit) P m (λ a. ok (f a)) h (λ a _. k a)

module _ (P : Arg → Type 0) (f : Text → Outcome Arg) (parses : (t : Text) → Parses P (f t)) where
  validated-IsTyped : IsTyped P (record { default = none; validator = some f })
  validated-IsTyped = record {
    default_of = λ a e. absurd (cc e);
    token_of = λ e. absurd (cc e);
    value_of = λ g e t. subst (λ (k : Text → Outcome Arg). Parses P (k t)) (same g e) (parses t);
  }
    where
      same : (g : Text → Outcome Arg) → some f ≡ some g → f ≡ g
      same g e = cc

  OrNone-IsTyped : IsTyped (OrNone P) (record { default = some none_arg; validator = some f })
  OrNone-IsTyped = record {
    default_of = λ a e. inl (is_none a e);
    token_of = λ e. absurd (cc e);
    value_of = λ g e t.
        subst (λ (k : Text → Outcome Arg). Parses (OrNone P) (k t)) (same g e)
          (Parses-map P (OrNone P) (f t) (λ a h. inr h) (parses t));
  }
    where
      same : (g : Text → Outcome Arg) → some f ≡ some g → f ≡ g
      same g e = cc

      is_none : (a : Arg) → some none_arg ≡ some a → a ≡ none_arg
      is_none a e = cc

pub required-IsTyped : IsTyped IsText required
required-IsTyped = record {
  default_of = λ a e. absurd (cc e);
  token_of = λ e t. (t, refl);
  value_of = λ f e. absurd (cc e);
}

uint_arg-Parses : (t : Text) → Parses IsNatural (uint_arg t)
unfolding uint_arg
uint_arg-Parses t =
    Parses-arg IsNatural (uint t) (λ n. int_arg (pos n)) (uint-Reads t) (λ n. (n, refl))

int_token-Parses : (t : Text) → Parses IsInteger (int_token t)
unfolding int_token
int_token-Parses t = Parses-arg IsInteger (integer t) int_arg (integer-Reads t) (λ n. (n, refl))

bool_token-Parses : (t : Text) → Parses IsTruth (bool_token t)
unfolding bool_token
bool_token-Parses t = Parses-arg IsTruth (bool t) bool_arg (bool-Reads t) (λ b. (b, refl))

range_token-Parses : (t : Text) → Parses IsRange (range_token t)
unfolding range_token
range_token-Parses t = Parses-arg IsRange (range t) slice_arg (range-Reads t) (λ r. (r, refl))

ufloat_token-Parses : (t : Text) → Parses IsTime (ufloat_token t)
unfolding ufloat_token
ufloat_token-Parses t = Parses-arg IsTime (ufloat t) float_arg (ufloat-Reads t) (λ x. (x, refl))

pub uint_param-IsTyped : IsTyped IsNatural uint_param
uint_param-IsTyped = validated-IsTyped IsNatural uint_arg uint_arg-Parses

pub int_param-IsTyped : IsTyped IsInteger int_param
int_param-IsTyped = validated-IsTyped IsInteger int_token int_token-Parses

pub bool_param-IsTyped : IsTyped IsTruth bool_param
bool_param-IsTyped = validated-IsTyped IsTruth bool_token bool_token-Parses

pub range_param-IsTyped : IsTyped IsRange range_param
range_param-IsTyped = validated-IsTyped IsRange range_token range_token-Parses

pub ufloat_param-IsTyped : IsTyped IsTime ufloat_param
ufloat_param-IsTyped = validated-IsTyped IsTime ufloat_token ufloat_token-Parses

pub optional_int-IsTyped : IsTyped (OrNone IsInteger) optional_int
optional_int-IsTyped = OrNone-IsTyped IsInteger int_token int_token-Parses

pub optional_uint-IsTyped : IsTyped (OrNone IsNatural) optional_uint
optional_uint-IsTyped = OrNone-IsTyped IsNatural uint_arg uint_arg-Parses

pub optional_bool-IsTyped : IsTyped (OrNone IsTruth) optional_bool
optional_bool-IsTyped = OrNone-IsTyped IsTruth bool_token bool_token-Parses

pub optional_range-IsTyped : IsTyped (OrNone IsRange) optional_range
optional_range-IsTyped = OrNone-IsTyped IsRange range_token range_token-Parses
