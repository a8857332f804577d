-- ===== src/CoreCommands/Params.antt =====
-- The validators of src/mopidy_mpd/protocol/__init__.py as the parameters of registered functions.
pub mod Types
use mopidy_mpd.Prelude.{Text, none, some}
use mopidy_mpd.Outcome.{Outcome, ok, ◌>>=◌}
use mopidy_mpd.Convert.{bool, range}
use mopidy_mpd.Convert.Signed.{integer}
use mopidy_mpd.Convert.Float.{ufloat}
use mopidy_mpd.Protocol.{Param, Arg, none_arg, int_arg, bool_arg, slice_arg, float_arg}
use mopidy_mpd.CoreCommands.Outputs.{uint_arg}

unfoldable pub int_token : Text → Outcome Arg
unfolding integer
int_token text = integer text >>= λ n. ok (int_arg n)

unfoldable pub bool_token : Text → Outcome Arg
unfolding bool
bool_token text = bool text >>= λ b. ok (bool_arg b)

unfoldable pub range_token : Text → Outcome Arg
unfolding range
range_token text = range text >>= λ r. ok (slice_arg r)

unfoldable pub ufloat_token : Text → Outcome Arg
unfolding ufloat
ufloat_token text = ufloat text >>= λ x. ok (float_arg x)

-- A validator, and the same with the default `None`.
abbrev validated : (Text → Outcome Arg) → Param
validated f = record { default = none; validator = some f }

abbrev or_none : (Text → Outcome Arg) → Param
or_none f = record { default = some none_arg; validator = some f }

abbrev pub int_param : Param
int_param = validated int_token

abbrev pub bool_param : Param
bool_param = validated bool_token

abbrev pub range_param : Param
range_param = validated range_token

abbrev pub ufloat_param : Param
ufloat_param = validated ufloat_token

abbrev pub optional_int : Param
optional_int = or_none int_token

abbrev pub optional_uint : Param
optional_uint = or_none uint_arg

abbrev pub optional_bool : Param
optional_bool = or_none bool_token

abbrev pub optional_range : Param
optional_range = or_none range_token
