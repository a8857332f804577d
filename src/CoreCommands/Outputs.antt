-- ===== src/CoreCommands/Outputs.antt =====
-- src/mopidy_mpd/protocol/audio_output.py. The mixer of the core is an interface: what `.get()` on
-- its futures gives, and what a call does to the core.
pub mod Mute
use mopidy_mpd.Prelude.{
  ℕ, zero, suc, Text, codes, ℤ, pos, Bool, true, false, not, Option, none, some, List, [], ◌∷◌,
  if◌then◌else◌,
}
use mopidy_mpd.Exceptions.{mpd_error, system_error, no_exist_error}
use mopidy_mpd.Outcome.{Outcome, ok, raised, diverged, ack, other_error, ◌>>=◌}
use mopidy_mpd.Convert.{uint}
use mopidy_mpd.Protocol.{
  str, int, Result, nothing, many, items, pair, Arg, int_arg, Param, positional,
}
use mopidy_mpd.Requests.{CoreHandler}

pub record Mixer (W : Type 0) : Type 0 where
  pub get_mute : W → Outcome (Option Bool)
  pub set_mute : Bool → W → Outcome Bool × W

-- `protocol.UINT` as a validator
unfoldable pub uint_arg : Text → Outcome Arg
unfolding uint
uint_arg text = uint text >>= λ n. ok (int_arg (pos n))

abbrev pub uint_param : Param
uint_param = record { default = none; validator = some uint_arg }

-- `if not success: raise MpdSystemError(problem)`
unfoldable pub check_success : Text → Outcome Bool → Outcome Result
check_success problem (ok true) = ok nothing
check_success problem (ok false) = raised (ack (mpd_error system_error problem none))
check_success problem (raised e) = raised e
check_success problem diverged = diverged

-- `not mute_status`, where the status may be `None`
abbrev pub flipped : Option Bool → Bool
flipped none = true
flipped (some b) = not b

unfoldable pub no_such_output : Outcome Result
no_such_output = raised (ack (mpd_error no_exist_error (codes "No such audio output") none))

unfoldable pub bad_arguments : Outcome Result
bad_arguments = raised (other_error (codes "TypeError"))

unfoldable pub output_lines : Option Bool → Result
output_lines mute = many (
    items (
      pair (codes "outputid") (int (pos 0))
      ∷ pair (codes "outputname") (str (codes "Mute"))
      ∷ pair (codes "outputenabled") (int (if not (flipped mute) then pos 1 else pos 0))
      ∷ []))

module _ {W : Type 0} (mixer : Mixer W) where
  unfoldable pub set_output : Bool → Text → W → Outcome Result × W
  unfolding check_success
  set_output mute problem w =
      let (success, w') = mixer.set_mute mute w in (check_success problem success, w')

  -- `if outputid == 0: …`, `else: raise MpdNoExistError`
  unfoldable pub if_known : (W → Outcome Result × W) → List Arg → W → Outcome Result × W
  unfolding no_such_output bad_arguments
  if_known run (int_arg (pos zero) ∷ []) w = run w
  if_known run (int_arg _ ∷ []) w = (no_such_output, w)
  if_known run _ w = (bad_arguments, w)

  unfoldable pub disableoutput : List Arg → W → Outcome Result × W
  unfolding if_known set_output
  disableoutput = if_known (set_output false (codes "problems disabling output"))

  unfoldable pub enableoutput : List Arg → W → Outcome Result × W
  unfolding if_known set_output
  enableoutput = if_known (set_output true (codes "problems enabling output"))

  -- The future that `set_mute` returns is not waited for, so it counts as success.
  unfoldable pub toggle_from : Outcome (Option Bool) → W → Outcome Result × W
  toggle_from (ok mute) w = (ok nothing, (mixer.set_mute (flipped mute) w).1)
  toggle_from (raised e) w = (raised e, w)
  toggle_from diverged w = (diverged, w)

  unfoldable pub toggleoutput : List Arg → W → Outcome Result × W
  unfolding if_known toggle_from
  toggleoutput = if_known (λ w. toggle_from (mixer.get_mute w) w)

  unfoldable pub outputs : List Arg → W → Outcome Result × W
  unfolding output_lines
  outputs arguments w = (mixer.get_mute w >>= (λ mute. ok (output_lines mute)), w)

  abbrev command : Text → List Param → (List Arg → W → Outcome Result × W) → CoreHandler W
  command name params run = record {
    name = name;
    spec = positional params;
    func = λ tagtypes arguments w. run arguments w;
    auth_required = true;
    list_command = true;
  }

  unfoldable pub output_handlers : List (CoreHandler W)
  unfolding disableoutput enableoutput toggleoutput outputs uint_arg
  output_handlers =
      command (codes "disableoutput") (uint_param ∷ []) disableoutput
      ∷ command (codes "enableoutput") (uint_param ∷ []) enableoutput
      ∷ command (codes "toggleoutput") (uint_param ∷ []) toggleoutput
      ∷ command (codes "outputs") [] outputs
      ∷ []
