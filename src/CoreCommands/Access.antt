-- ===== src/CoreCommands/Access.antt =====
-- The commands of src/mopidy_mpd/protocol/audio_output.py, mount.py, stickers.py and channels.py in
-- `handle_request`.
use mopidy_mpd.Prelude.{
  ℕ, zero, suc, Text, codes, pos, negsuc, ◌≡◌, ◌≢◌, refl, subst, Bool, true, false, Option, none,
  some, List, [], ◌∷◌, ◌++◌, All, All-append,
}
use mopidy_mpd.Outcome.{Outcome, ok, raised, diverged, ack}
use mopidy_mpd.Tokenize.{is_word, is_lower}
use mopidy_mpd.Convert.{uint}
use mopidy_mpd.Convert.Laws.{uint-total}
use mopidy_mpd.Exceptions.{mpd_not_implemented_error}
use mopidy_mpd.Commands.Connection.{required}
use mopidy_mpd.Session.{Session}
use mopidy_mpd.Protocol.{
  Result, Param, Arg, none_arg, str_arg, int_arg, bool_arg, slice_arg, float_arg,
}
use mopidy_mpd.Protocol.Calls.{ParamEnds, SpecEnds, bind-total}
use mopidy_mpd.Dispatcher.{Config}
use mopidy_mpd.Requests.{CoreHandler, handle_request}
use mopidy_mpd.Requests.Handlers.{NoEnd}
use mopidy_mpd.Requests.Nested.{handle_request-total}
use mopidy_mpd.Requests.Tables.{CoreTotal}
use mopidy_mpd.Requests.Access.{IsGuarded, all_guarded, All-IsGuarded, handle_request-guarded}
use mopidy_mpd.CoreCommands.Outputs.{
  Mixer, output_handlers, uint_arg, uint_param, set_output, check_success, if_known, no_such_output,
  bad_arguments, disableoutput, enableoutput, toggleoutput, toggle_from, outputs,
}
use mopidy_mpd.CoreCommands.Unimplemented.{
  unimplemented_handlers, optional, mount, unmount, listmounts, listneighbors, sticker, subscribe,
  unsubscribe, channels, readmessages, sendmessage,
}

module _ {W : Type 0} (mixer : Mixer W) where
  -- The registered commands of the core.
  unfoldable pub core_handlers : List (CoreHandler W)
  unfolding output_handlers
  core_handlers = output_handlers mixer ++ unimplemented_handlers

-- Every call to the mixer ends.
pub record MixerEnds {W : Type 0} (mixer : Mixer W) : Type 0 where
  pub get_ends : (w : W) → mixer.get_mute w ≢ diverged
  pub set_ends : (b : Bool) (w : W) → (mixer.set_mute b w).0 ≢ diverged

module _ {W : Type 0} (mixer : Mixer W) where
  pub core_handlers-IsGuarded : All IsGuarded (core_handlers mixer)
  unfolding core_handlers all_guarded is_word is_lower
  core_handlers-IsGuarded = All-IsGuarded (core_handlers mixer) refl

  -- Without the password no request reaches the mixer, or anything else behind the registered
  -- commands of the core, where a password is configured and no stored command is the text
  -- `command_list_end`.
  pub handle_request_silent :
      (config : Config) (p request : Text) (index : Option ℕ) (s : Session W)
      → config.password ≡ some p
      → s.authenticated ≡ false
      → NoEnd s.command_list
      → (handle_request config (core_handlers mixer) request index s).1.core ≡ s.core
  handle_request_silent config p request index s secret unknown fit =
      handle_request-guarded config (core_handlers mixer) p request index s core_handlers-IsGuarded
        secret unknown fit

  module _ (ends : MixerEnds mixer) where
    uint_arg-total : (text : Text) → uint_arg text ≢ diverged
    unfolding uint_arg
    uint_arg-total text = bind-total (uint text) _ (uint-total text) (λ n e. cc)

    uint_param-Ends : ParamEnds uint_param
    uint_param-Ends f h text =
        let same : uint_arg ≡ f = cc h in
        subst (λ (g : Text → Outcome Arg). g text ≢ diverged) same (uint_arg-total text)

    set_output-total :
        (mute : Bool) (problem : Text) (w : W) → (set_output mixer mute problem w).0 ≢ diverged
    unfolding set_output check_success
    set_output-total mute problem w = step (mixer.set_mute mute w).0 (ends.set_ends mute w)
      where
        step : (o : Outcome Bool) → o ≢ diverged → check_success problem o ≢ diverged
        step (ok true) h = λ e. cc
        step (ok false) h = λ e. cc
        step (raised e) h = λ e'. cc
        step diverged h = absurd (h refl)

    if_known-total :
        (run : W → Outcome Result × W)
        → ((w : W) → (run w).0 ≢ diverged)
        → (arguments : List Arg) (w : W) → (if_known mixer run arguments w).0 ≢ diverged
    unfolding if_known no_such_output bad_arguments
    if_known-total run h (int_arg (pos zero) ∷ []) w = h w
    if_known-total run h (int_arg (pos (suc n)) ∷ []) w = λ e. cc
    if_known-total run h (int_arg (negsuc n) ∷ []) w = λ e. cc
    if_known-total run h (int_arg (pos zero) ∷ a ∷ rest) w = λ e. cc
    if_known-total run h (int_arg (pos (suc n)) ∷ a ∷ rest) w = λ e. cc
    if_known-total run h (int_arg (negsuc n) ∷ a ∷ rest) w = λ e. cc
    if_known-total run h [] w = λ e. cc
    if_known-total run h (none_arg ∷ rest) w = λ e. cc
    if_known-total run h (str_arg t ∷ rest) w = λ e. cc
    if_known-total run h (bool_arg b ∷ rest) w = λ e. cc
    if_known-total run h (slice_arg r ∷ rest) w = λ e. cc
    if_known-total run h (float_arg x ∷ rest) w = λ e. cc

    toggle_from-total :
        (o : Outcome (Option Bool)) (w : W) → o ≢ diverged → (toggle_from mixer o w).0 ≢ diverged
    unfolding toggle_from
    toggle_from-total (ok mute) w h = λ e. cc
    toggle_from-total (raised e) w h = λ e'. cc
    toggle_from-total diverged w h = absurd (h refl)

    outputs-total : (arguments : List Arg) (w : W) → (outputs mixer arguments w).0 ≢ diverged
    unfolding outputs
    outputs-total arguments w = bind-total (mixer.get_mute w) _ (ends.get_ends w) (λ mute e. cc)

    output_handlers-CoreTotal : All CoreTotal (output_handlers mixer)
    unfolding output_handlers disableoutput enableoutput toggleoutput
    output_handlers-CoreTotal = (
      record {
        spec_ends = (uint_param-Ends, tt);
        total = λ tagtypes arguments w.
            if_known-total (set_output mixer false (codes "problems disabling output"))
              (set_output-total false _) arguments w;
      },
      (
        record {
          spec_ends = (uint_param-Ends, tt);
          total = λ tagtypes arguments w.
              if_known-total (set_output mixer true (codes "problems enabling output"))
                (set_output-total true _) arguments w;
        },
        (
          record {
            spec_ends = (uint_param-Ends, tt);
            total = λ tagtypes arguments w.
                if_known-total (λ v. toggle_from mixer (mixer.get_mute v) v)
                  (λ v. toggle_from-total (mixer.get_mute v) v (ends.get_ends v)) arguments w;
          },
          (
            record { spec_ends = tt; total = λ tagtypes arguments w. outputs-total arguments w },
            tt,
          ),
        ),
      ),
    )

    no_validator : (p : Param) → p.validator ≡ none → ParamEnds p
    no_validator p h f e = absurd (cc (h, e))

    refuses :
        (h : CoreHandler W)
        → SpecEnds h.spec
        → ((tagtypes : List Text) (arguments : List Arg) (w : W)
            → (h.func tagtypes arguments w).0 ≡ raised (ack mpd_not_implemented_error))
        → CoreTotal h
    refuses h spec answer = record {
      spec_ends = spec;
      total = λ tagtypes arguments w e. absurd (cc (answer tagtypes arguments w, e));
    }

    unimplemented-CoreTotal : All CoreTotal (unimplemented_handlers {W = W})
    unimplemented-CoreTotal =
        let r = no_validator required refl in
        let o = no_validator optional refl in
        (
          refuses channels tt (λ _ _ _. refl),
          (
            refuses readmessages tt (λ _ _ _. refl),
            (
              refuses sendmessage (r, (r, tt)) (λ _ _ _. refl),
              (
                refuses subscribe (r, tt) (λ _ _ _. refl),
                (
                  refuses unsubscribe (r, tt) (λ _ _ _. refl),
                  (
                    refuses listmounts tt (λ _ _ _. refl),
                    (
                      refuses listneighbors tt (λ _ _ _. refl),
                      (
                        refuses mount (r, (r, tt)) (λ _ _ _. refl),
                        (
                          refuses unmount (r, tt) (λ _ _ _. refl),
                          (refuses sticker (r, (r, (r, (o, (o, tt))))) (λ _ _ _. refl), tt),
                        ),
                      ),
                    ),
                  ),
                ),
              ),
            ),
          ),
        )

    -- With the registered commands of the core every request ends, where the calls to the mixer end
    -- and no stored command is the text `command_list_end`.
    pub handle_request_ends :
        (config : Config) (request : Text) (index : Option ℕ) (s : Session W)
        → NoEnd s.command_list
        → (handle_request config (core_handlers mixer) request index s).0 ≢ diverged
    unfolding core_handlers
    handle_request_ends config request index s fit =
        (handle_request-total config (core_handlers mixer) request index s
          (All-append CoreTotal (output_handlers mixer) unimplemented_handlers
            output_handlers-CoreTotal unimplemented-CoreTotal)
          fit).0
