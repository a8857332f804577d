-- ===== src/Requests/Handlers.antt =====
-- How each handler of src/mopidy_mpd/protocol/ that is a command of the session ends.
use mopidy_mpd.Prelude.{
  ℕ, ◌+◌, Text, codes, ◌≢◌, Bool, false, Option, some, List, [], ◌∷◌, ◌++◌, if◌then◌else◌, text_eq,
  All, Bool-cases, inl, inr, is_empty, set_update, set_intersection, is_subset,
}
use mopidy_mpd.Outcome.{Outcome, ok, diverged}
use mopidy_mpd.Session.{Session, M, lift, ◌>>◌}
use mopidy_mpd.Protocol.{
  Result, nothing, Arg, none_arg, str_arg, int_arg, bool_arg, slice_arg, float_arg,
}
use mopidy_mpd.Dispatcher.{Response, has_error}
use mopidy_mpd.Commands.Connection.{
  tagtype_list, validate_tagtypes, texts_of, set_tagtypes, tagtypes_with, tagtypes_of, is_password,
  close, kill, password, ping, tagtypes, connection_handlers, lower,
}
use mopidy_mpd.Commands.CommandList.{
  command_list_begin, command_list_ok_begin, run_list, command_list_end, command_list_handlers,
}
use mopidy_mpd.Commands.Status.{or_all, report, idle, noidle, idle_handlers}
use mopidy_mpd.Commands.Reflection.{
  Listing, commands, notcommands, decoders, config, reflection_handlers,
}
use mopidy_mpd.Requests.Ends.{Ends, Ends-bind, Ends-bind_lift, Ends-choice, Ends-if}
use mopidy_mpd.Requests.Calls.{HandlerEnds, handler-Ends}

-- No stored command is the text that ends the list.
abbrev pub NoEnd : List Text → Type 0
NoEnd = All (λ request. request ≢ codes "command_list_end")

-- The stored commands are fit to run, and `C` holds of the core.
abbrev pub Holds : {W : Type 0} → (W → Type 0) → Session W → Type 0
Holds C s = NoEnd s.command_list × C s.core

validate_tagtypes-total : (ts : List Text) → validate_tagtypes ts ≢ diverged
unfolding validate_tagtypes
validate_tagtypes-total ts = elim (Bool-cases (is_empty ts)) [
  | inl none_given ↦ rw (none_given, validate_tagtypes) (λ e. cc)
  | inr some_given ↦ elim (Bool-cases (is_subset ts tagtype_list)) [
    | inl known ↦ rw (some_given, known, validate_tagtypes) (λ e. cc)
    | inr unknown ↦ rw (some_given, unknown, validate_tagtypes) (λ e. cc)
  ]
]

module _ {W : Type 0} (C : W → Type 0) where
  password-Ends :
      (p : Option Text) (arguments : List Arg) (s : Session W)
      → Holds C s
      → Ends (Holds C) (password p arguments s)
  unfolding password
  password-Ends p (str_arg t ∷ []) s h = Ends-if (Holds C) (is_password p t) _ _ s (λ _. h) (λ _. h)
  password-Ends p [] s h = h
  password-Ends p (none_arg ∷ rest) s h = h
  password-Ends p (int_arg n ∷ rest) s h = h
  password-Ends p (bool_arg b ∷ rest) s h = h
  password-Ends p (slice_arg b ∷ rest) s h = h
  password-Ends p (float_arg b ∷ rest) s h = h
  password-Ends p (str_arg t ∷ a ∷ rest) s h = h

  set_tagtypes-Ends :
      (o : Outcome (Unit {0})) (f : List Text → List Text) (s : Session W)
      → o ≢ diverged
      → Holds C s
      → Ends (Holds C) ((lift o >> set_tagtypes f) s)
  set_tagtypes-Ends o f s total h =
      Ends-bind_lift (Holds C) o (λ _. set_tagtypes f) s total h (λ _ _. unfold set_tagtypes in h)

  tagtypes_with-Ends :
      (subcommand : Text) (parameters : List Text) (s : Session W)
      → Holds C s
      → Ends (Holds C) (tagtypes_with subcommand parameters s)
  tagtypes_with-Ends subcommand parameters s h =
      let total = validate_tagtypes-total parameters in
      unfold tagtypes_with in
      Ends-if (Holds C) (text_eq subcommand (codes "all")) _ _ s (λ _. h)
        (λ _.
          Ends-if (Holds C) (text_eq subcommand (codes "clear")) _ _ s (λ _. h)
            (λ _.
              Ends-if (Holds C) (text_eq subcommand (codes "disable")) _ _ s
                (λ _. set_tagtypes-Ends (validate_tagtypes parameters) _ s total h)
                (λ _.
                  Ends-if (Holds C) (text_eq subcommand (codes "enable")) _ _ s
                    (λ _. set_tagtypes-Ends (validate_tagtypes parameters) _ s total h) (λ _. h))))

  tagtypes_of-Ends :
      (ts : List Text) (s : Session W) → Holds C s → Ends (Holds C) (tagtypes_of ts s)
  tagtypes_of-Ends [] s h = unfold tagtypes_of in h
  tagtypes_of-Ends (t ∷ ts) s h = unfold tagtypes_of in tagtypes_with-Ends (lower t) ts s h

  pub connection_handlers-Ends :
      (p : Option Text) (s : Session W)
      → Holds C s
      → All (HandlerEnds (Holds C) s) (connection_handlers p)
  unfolding connection_handlers
  connection_handlers-Ends p s h = (
    handler-Ends (Holds C) s _ tt (λ _. unfold close in h),
    (
      handler-Ends (Holds C) s _ tt (λ _. unfold kill in h),
      (
        handler-Ends (Holds C) s _ (λ f e. absurd (cc), tt) (λ a. password-Ends p a s h),
        (
          handler-Ends (Holds C) s _ tt (λ _. unfold ping in h),
          (
            handler-Ends (Holds C) s _ tt
                (λ a. unfold tagtypes in tagtypes_of-Ends (texts_of a) s h),
            tt,
          ),
        ),
      ),
    ),
  )

  report-Ends : (active : List Text) (s : Session W) → Holds C s → Ends (Holds C) (report active s)
  unfolding report
  report-Ends [] s h = h
  report-Ends (x ∷ xs) s h = h

  idle-Ends : (arguments : List Arg) (s : Session W) → Holds C s → Ends (Holds C) (idle arguments s)
  unfolding idle
  idle-Ends arguments s h =
      let subscriptions = set_update s.subsystem_subscriptions (or_all (texts_of arguments)) in
      report-Ends (set_intersection subscriptions s.subsystem_events)
        (record s { subsystem_subscriptions = subscriptions }) h

  noidle-Ends :
      (arguments : List Arg) (s : Session W) → Holds C s → Ends (Holds C) (noidle arguments s)
  unfolding noidle
  noidle-Ends arguments s h =
      Ends-choice (Holds C) {A = Result} (is_empty s.subsystem_subscriptions) (ok nothing, s)
        (
          ok nothing,
          record s { subsystem_events = []; subsystem_subscriptions = []; prevent_timeout = false },
        )
        (λ _. h) (λ _. h)

  pub idle_handlers-Ends : (s : Session W) → Holds C s → All (HandlerEnds (Holds C) s) idle_handlers
  unfolding idle_handlers
  idle_handlers-Ends s h = (
    handler-Ends (Holds C) s _ tt (λ a. idle-Ends a s h),
    (handler-Ends (Holds C) s _ tt (λ a. noidle-Ends a s h), tt),
  )

  pub reflection_handlers-Ends :
      (registry : List Listing) (s : Session W)
      → Holds C s
      → All (HandlerEnds (Holds C) s) (reflection_handlers registry)
  unfolding reflection_handlers
  reflection_handlers-Ends registry s h = (
    handler-Ends (Holds C) s _ tt (λ _. unfold config in h),
    (
      handler-Ends (Holds C) s _ tt (λ _. unfold commands in h),
      (
        handler-Ends (Holds C) s _ tt (λ _. unfold decoders in h),
        (handler-Ends (Holds C) s _ tt (λ _. unfold notcommands in h), tt),
      ),
    ),
  )

  -- The commands of a list, each run by a `handle` that ends.
  pub run_list-Ends :
      (handle : Text → Option ℕ → M W Response) (with_oks : Bool) (index : ℕ)
      (commands response : List Text) (s : Session W)
      → ((request : Text) (i : Option ℕ) (s' : Session W)
          → request ≢ codes "command_list_end"
          → Holds C s'
          → Ends (Holds C) (handle request i s'))
      → NoEnd commands
      → Holds C s
      → Ends (Holds C) (run_list handle with_oks index commands response s)
  unfolding run_list
  run_list-Ends handle with_oks index [] response s k fit h = h
  run_list-Ends handle with_oks index (command ∷ commands) response s k (hc, hcs) h =
      Ends-bind (Holds C) (handle command (some index)) _ s (k command (some index) s hc h)
        (λ lines s' h'.
          Ends-if (Holds C) (has_error (response ++ lines)) _ _ s' (λ _. h')
            (λ _.
              run_list-Ends handle with_oks (index + 1) commands
                (if with_oks
                  then (response ++ lines) ++ codes "list_OK" ∷ []
                  else response ++ lines)
                s' k hcs h'))

  -- The handlers of command lists end if no list is received, or if its commands can be run.
  pub command_list_handlers-Ends :
      (handle : Text → Option ℕ → M W Response) (s : Session W)
      → Holds C s
      → ((arguments : List Arg) → Ends (Holds C) (command_list_end handle arguments s))
      → All (HandlerEnds (Holds C) s) (command_list_handlers handle)
  unfolding command_list_handlers
  command_list_handlers-Ends handle s h k = (
    handler-Ends (Holds C) s _ tt (λ _. unfold command_list_begin in (tt, h.1)),
    (
      handler-Ends (Holds C) s _ tt k,
      (handler-Ends (Holds C) s _ tt (λ _. unfold command_list_ok_begin in (tt, h.1)), tt),
    ),
  )
