-- ===== src/CoreCommands/Registered.antt =====
-- All registered commands in `handle_request` of src/mopidy_mpd/dispatcher.py, and their registration by
-- `Commands.add` of src/mopidy_mpd/protocol/__init__.py.
use mopidy_mpd.Prelude.{
  ℕ, Text, ◌≡◌, refl, sym, subst, Bool, true, false, Option, some, List, [], ◌∷◌, All, text_eq,
}
use mopidy_mpd.Outcome.{Outcome, ok, ◌>>=◌}
use mopidy_mpd.Tokenize.{is_word, is_lower}
use mopidy_mpd.Session.{Session, M}
use mopidy_mpd.Protocol.{Handler, add, find_handler}
use mopidy_mpd.Dispatcher.{Config, Response}
use mopidy_mpd.Commands.Connection.{connection_handlers}
use mopidy_mpd.Commands.CommandList.{command_list_handlers}
use mopidy_mpd.Commands.Status.{idle_handlers}
use mopidy_mpd.Commands.Reflection.{reflection_handlers}
use mopidy_mpd.Requests.{CoreHandler, of_cores, table}
use mopidy_mpd.Requests.Handlers.{NoEnd}
use mopidy_mpd.Requests.Access.{IsGuarded, all_guarded, All-IsGuarded}
use mopidy_mpd.Requests.Login.{IsLogin, requests, requests-Locked}
use mopidy_mpd.CoreCommands.Outputs.{output_handlers}
use mopidy_mpd.CoreCommands.Handlers.{Services, all_handlers}

-- The registered functions, one after the other.
unfoldable pub add_all :
    {W : Type 0} → List (Handler W) → List (Handler W) → Outcome (List (Handler W))
unfolding add find_handler text_eq
add_all [] handlers = ok handlers
add_all (h ∷ hs) handlers = add h handlers >>= add_all hs

module _ {W : Type 0} (services : Services W) where
  all_handlers-IsGuarded : All IsGuarded (all_handlers services)
  unfolding all_handlers output_handlers all_guarded is_word is_lower
  all_handlers-IsGuarded = All-IsGuarded (all_handlers services) refl

-- The same command with a record of its calls beside the core: whether its function was called, be it
-- that it only asks the core.
abbrev pub recorded : {W : Type 0} → CoreHandler W → CoreHandler (W × Bool)
recorded {W} h = record {
  name = h.name;
  spec = h.spec;
  func = λ tagtypes arguments (w, called).
      let (result, w') = h.func tagtypes arguments w in (result, (w', true));
  auth_required = h.auth_required;
  list_command = h.list_command;
}

abbrev pub all_recorded : {W : Type 0} → List (CoreHandler W) → List (CoreHandler (W × Bool))
all_recorded [] = []
all_recorded (h ∷ hs) = recorded h ∷ all_recorded hs

-- The session with such a record, in which nothing was called.
abbrev pub recording : {W : Type 0} → Session W → Session (W × Bool)
recording s = record {
  authenticated = s.authenticated;
  command_list_receiving = s.command_list_receiving;
  command_list_ok = s.command_list_ok;
  command_list = s.command_list;
  command_list_index = s.command_list_index;
  subsystem_events = s.subsystem_events;
  subsystem_subscriptions = s.subsystem_subscriptions;
  tagtypes = s.tagtypes;
  prevent_timeout = s.prevent_timeout;
  recv_buffer = s.recv_buffer;
  effects = s.effects;
  core = (s.core, false);
}

module _ {W : Type 0} (services : Services W) where
  all_recorded-IsGuarded : All IsGuarded (all_recorded (all_handlers services))
  unfolding all_handlers output_handlers all_guarded is_word is_lower
  all_recorded-IsGuarded = All-IsGuarded (all_recorded (all_handlers services)) refl

locked :
    {W : Type 0} (config : Config) (cores : List (CoreHandler W)) (p : Text) (sent : List Text)
    (s : Session W)
    → All IsGuarded cores
    → config.password ≡ some p
    → s.authenticated ≡ false
    → s.command_list ≡ []
    → All (λ request. ¬ IsLogin p request) sent
    → ((requests config cores sent s).core ≡ s.core)
      × ((requests config cores sent s).authenticated ≡ false)
locked config cores p sent s guarded secret unknown empty others =
    let fit : NoEnd s.command_list = subst NoEnd (sym empty) tt in
    let held =
      requests-Locked s.core config cores p sent s guarded secret others ((fit, refl), unknown) in
    (held.0.1, held.1)

-- A client that does not send the password, on no request of any number, stays unauthenticated, leaves
-- the core as it is, and has no function of a command of the core called, not even one that only asks:
-- a record of the calls stays empty. This holds whatever commands it names, where a password is
-- configured and no command was stored before.
pub requests-registered :
    {W : Type 0} (services : Services W) (config : Config) (p : Text) (sent : List Text)
    (s : Session W)
    → config.password ≡ some p
    → s.authenticated ≡ false
    → s.command_list ≡ []
    → All (λ request. ¬ IsLogin p request) sent
    → ((requests config (all_handlers services) sent s).core ≡ s.core)
      × ((requests config (all_handlers services) sent s).authenticated ≡ false)
      × ((requests config (all_recorded (all_handlers services)) sent (recording s)).core
          ≡ (s.core, false))
requests-registered services config p sent s secret unknown empty others =
    let (kept, outside) =
      locked config (all_handlers services) p sent s (all_handlers-IsGuarded services) secret
        unknown empty others in
    let (uncalled, _) =
      locked config (all_recorded (all_handlers services)) p sent (recording s)
        (all_recorded-IsGuarded services) secret unknown empty others in
    (kept, outside, uncalled)

-- Registering the commands one after the other never raises: no two of them share a name.
add_all-table :
    {W : Type 0} (services : Services W) (config : Config) (handle : Text → Option ℕ → M W Response)
    → add_all (table config (all_handlers services) handle) []
      ≡ ok (table config (all_handlers services) handle)
unfolding add_all table connection_handlers command_list_handlers idle_handlers reflection_handlers
    of_cores all_handlers output_handlers
add_all-table services config handle = refl
