-- ===== src/Requests/Calls.antt =====
-- How the call of a handler ends.
use mopidy_mpd.Prelude.{Text, ◌≡◌, ◌≢◌, refl, ap, ◌∙◌, Option, none, some, List, [], ◌∷◌, contains}
use mopidy_mpd.Exceptions.{mpd_error, system_error, mpd_disabled_error}
use mopidy_mpd.Outcome.{ok, diverged}
use mopidy_mpd.Tokenize.{split}
use mopidy_mpd.Tokenize.Total.{split-total}
use mopidy_mpd.Session.{Session, pure, throw, ◌>>=◌, catch_ack}
use mopidy_mpd.Protocol.Calls.{SpecEnds, call_args-total}
use mopidy_mpd.Protocol.{Arg, Handler, call_args, call_handler, find_handler, call, call_found}
use mopidy_mpd.Dispatcher.{Config, call_tokens, name_command, call_handler_of, call_handler_filter}
use mopidy_mpd.Dispatcher.Format.{format_response}
use mopidy_mpd.Requests.Ends.{
  Ends, Ends-bind, Ends-catch_ack, Ends-catch_dead, Ends-if, Ends-bind_lift,
}

module _ {W : Type 0} (S : Session W → Type 0) where
  -- What a handler must do for the call of it to end.
  pub record HandlerEnds (s : Session W) (h : Handler W) : Type 0 where
    pub args_end : (tokens : List Text) → call_args h.name h.spec tokens ≢ diverged
    pub func_ends : (arguments : List Arg) → Ends S (h.func arguments s)

  pub handler-Ends :
      (s : Session W) (h : Handler W)
      → SpecEnds h.spec
      → ((arguments : List Arg) → Ends S (h.func arguments s))
      → HandlerEnds s h
  handler-Ends s h spec func = record {
    args_end = λ tokens. call_args-total h.name h.spec tokens spec;
    func_ends = func;
  }

  pub Ends-call_handler :
      (h : Handler W) (tokens : List Text) (s : Session W)
      → S s
      → HandlerEnds s h
      → Ends S (call_handler h tokens s)
  Ends-call_handler h tokens s hs e =
      unfold call_handler in
      Ends-bind_lift S (call_args h.name h.spec tokens) h.func s (e.args_end tokens) hs
        (λ arguments _. e.func_ends arguments)

  pub Ends-call_found :
      (command : Text) (found : Option (Handler W)) (tokens : List Text) (s : Session W)
      → S s
      → ((h : Handler W) → found ≡ some h → Ends S (call_handler h tokens s))
      → Ends S (call_found command found tokens s)
  unfolding call_found
  Ends-call_found command none tokens s hs k = hs
  Ends-call_found command (some h) tokens s hs k = k h refl

  pub Ends-call_tokens :
      (config : Config) (handlers : List (Handler W)) (tokens : List Text) (s : Session W)
      → S s
      → ((command : Text) (params : List Text) (h : Handler W)
          → tokens ≡ command ∷ params
          → find_handler command handlers ≡ some h
          → Ends S (call_handler h params s))
      → Ends S (call_tokens config handlers tokens s)
  Ends-call_tokens config handlers [] s hs k = unfold call_tokens in hs
  Ends-call_tokens config handlers (command ∷ params) s hs k =
      unfold call_tokens in
      Ends-if S (contains config.command_blacklist command) (throw (mpd_disabled_error command))
        (catch_ack (call handlers (command ∷ params)) (name_command command)) s (λ _. hs)
        (λ _.
          Ends-catch_ack S (call handlers (command ∷ params)) (name_command command) s
            (Ends-call_found command (find_handler command handlers) params s hs
              (λ h. k command params h refl))
            (λ e s' h'. h'))

  pub Ends-call_handler_of :
      (config : Config) (handlers : List (Handler W)) (request : Text) (s : Session W)
      → S s
      → ((command : Text) (params : List Text) (h : Handler W)
          → split request ≡ ok (command ∷ params)
          → find_handler command handlers ≡ some h
          → Ends S (call_handler h params s))
      → Ends S (call_handler_of config handlers request s)
  Ends-call_handler_of config handlers request s hs k =
      unfold call_handler_of in
      Ends-bind_lift S (split request) (call_tokens config handlers) s (split-total request) hs
        (λ tokens e.
          Ends-call_tokens config handlers tokens s hs
            (λ command params h e'. k command params h (e ∙ ap ok e')))

  pub Ends-called :
      (config : Config) (handlers : List (Handler W)) (request : Text) (s : Session W)
      → S s
      → ((command : Text) (params : List Text) (h : Handler W)
          → split request ≡ ok (command ∷ params)
          → find_handler command handlers ≡ some h
          → Ends S (call_handler h params s))
      → Ends S (call_handler_filter config handlers request s)
  Ends-called config handlers request s hs k =
      unfold call_handler_filter in
      Ends-catch_dead S
        (call_handler_of config handlers request >>= λ result. pure (format_response result))
        (λ text. throw (mpd_error system_error text none)) s
        (Ends-bind S (call_handler_of config handlers request)
          (λ result. pure (format_response result)) s
          (Ends-call_handler_of config handlers request s hs k) (λ r s' h'. h'))
        (λ text s' h'. h')

  -- The same, where whatever the arguments the handler ends.
  pub Ends-call_handler_filter :
      (config : Config) (handlers : List (Handler W)) (request : Text) (s : Session W)
      → S s
      → ((command : Text) (params : List Text) (h : Handler W)
          → split request ≡ ok (command ∷ params)
          → find_handler command handlers ≡ some h
          → HandlerEnds s h)
      → Ends S (call_handler_filter config handlers request s)
  Ends-call_handler_filter config handlers request s hs k =
      Ends-called config handlers request s hs
        (λ command params h e found. Ends-call_handler h params s hs (k command params h e found))
