-- ===== src/Requests/Access.antt =====
-- `_authenticate_filter` of src/mopidy_mpd/dispatcher.py with the tokenizer and the registry.
use mopidy_mpd.Prelude.{
  ℕ, Text, ◌≡◌, refl, sym, ap, ◌∙◌, subst, Bool, true, false, ◌&&◌, Option, none, some, List, [],
  ◌∷◌, All, All-map, arith,
}
use mopidy_mpd.Outcome.{ok}
use mopidy_mpd.Tokenize.{split, is_lower, is_word}
use mopidy_mpd.Tokenize.Spans.{AllTrue}
use mopidy_mpd.Session.{Session, M}
use mopidy_mpd.Protocol.{Handler, find_handler, call_handler}
use mopidy_mpd.Commands.Connection.{connection_handlers}
use mopidy_mpd.Commands.CommandList.{command_list_handlers}
use mopidy_mpd.Commands.Status.{idle_handlers}
use mopidy_mpd.Commands.Reflection.{reflection_handlers}
use mopidy_mpd.Requests.{
  CoreHandler, of_cores, registry, table, filters, handle_nested, handle_request,
}
use mopidy_mpd.Requests.Words.{first_word-command}
use mopidy_mpd.Requests.Ends.{Ends}
use mopidy_mpd.Requests.Calls.{HandlerEnds, Ends-call_handler, Ends-called}
use mopidy_mpd.Requests.Filters.{Filtered, Ends-filters}
use mopidy_mpd.Requests.Handlers.{NoEnd, Holds, connection_handlers-Ends, reflection_handlers-Ends}
use mopidy_mpd.Requests.Nested.{Holds-Filtered, Ends-parts}
use mopidy_mpd.Requests.Tables.{table-All}
use mopidy_mpd.Protocol.Calls.{find_handler-All}
use mopidy_mpd.Dispatcher.{Config, Response, first_word, open_to_all, call_handler_filter}

-- A command of the core that needs authentication, under a name that is a word.
pub record IsGuarded {W : Type 0} (h : CoreHandler W) : Type 0 where
  pub guarded : h.auth_required ≡ true
  pub named : AllTrue is_word h.name

abbrev Named : {W : Type 0} → Handler W → Type 0
Named h = AllTrue is_word h.name

-- The same by evaluation, for the session's own commands.
unfoldable pub all_true : (ℕ → Bool) → Text → Bool
all_true p [] = true
all_true p (c ∷ s) = p c && all_true p s

all_true→AllTrue : (p : ℕ → Bool) (s : Text) → all_true p s ≡ true → AllTrue p s
unfolding all_true
all_true→AllTrue p [] h = tt
all_true→AllTrue p (c ∷ s) h = (ground arith, all_true→AllTrue p s (ground arith))

all_named : {W : Type 0} → List (Handler W) → Bool
all_named [] = true
all_named (h ∷ hs) = all_true is_word h.name && all_named hs

All-of_all_named : {W : Type 0} (hs : List (Handler W)) → all_named hs ≡ true → All Named hs
unfolding all_named
All-of_all_named [] e = tt
All-of_all_named (h ∷ hs) e =
    (all_true→AllTrue is_word h.name (ground arith), All-of_all_named hs (ground arith))

unfoldable pub all_guarded : {W : Type 0} → List (CoreHandler W) → Bool
unfolding all_true
all_guarded [] = true
all_guarded (h ∷ hs) = (h.auth_required && all_true is_word h.name) && all_guarded hs

pub All-IsGuarded :
    {W : Type 0} (hs : List (CoreHandler W)) → all_guarded hs ≡ true → All IsGuarded hs
unfolding all_guarded
All-IsGuarded [] e = tt
All-IsGuarded (h ∷ hs) e = (
  record { guarded = ground arith; named = all_true→AllTrue is_word h.name (ground arith) },
  All-IsGuarded hs (ground arith),
)

-- If the command is open to all, the call of it by this request ends, with `S` kept.
abbrev pub Allows : {W : Type 0} → (Session W → Type 0) → Session W → Text → Handler W → Type 0
Allows S s request h =
    h.auth_required ≡ false
    → (params : List Text) → split request ≡ ok (h.name ∷ params)
    → Ends S (call_handler h params s)

pub HandlerEnds-Allows :
    {W : Type 0} (S : Session W → Type 0) (s : Session W) (request : Text) (hs : List (Handler W))
    → S s
    → All (HandlerEnds S s) hs
    → All (Allows S s request) hs
HandlerEnds-Allows S s request hs h ends =
    All-map hs (λ g e _ params _. Ends-call_handler S g params s h e) ends

open_handler :
    {W : Type 0} (m : Option (Handler W))
    → open_to_all m ≡ true
    → (h : Handler W) × (m ≡ some h) × (h.auth_required ≡ false)
unfolding open_to_all
open_handler none e = absurd (cc)
open_handler (some h) e = (h, refl, ground arith)

module _ {W : Type 0} (config : Config) (cores : List (CoreHandler W))
    (guarded : All IsGuarded cores) where
  cores-Named : (cs : List (CoreHandler W)) → All IsGuarded cs → All Named (of_cores cs)
  unfolding of_cores
  cores-Named [] _ = tt
  cores-Named (c ∷ cs) (g, gs) = (g.named, cores-Named cs gs)

  table-Named : (handle : Text → Option ℕ → M W Response) → All Named (table config cores handle)
  unfolding connection_handlers command_list_handlers idle_handlers reflection_handlers all_named
      all_true is_word is_lower
  table-Named handle =
      table-All config cores handle Named
        (All-of_all_named {W = W} (connection_handlers config.password) refl)
        (All-of_all_named {W = W} (command_list_handlers handle) refl)
        (All-of_all_named {W = W} idle_handlers refl)
        (All-of_all_named {W = W} (reflection_handlers (registry config cores)) refl)
        (cores-Named cores guarded)

  module _ (S : Session W → Type 0) (s : Session W) (request : Text) where
    cores-Allows :
        (cs : List (CoreHandler W)) → All IsGuarded cs → All (Allows S s request) (of_cores cs)
    unfolding of_cores
    cores-Allows [] _ = tt
    cores-Allows (c ∷ cs) (g, gs) = ((λ e. absurd (cc g.guarded)), cores-Allows cs gs)

    -- Nothing is left to show of the commands that need authentication.
    pub table-Allows :
        (handle : Text → Option ℕ → M W Response)
        → All (Allows S s request) (connection_handlers config.password)
        → All (Allows S s request) (reflection_handlers (registry config cores))
        → All (Allows S s request) (table config cores handle)
    table-Allows handle connection reflection =
        table-All config cores handle (Allows S s request) connection
          (unfold command_list_handlers in
            (λ e. absurd (cc), (λ e. absurd (cc), (λ e. absurd (cc), tt))))
          (unfold idle_handlers in (λ e. absurd (cc), (λ e. absurd (cc), tt))) reflection
          (cores-Allows cores guarded)

    open_command-Ends :
        (handle : Text → Option ℕ → M W Response)
        → S s
        → All (Allows S s request) (table config cores handle)
        → open_to_all (find_handler (first_word request) (table config cores handle)) ≡ true
        → Ends S (call_handler_filter config (table config cores handle) request s)
    open_command-Ends handle hs allows e =
        let (g, found, public) =
          open_handler (find_handler (first_word request) (table config cores handle)) e in
        let named =
          find_handler-All Named (first_word request) (table config cores handle) g
            (table-Named handle) found in
        let word : AllTrue is_word (first_word request) = subst (AllTrue is_word) named.1 named.0 in
        Ends-called S config (table config cores handle) request s hs
          (λ command params h split_eq found'.
            let same = first_word-command request command params split_eq word in
            let again : find_handler command (table config cores handle) ≡ some g =
              subst (λ (n : Text). find_handler n (table config cores handle) ≡ some g) same
                found in
            let allowed =
              find_handler-All (Allows S s request) command (table config cores handle) h allows
                found' in
            allowed.0 (open_same g h public (sym again ∙ found')) params
              (split_eq ∙ ap (λ (n : Text). ok (n ∷ params)) (sym allowed.1)))
      where
        open_same :
            (g h : Handler W) → g.auth_required ≡ false → some g ≡ some h → h.auth_required ≡ false
        open_same g h public eq =
            let same : g ≡ h = cc eq in
            subst (λ (k : Handler W). k.auth_required ≡ false) same public

    -- Before the login a request ends as its command does, which is one that is open to all.
    pub filters-Allows :
        (handle : Text → Option ℕ → M W Response) (p : Text)
        → config.password ≡ some p
        → s.authenticated ≡ false
        → Filtered S request s
        → All (Allows S s request) (table config cores handle)
        → Ends S (filters config (table config cores handle) request s)
    filters-Allows handle p secret unknown f allows =
        Ends-filters S config (table config cores handle) request s f (λ e. absurd (cc (secret, e)))
          (λ e. absurd (cc (unknown, e))) (λ e. absurd (cc (secret, e)))
          (λ e _. open_command-Ends handle f.before allows e)

-- Where a password is configured and the client has not authenticated, no request changes the
-- core, if every command of the core needs authentication and is named by a word, and no stored
-- command is the text command_list_end.
pub handle_request-guarded :
    {W : Type 0} (config : Config) (cores : List (CoreHandler W)) (p request : Text)
    (index : Option ℕ) (s : Session W)
    → All IsGuarded cores
    → config.password ≡ some p
    → s.authenticated ≡ false
    → NoEnd s.command_list
    → (handle_request config cores request index s).1.core ≡ s.core
unfolding handle_request handle_nested
handle_request-guarded {W} config cores p request index s guarded secret unknown fit =
    let s' : Session W = record s { command_list_index = index } in
    let handle = handle_nested config cores 1 in
    let C : W → Type 0 = λ w. w ≡ s.core in
    (Ends-parts (Holds C) (filters config (table config cores handle) request s') (
      filters-Allows config cores guarded (Holds C) s' request handle p secret unknown
        (Holds-Filtered C request s' (fit, refl))
        (table-Allows config cores guarded (Holds C) s' request handle
          (HandlerEnds-Allows (Holds C) s' request (connection_handlers config.password) (fit, refl)
            (connection_handlers-Ends C config.password s' (fit, refl)))
          (HandlerEnds-Allows (Holds C) s' request (reflection_handlers (registry config cores))
            (fit, refl) (reflection_handlers-Ends C (registry config cores) s' (fit, refl)))))).1.1
