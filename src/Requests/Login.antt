-- ===== src/Requests/Login.antt =====
-- Requests of a client that does not know the password: `_authenticate_filter` of
-- src/mopidy_mpd/dispatcher.py with the `password` command of src/mopidy_mpd/protocol/connection.py.
use mopidy_mpd.Prelude.{
  ℕ, Text, codes, ◌≡◌, ◌≢◌, refl, sym, ap, ◌∙◌, false, Option, none, some, List, [], ◌∷◌, All,
  subst, text_eq→eq,
}
use mopidy_mpd.Outcome.{ok}
use mopidy_mpd.Tokenize.{split}
use mopidy_mpd.Session.{Session}
use mopidy_mpd.Protocol.{Arg, str_arg, positional, Handler, call_handler}
use mopidy_mpd.Dispatcher.{Config}
use mopidy_mpd.Commands.Connection.{
  connection_handlers, required, is_password, close, password, ping,
}
use mopidy_mpd.Commands.Reflection.{Listing, reflection_handlers, commands, notcommands}
use mopidy_mpd.Requests.{CoreHandler, registry, table, filters, handle_nested, handle_request}
use mopidy_mpd.Requests.Ends.{Ends, Ends-if}
use mopidy_mpd.Requests.Calls.{handler-Ends, Ends-call_handler}
use mopidy_mpd.Protocol.Calls.{SpecEnds}
use mopidy_mpd.Requests.Filters.{Filtered}
use mopidy_mpd.Requests.Handlers.{Holds}
use mopidy_mpd.Requests.Nested.{Holds-Filtered, Ends-parts}
use mopidy_mpd.Requests.Access.{IsGuarded, Allows, table-Allows, filters-Allows}

-- The requests of a client, one after the other, whatever they answer.
unfoldable pub requests :
    {W : Type 0} → Config → List (CoreHandler W) → List Text → Session W → Session W
unfolding handle_request
requests config cores [] s = s
requests config cores (request ∷ rest) s =
    requests config cores rest (handle_request config cores request none s).1

-- A request is a login where it is split into the command and the password.
abbrev pub IsLogin : Text → Text → Type 0
IsLogin p request = split request ≡ ok (codes "password" ∷ p ∷ [])

module _ {W : Type 0} (core : W) where
  -- The client is not known, and the core is as it was.
  abbrev pub Locked : Session W → Type 0
  Locked s = Holds (λ w. w ≡ core) s × (s.authenticated ≡ false)

  Locked-Filtered : (request : Text) (s : Session W) → Locked s → Filtered Locked request s
  Locked-Filtered request s h =
      let f = Holds-Filtered (λ w. w ≡ core) request s h.0 in
      record { before = h; stored = λ e. (f.stored e, h.1); stopped = (f.stopped, h.1) }

  password-Locked :
      (p t : Text) (s : Session W)
      → t ≢ p
      → Locked s
      → Ends Locked (password (some p) (str_arg t ∷ []) s)
  unfolding password is_password
  password-Locked p t s other h =
      Ends-if Locked (is_password (some p) t) _ _ s (λ e. absurd (other (text_eq→eq t p e)))
        (λ _. h)

  -- The command is called with the text behind it, which is not the password.
  login-Locked :
      (p request : Text) (s : Session W) (h : Handler W) (params : List Text)
      → h.spec ≡ positional (required ∷ [])
      → h.func ≡ password (some p)
      → split request ≡ ok (codes "password" ∷ params)
      → ¬ IsLogin p request
      → Locked s
      → Ends Locked (call_handler h params s)
  unfolding call_handler
  login-Locked p request s h [] takes calls e other locked = rw takes locked
  login-Locked p request s h (t ∷ []) takes calls e other locked =
      rw (takes, calls)
        (password-Locked p t s
          (λ same. other (e ∙ ap (λ (u : Text). ok (codes "password" ∷ u ∷ [])) same)) locked)
  login-Locked p request s h (t ∷ u ∷ params) takes calls e other locked = rw takes locked

  allowed :
      (request : Text) (s : Session W) (h : Handler W)
      → Locked s
      → SpecEnds h.spec
      → ((arguments : List Arg) → Ends Locked (h.func arguments s))
      → Allows Locked s request h
  allowed request s h locked spec ends =
      λ _ params _. Ends-call_handler Locked h params s locked (handler-Ends Locked s h spec ends)

  connection-Allows :
      (p request : Text) (s : Session W)
      → ¬ IsLogin p request
      → Locked s
      → All (Allows Locked s request) (connection_handlers (some p))
  unfolding connection_handlers
  connection-Allows p request s other h = (
    allowed request s _ h tt (λ _. unfold close in h),
    (
      λ e. absurd (cc),
      (
        λ _ params e. login-Locked p request s _ params refl refl e other h,
        (allowed request s _ h tt (λ _. unfold ping in h), (λ e. absurd (cc), tt)),
      ),
    ),
  )

  reflection-Allows :
      (registry : List Listing) (request : Text) (s : Session W)
      → Locked s
      → All (Allows Locked s request) (reflection_handlers registry)
  unfolding reflection_handlers
  reflection-Allows registry request s h = (
    λ e. absurd (cc),
    (
      allowed request s _ h tt (λ _. unfold commands in h),
      (λ e. absurd (cc), (allowed request s _ h tt (λ _. unfold notcommands in h), tt)),
    ),
  )

  handle_request-Locked :
      (config : Config) (cores : List (CoreHandler W)) (p request : Text) (index : Option ℕ)
      (s : Session W)
      → All IsGuarded cores
      → config.password ≡ some p
      → ¬ IsLogin p request
      → Locked s
      → Locked (handle_request config cores request index s).1
  unfolding handle_request handle_nested
  handle_request-Locked config cores p request index s guarded secret other h =
      let s' : Session W = record s { command_list_index = index } in
      let handle = handle_nested config cores 1 in
      (Ends-parts Locked (filters config (table config cores handle) request s') (
        filters-Allows config cores guarded Locked s' request handle p secret h.1
          (Locked-Filtered request s' h)
          (table-Allows config cores guarded Locked s' request handle
            (subst (λ (o : Option Text). All (Allows Locked s' request) (connection_handlers o))
              (sym secret) (connection-Allows p request s' other h))
            (reflection-Allows (registry config cores) request s' h)))).1

  pub requests-Locked :
      (config : Config) (cores : List (CoreHandler W)) (p : Text) (rs : List Text) (s : Session W)
      → All IsGuarded cores
      → config.password ≡ some p
      → All (λ request. ¬ IsLogin p request) rs
      → Locked s
      → Locked (requests config cores rs s)
  unfolding requests
  requests-Locked config cores p [] s guarded secret _ h = h
  requests-Locked config cores p (r ∷ rs) s guarded secret (other, others) h =
      requests-Locked config cores p rs (handle_request config cores r none s).1 guarded secret
        others (handle_request-Locked config cores p r none s guarded secret other h)
