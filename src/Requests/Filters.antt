-- ===== src/Requests/Filters.antt =====
-- How a request ends: a rule for each filter of the chain.
use mopidy_mpd.Prelude.{
  Text, codes, ◌≡◌, refl, true, false, not, ◌&&◌, ◌||◌, Option, none, some, List, [], ◌∷◌, ◌++◌,
  if◌then◌else◌, text_eq, Bool-cases, inl, inr,
}
use mopidy_mpd.Outcome.{ok}
use mopidy_mpd.Session.{Session, stop_actor, M, ◌>>=◌}
use mopidy_mpd.Protocol.{Handler, find_handler}
use mopidy_mpd.Dispatcher.{
  Config, Response, catch_mpd_ack_errors_filter, authenticate_filter, command_list_filter,
  idle_filter, add_ok_filter, check_password, call_handler_filter, first_word, open_to_all,
  is_receiving_command_list, is_processing_command_list, is_currently_idle, unless_idle, without_ok,
  ends_with_ok, drop_last,
}
use mopidy_mpd.Requests.{filters}
use mopidy_mpd.Requests.Ends.{Ends, Ends-bind, Ends-catch_ack, Ends-choice}

module _ {W : Type 0} (S : Session W → Type 0) where
  pub Ends-catch_mpd_ack_errors :
      (next : M W Response) (s : Session W)
      → Ends S (next s)
      → Ends S (catch_mpd_ack_errors_filter next s)
  Ends-catch_mpd_ack_errors next s h =
      unfold catch_mpd_ack_errors_filter in Ends-catch_ack S next _ s h (λ e s' h'. h')

  pub Ends-add_ok :
      (next : M W Response) (s : Session W) → Ends S (next s) → Ends S (add_ok_filter next s)
  Ends-add_ok next s h = unfold add_ok_filter in Ends-bind S next _ s h (λ r s' h'. h')

  -- Idle mode ends the session on all requests but `noidle`.
  pub Ends-idle :
      (request : Text) (next : M W Response) (s : Session W)
      → S s
      → S (record s { effects = s.effects ++ stop_actor ∷ [] })
      → Ends S (next s)
      → Ends S (idle_filter request next s)
  unfolding idle_filter
  Ends-idle request next s h stopped k =
      Ends-choice S {A = Response} (is_currently_idle s && not (text_eq request (codes "noidle")))
        (ok [], record s { effects = s.effects ++ stop_actor ∷ [] }) (live s) (λ _. stopped)
        (λ _.
          Ends-choice S {A = Response}
            (not (is_currently_idle s) && text_eq request (codes "noidle")) (ok [], s)
            ((next >>= unless_idle) s) (λ _. h)
            (λ _. Ends-bind S next unless_idle s k unless_idle-Ends))
    where
      live : M W Response
      live s' =
          if not (is_currently_idle s') && text_eq request (codes "noidle")
          then (ok [], s')
          else (next >>= unless_idle) s'

      unless_idle-Ends : (r : Response) (s' : Session W) → S s' → Ends S (unless_idle r s')
      unless_idle-Ends r s' h' =
          Ends-choice S {A = Response} (is_currently_idle s') (ok [], s') (ok r, s') (λ _. h')
            (λ _. h')

  pub Ends-command_list :
      (request : Text) (next : M W Response) (s : Session W)
      → (is_receiving_command_list request s ≡ true
          → S (record s { command_list = s.command_list ++ request ∷ [] }))
      → (is_receiving_command_list request s ≡ false → Ends S (next s))
      → Ends S (command_list_filter request next s)
  unfolding command_list_filter
  Ends-command_list request next s stored k =
      Ends-choice S {A = Response} (is_receiving_command_list request s)
        (ok [], record s { command_list = s.command_list ++ request ∷ [] })
        ((next >>= without_ok request) s) stored
        (λ e. Ends-bind S next (without_ok request) s (k e) without_ok-Ends)
    where
      without_ok-Ends : (r : Response) (s' : Session W) → S s' → Ends S (without_ok request r s')
      without_ok-Ends r s' h' =
          Ends-choice S {A = Response}
            ((is_receiving_command_list request s' || is_processing_command_list request s')
              && ends_with_ok r)
            (ok (drop_last r), s') (ok r, s') (λ _. h') (λ _. h')

  pub Ends-check_password :
      (password : Option Text) (handlers : List (Handler W)) (request : Text) (next : M W Response)
      (s : Session W)
      → S s
      → (password ≡ none → Ends S (next (record s { authenticated = true })))
      → (open_to_all (find_handler (first_word request) handlers) ≡ true → Ends S (next s))
      → Ends S (check_password password handlers request next s)
  unfolding check_password
  Ends-check_password none handlers request next s h free public = free refl
  Ends-check_password (some p) handlers request next s h free public =
      elim (Bool-cases (open_to_all (find_handler (first_word request) handlers))) [
        | inl e ↦ rw (e, check_password) (public e)
        | inr e ↦ rw (e, check_password) h
      ]

  pub Ends-authenticate :
      (config : Config) (handlers : List (Handler W)) (request : Text) (next : M W Response)
      (s : Session W)
      → S s
      → (s.authenticated ≡ true → Ends S (next s))
      → (config.password ≡ none → Ends S (next (record s { authenticated = true })))
      → (open_to_all (find_handler (first_word request) handlers) ≡ true → Ends S (next s))
      → Ends S (authenticate_filter config handlers request next s)
  unfolding authenticate_filter
  Ends-authenticate config handlers request next s h known free public =
      Ends-choice S s.authenticated (next s)
        (check_password config.password handlers request next s) known
        (λ _. Ends-check_password config.password handlers request next s h free public)

  -- `S` holds before the call and survives what the filters themselves write.
  pub record Filtered (request : Text) (s : Session W) : Type 0 where
    pub before : S s
    pub stored :
        is_receiving_command_list request s ≡ true
        → S (record s { command_list = s.command_list ++ request ∷ [] })
    pub stopped : S (record s { effects = s.effects ++ stop_actor ∷ [] })

  pub Ends-inner :
      (config : Config) (handlers : List (Handler W)) (request : Text) (s : Session W)
      → Filtered request s
      → (is_receiving_command_list request s ≡ false
          → Ends S (call_handler_filter config handlers request s))
      → Ends S (
          command_list_filter request
            (idle_filter request (add_ok_filter (call_handler_filter config handlers request)))
            s)
  Ends-inner config handlers request s f k =
      Ends-command_list request
        (idle_filter request (add_ok_filter (call_handler_filter config handlers request))) s
        f.stored
        (λ e.
          Ends-idle request (add_ok_filter (call_handler_filter config handlers request)) s f.before
            f.stopped (Ends-add_ok (call_handler_filter config handlers request) s (k e)))

  -- A request ends if its handler does, where one is called: the client is authenticated, needs no
  -- password, or asks for a command that is open to all.
  pub Ends-filters :
      (config : Config) (handlers : List (Handler W)) (request : Text) (s : Session W)
      → Filtered request s
      → (config.password ≡ none → Filtered request (record s { authenticated = true }))
      → (s.authenticated ≡ true
          → is_receiving_command_list request s ≡ false
          → Ends S (call_handler_filter config handlers request s))
      → (config.password ≡ none
          → is_receiving_command_list request s ≡ false
          → Ends S
              (call_handler_filter config handlers request (record s { authenticated = true })))
      → (open_to_all (find_handler (first_word request) handlers) ≡ true
          → is_receiving_command_list request s ≡ false
          → Ends S (call_handler_filter config handlers request s))
      → Ends S (filters config handlers request s)
  Ends-filters config handlers request s f f' known free public =
      unfold filters in
      Ends-catch_mpd_ack_errors
        (authenticate_filter config handlers request (
          command_list_filter request
            (idle_filter request (add_ok_filter (call_handler_filter config handlers request)))))
        s
        (Ends-authenticate config handlers request
          (command_list_filter request
            (idle_filter request (add_ok_filter (call_handler_filter config handlers request))))
          s f.before (λ e. Ends-inner config handlers request s f (known e))
          (λ e.
            Ends-inner config handlers request (record s { authenticated = true }) (f' e) (free e))
          (λ e. Ends-inner config handlers request s f (public e)))
