-- ===== src/Dispatcher.antt =====
-- src/mopidy_mpd/dispatcher.py: a request through the chain of filters to its handler, and idle events.
-- Each filter is a function of the rest of the chain, which the source pops off a list.
pub mod Format
use mopidy_mpd.Prelude.{
  ℕ, ◌≡◌, refl, zero, suc, Text, codes, Bool, true, false, not, ◌&&◌, ◌||◌, Option, none, some,
  List, [], ◌∷◌, ◌++◌, if◌then◌else◌, is_empty, text_eq, starts_with, contains, ◌==◌, set_add,
  set_intersection,
}
use mopidy_mpd.Exceptions.{
  Ack, mpd_error, system_error, get_mpd_ack, mpd_permission_error, mpd_disabled_error,
}
use mopidy_mpd.Outcome.{Outcome, ok, raised, diverged, ack}
use mopidy_mpd.Tokenize.{split}
use mopidy_mpd.Session.{
  Session, Effect, send_lines, stop_actor, M, pure, throw, lift, gets, modify, emit, catch_ack,
  catch_dead, ◌>>=◌, ◌>>◌,
}
use mopidy_mpd.Protocol.{Result, Handler, find_handler, call}
use Format.{format_response}

-- `config["mpd"]`, as far as the dispatcher reads it.
pub record Config : Type 0 where
  pub password : Option Text
  pub command_blacklist : List Text

abbrev pub Response : Type 0
Response = List Text

-- `request.split(" ")[0]`
unfoldable pub first_word : Text → Text
first_word [] = []
first_word (c ∷ s) = let rest = first_word s in if c == 32 then [] else c ∷ rest

-- `response[-1]`, with the empty text for an empty response
unfoldable pub last_line : Response → Text
last_line [] = []
last_line (l ∷ []) = l
last_line (l ∷ m ∷ ls) = last_line (m ∷ ls)

-- `response[:-1]`
pub drop_last : Response → Response
drop_last [] = []
drop_last (l ∷ []) = []
drop_last (l ∷ m ∷ ls) = l ∷ drop_last (m ∷ ls)

-- `response and response[-1] == "OK"`
pub ends_with_ok : Response → Bool
ends_with_ok r = not (is_empty r) && text_eq (last_line r) (codes "OK")

-- `_has_error`
unfoldable pub has_error : Response → Bool
has_error r = not (is_empty r) && starts_with (last_line r) (codes "ACK")

-- `if self.command_list_index is not None: mpd_ack_error.index = …`
with_index : Option ℕ → Ack → Ack
with_index none e = e
with_index (some i) e = record e { index = i }

abbrev pub with_ok : Response → Response
with_ok response = if has_error response then response else response ++ codes "OK" ∷ []

pub changed_lines : List Text → List Text
changed_lines [] = []
changed_lines (x ∷ xs) = (codes "changed: " ++ x) ∷ changed_lines xs

module _ {W : Type 0} where
  -- `_is_receiving_command_list`
  abbrev pub is_receiving_command_list : Text → Session W → Bool
  is_receiving_command_list request s =
      s.command_list_receiving && not (text_eq request (codes "command_list_end"))

  -- `_is_processing_command_list`
  abbrev pub is_processing_command_list : Text → Session W → Bool
  is_processing_command_list request s = elim s.command_list_index [
    | none ↦ false
    | some _ ↦ not (text_eq request (codes "command_list_end"))
  ]

  -- `_is_currently_idle`
  abbrev pub is_currently_idle : Session W → Bool
  is_currently_idle s = not (is_empty s.subsystem_subscriptions)

  -- `_catch_mpd_ack_errors_filter`
  unfoldable pub catch_mpd_ack_errors_filter : M W Response → M W Response
  unfolding with_index get_mpd_ack
  catch_mpd_ack_errors_filter next =
      catch_ack next (λ e s. (ok (get_mpd_ack (with_index s.command_list_index e) ∷ []), s))

  -- A known command that needs no authentication.
  unfoldable pub open_to_all : Option (Handler W) → Bool
  open_to_all none = false
  open_to_all (some h) = not h.auth_required

  -- `_authenticate_filter`
  unfoldable pub check_password :
      Option Text → List (Handler W) → Text → M W Response → M W Response
  unfolding open_to_all find_handler first_word
  check_password none handlers request next = do
    modify (λ s. record s { authenticated = true })
    next
  check_password (some _) handlers request next =
      if open_to_all (find_handler (first_word request) handlers)
      then next
      else throw (mpd_permission_error (first_word request))

  unfoldable pub authenticate_filter :
      Config → List (Handler W) → Text → M W Response → M W Response
  unfolding check_password
  authenticate_filter config handlers request next s =
      if s.authenticated then next s else check_password config.password handlers request next s

  -- `_command_list_filter`
  unfoldable pub without_ok : Text → Response → M W Response
  unfolding ends_with_ok drop_last
  without_ok request response s =
      if (is_receiving_command_list request s || is_processing_command_list request s)
        && ends_with_ok response
      then (ok (drop_last response), s)
      else (ok response, s)

  unfoldable pub command_list_filter : Text → M W Response → M W Response
  unfolding without_ok
  command_list_filter request next s =
      if is_receiving_command_list request s
      then (ok [], record s { command_list = s.command_list ++ request ∷ [] })
      else (next >>= without_ok request) s

  -- `_idle_filter`
  unfoldable pub unless_idle : Response → M W Response
  unless_idle response s = if is_currently_idle s then (ok [], s) else (ok response, s)

  unfoldable pub idle_filter : Text → M W Response → M W Response
  unfolding unless_idle
  idle_filter request next s =
      if is_currently_idle s && not (text_eq request (codes "noidle"))
      then (ok [], record s { effects = s.effects ++ stop_actor ∷ [] })
      else if not (is_currently_idle s) && text_eq request (codes "noidle")
      then (ok [], s)
      else (next >>= unless_idle) s

  -- `_add_ok_filter`
  unfoldable pub add_ok_filter : M W Response → M W Response
  unfolding has_error last_line
  add_ok_filter next = do response ← next; pure (with_ok response)

  -- `_call_handler`
  pub name_command : Text → Ack → M W Result
  name_command command e =
      throw (elim e.command [ none ↦ record e { command = some command } | some _ ↦ e ])

  unfoldable pub call_tokens : Config → List (Handler W) → List Text → M W Result
  unfolding name_command call contains
  call_tokens config handlers [] = call handlers []
  call_tokens config handlers (command ∷ tokens) =
      if contains config.command_blacklist command
      then throw (mpd_disabled_error command)
      else catch_ack (call handlers (command ∷ tokens)) (name_command command)

  unfoldable pub call_handler_of : Config → List (Handler W) → Text → M W Result
  unfolding call_tokens split
  call_handler_of config handlers request = do
    tokens ← lift (split request)
    call_tokens config handlers tokens

  -- `_call_handler_filter`, the last of the chain
  unfoldable pub call_handler_filter : Config → List (Handler W) → Text → M W Response
  unfolding format_response call_handler_of
  call_handler_filter config handlers request =
      catch_dead
        (do result ← call_handler_of config handlers request; pure (format_response result))
        (λ text. throw (mpd_error system_error text none))

  unfoldable pub notify : List Text → Session W → Session W
  unfolding changed_lines
  notify [] s = s
  notify (x ∷ xs) s = record s {
    subsystem_events = [];
    subsystem_subscriptions = [];
    effects = s.effects ++ send_lines (changed_lines (x ∷ xs) ++ codes "OK" ∷ []) ∷ [];
  }

  -- `handle_idle`
  unfoldable pub handle_idle : Text → Session W → Session W
  unfolding notify set_add set_intersection
  handle_idle subsystem s =
      let events = set_add s.subsystem_events subsystem in
      notify (set_intersection s.subsystem_subscriptions events)
        (record s { subsystem_events = events })

  pub handle_idle_lem :
      (subsystem : Text) (s : Session W)
      → handle_idle subsystem s
        ≡ notify
            (set_intersection s.subsystem_subscriptions (set_add s.subsystem_events subsystem))
            (record s { subsystem_events = set_add s.subsystem_events subsystem })
  unfolding handle_idle
  handle_idle_lem subsystem s = refl
