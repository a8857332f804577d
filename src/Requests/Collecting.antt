-- ===== src/Requests/Collecting.antt =====
-- The requests of a command list, up to its end: what the filters of src/mopidy_mpd/dispatcher.py
-- make of each of them.
use mopidy_mpd.Prelude.{
  Text, codes, ◌≡◌, ◌≢◌, refl, ap, ◌∙◌, Bool, true, false, none, List, [], ◌∷◌, ◌++◌, if◌then◌else◌,
  Bool-cases, inl, inr, arith, contains, text_eq, text_eq→eq,
}
use mopidy_mpd.Exceptions.{mpd_error, system_error}
use mopidy_mpd.Outcome.{Outcome, ok}
use mopidy_mpd.Session.{Session, pure, throw, catch_ack, catch_dead, ◌>>=◌}
use mopidy_mpd.Protocol.{many, items}
use mopidy_mpd.Dispatcher.{
  Config, Response, with_ok, is_currently_idle, command_list_filter, catch_mpd_ack_errors_filter,
  add_ok_filter, unless_idle, without_ok, name_command,
}
use mopidy_mpd.Dispatcher.Format.{format_response}
use mopidy_mpd.Commands.CommandList.{run_list, lines_of}
use mopidy_mpd.Requests.{CoreHandler, handle_nested, handle_request}

-- The answers to the requests of a client, one after the other.
unfoldable pub answers :
    {W : Type 0} → Config → List (CoreHandler W) → List Text → Session W → List (Outcome Response)
unfolding handle_request
answers config cores [] s = []
answers config cores (request ∷ rest) s =
    let (answer, s') = handle_request config cores request none s in
    answer ∷ answers config cores rest s'

-- The request that opens a list, with or without marks between the responses.
abbrev pub opening : Bool → Text
opening true = codes "command_list_ok_begin"
opening false = codes "command_list_begin"

module _ {W : Type 0} where
  -- A session that is known, and neither idle nor in a list.
  abbrev pub ready : Session W → Session W
  ready s = record s {
    authenticated = true;
    command_list_receiving = false;
    subsystem_subscriptions = [];
  }

  -- A session that collects a list.
  abbrev pub collecting : Bool → List Text → Session W → Session W
  collecting with_oks stored s = record s {
    authenticated = true;
    command_list_receiving = true;
    command_list_ok = with_oks;
    command_list = stored;
    command_list_index = none;
    subsystem_subscriptions = [];
  }

  -- What a list leaves behind before its first command runs.
  abbrev pub started : Session W → Session W
  started s = record s {
    authenticated = true;
    command_list_receiving = false;
    command_list_ok = false;
    command_list = [];
    command_list_index = none;
    subsystem_subscriptions = [];
  }

  module _ (config : Config) (cores : List (CoreHandler W)) where
    pub opens :
        (with_oks : Bool) (s : Session W)
        → contains config.command_blacklist (opening with_oks) ≡ false
        → handle_request config cores (opening with_oks) none (ready s)
          ≡ (ok [], collecting with_oks [] s)
    unfolding handle_request text_eq
    opens true s h = rw h refl
    opens false s h = rw h refl

    pub stores :
        (with_oks : Bool) (stored : List Text) (request : Text) (s : Session W)
        → request ≢ codes "command_list_end"
        → handle_request config cores request none (collecting with_oks stored s)
          ≡ (ok [], collecting with_oks (stored ++ request ∷ []) s)
    unfolding handle_request
    stores with_oks stored request s other =
        elim (Bool-cases (text_eq request (codes "command_list_end"))) [
          | inl e ↦ absurd (other (text_eq→eq request (codes "command_list_end") e))
          | inr e ↦ rw (e, command_list_filter) refl
        ]

  -- What the filters make of the end of the loop.
  pub chain : Outcome Response × Session W → Outcome Response × Session W
  unfolding lines_of format_response
  chain x =
      catch_mpd_ack_errors_filter
        ((add_ok_filter (
              catch_dead
                (do
                  result ←
                      catch_ack (do response ← (λ _. x); pure (many (items (lines_of response))))
                        (name_command (codes "command_list_end"))
                  pure (format_response result))
                (λ text. throw (mpd_error system_error text none)))
            >>= unless_idle)
          >>= without_ok (codes "command_list_end"))
        x.1

  module _ (config : Config) (cores : List (CoreHandler W)) where
    pub ends_list :
        (with_oks : Bool) (stored : List Text) (s : Session W)
        → contains config.command_blacklist (codes "command_list_end") ≡ false
        → handle_request config cores (codes "command_list_end") none (collecting with_oks stored s)
          ≡ chain (run_list (handle_nested config cores 1) with_oks 0 stored [] (started s))
    unfolding handle_request text_eq chain
    ends_list with_oks stored s h = rw h refl

format_lines_of : (r : Response) → format_response (many (items (lines_of r))) ≡ r
unfolding format_response lines_of
format_lines_of [] = refl
format_lines_of (l ∷ r) = ap (λ (ls : Response). l ∷ ls) (format_lines_of r)

-- The answer to the request that ends a list: nothing, if the client is idle then.
abbrev pub final : {W : Type 0} → Response → Session W → Response
final lines s = if is_currently_idle s then [] else with_ok lines

-- No answer to each request.
abbrev pub silence : List Text → List (Outcome Response)
silence [] = []
silence (r ∷ rs) = ok [] ∷ silence rs

module _ {W : Type 0} where
  without_ok-end :
      (r : Response) (s : Session W) → without_ok (codes "command_list_end") r s ≡ (ok r, s)
  unfolding without_ok text_eq
  without_ok-end r s = ground arith

  final-sent :
      (lines : Response) (s : Session W)
      → ((unless_idle lines) >>= without_ok (codes "command_list_end")) s
        ≡ (ok (if is_currently_idle s then [] else lines), s)
  unfolding unless_idle
  final-sent lines s = elim (Bool-cases (is_currently_idle s)) [
    | inl e ↦ rw e (without_ok-end [] s)
    | inr e ↦ rw e (without_ok-end lines s)
  ]

  pub chain-ok : (lines : Response) (s : Session W) → chain (ok lines, s) ≡ (ok (final lines s), s)
  unfolding chain catch_mpd_ack_errors_filter add_ok_filter
  chain-ok lines s =
      ap
        (λ (r : Response).
          catch_mpd_ack_errors_filter
            ((unless_idle (with_ok r)) >>= without_ok (codes "command_list_end")) s)
        (format_lines_of lines)
      ∙ ap
          (λ ((o, s') : Outcome Response × Session W).
            catch_mpd_ack_errors_filter (λ _. (o, s')) s')
          (final-sent (with_ok lines) s)
