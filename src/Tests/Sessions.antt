-- ===== src/Tests/Sessions.antt =====
-- Whole requests, and idle mode, at concrete inputs.
use mopidy_mpd.Prelude.{
  ℕ, Text, codes, ◌≡◌, ◌≢◌, refl, true, false, none, some, [], ◌∷◌, ◌++◌, text_eq, starts_with, All,
  ◌&&◌, contains, Bool, List, subst, inl, length, ◌≤◌, arith,
}
use mopidy_mpd.Outcome.{ok, diverged}
use mopidy_mpd.Tokenize.{is_word, is_lower}
use mopidy_mpd.Session.{Effect, Session, send_lines}
use mopidy_mpd.Protocol.{positional, nothing}
use mopidy_mpd.Dispatcher.{Config, has_error, last_line, handle_idle, changed_lines}
use mopidy_mpd.Requests.{CoreHandler, handle_request}
use mopidy_mpd.Requests.Access.{handle_request-guarded}
use mopidy_mpd.Requests.Login.{requests}
use mopidy_mpd.Commands.CommandList.Listed.{listed}
use mopidy_mpd.Requests.Lists.{list_run, answers-list}
use mopidy_mpd.Requests.Collecting.{answers, opening, silence}
use mopidy_mpd.Requests.Handlers.{NoEnd}
use mopidy_mpd.Requests.Nested.{handle_request-total}
use mopidy_mpd.Commands.Status.Idle.{Quiet, handle_idle-delivers}
use mopidy_mpd.Utf8.{Bytes, decode_utf8}
use mopidy_mpd.LineProtocol.{new_session, on_lines}
use mopidy_mpd.LineProtocol.Malformed.{IsStop, NoLetter, IsMalformed, on_lines-Stopped}

-- A session whose core is one number, and a command that sets it.
abbrev pub fresh : Session ℕ
fresh = new_session 7

abbrev louder : CoreHandler ℕ
louder = record {
  name = codes "louder";
  spec = positional [];
  func = λ tagtypes arguments w. (ok nothing, 8);
  auth_required = true;
  list_command = true;
}

abbrev pub secret : Config
secret = record { password = some (codes "s3cret"); command_blacklist = [] }

abbrev public : Config
public = record { password = none; command_blacklist = [] }

refused_first :
    (handle_request secret (louder ∷ []) (codes "louder") none fresh).0
    ≡ ok (codes "ACK [4@0] {louder} you don't have permission for \"louder\"" ∷ [])
unfolding handle_request text_eq
refused_first = refl

louder_with_no_password :
    (handle_request public (louder ∷ []) (codes "louder") none fresh).1.core ≡ 8
unfolding handle_request text_eq
louder_with_no_password = refl

abbrev pub logged_in : Session ℕ
logged_in = record fresh { authenticated = true }

logs_in :
    (handle_request secret (louder ∷ []) (codes "password s3cret") none fresh)
    ≡ (ok (codes "OK" ∷ []), logged_in)
unfolding handle_request text_eq
logs_in = refl

abbrev receiving : Session ℕ
receiving = record logged_in {
  command_list_receiving = true;
  command_list = codes "louder" ∷ codes "nope" ∷ codes "louder" ∷ [];
}

-- The first error ends a command list, and carries the position of its command.
stops_at_error :
    (handle_request secret (louder ∷ []) (codes "command_list_end") none receiving).0
    ≡ ok (codes "ACK [5@1] {} unknown command \"nope\"" ∷ [])
unfolding handle_request text_eq starts_with
stops_at_error = refl

pub louder_is_word : All (λ c. is_word c ≡ true) (codes "louder")
unfolding is_word is_lower
louder_is_word = (refl, (refl, (refl, (refl, (refl, (refl, tt))))))

handle_request-guarded_example :
    (handle_request secret (louder ∷ []) (codes "louder") none fresh).1.core ≡ 7
handle_request-guarded_example =
    handle_request-guarded secret (louder ∷ []) (codes "s3cret") (codes "louder") none fresh
      (record { guarded = refl; named = louder_is_word }, tt) refl refl tt

handle_request-total_example :
    ((handle_request secret (louder ∷ []) (codes "command_list_end") none receiving).0 ≢ diverged)
    × NoEnd
        (handle_request secret
          (louder ∷ [])
          (codes "command_list_end")
          none
          receiving).1.command_list
handle_request-total_example =
    handle_request-total secret (louder ∷ []) (codes "command_list_end") none receiving
      (record { spec_ends = tt; total = λ tagtypes arguments w e. cc }, tt)
      ((λ e. cc), ((λ e. cc), ((λ e. cc), tt)))

-- A client that waits for the player.
abbrev waiting : Session ℕ
waiting = record logged_in { subsystem_subscriptions = codes "player" ∷ []; prevent_timeout = true }

and_false : (b : Bool) → (b && false) ≡ false
and_false true = refl
and_false false = refl

waiting-Quiet : Quiet waiting
unfolding contains
waiting-Quiet t = and_false (contains (codes "player" ∷ []) t)

handle_idle-delivers_example :
    (active : List Text) × ((t : Text) → contains active t ≡ text_eq (codes "player") t)
    × (handle_idle (codes "player") waiting ≡ record waiting {
      subsystem_events = [];
      subsystem_subscriptions = [];
      effects = send_lines (changed_lines active ++ codes "OK" ∷ []) ∷ [];
    })
unfolding contains text_eq
handle_idle-delivers_example = handle_idle-delivers (codes "player") waiting waiting-Quiet refl

abbrev browser : List Bytes
browser = codes "POST / HTTP/1.1" ∷ (0xff ∷ []) ∷ []

browser-IsMalformed : All (IsMalformed (λ c. false) public (louder ∷ [])) browser
unfolding decode_utf8
browser-IsMalformed = (
  (λ text e.
      subst (NoLetter (λ c. false) public (louder ∷ [])) (text_of text e)
        (inl (omega arith, inl (omega arith)))),
  (λ text e. absurd (cc e), tt),
)
  where
    text_of :
        (text : Text) → some (codes "POST / HTTP/1.1") ≡ some text → codes "POST / HTTP/1.1" ≡ text
    text_of text e = cc

on_lines-Stopped_example :
    (added : List Effect) × (on_lines (λ c. false) public (louder ∷ []) browser fresh
      ≡ (ok tt, record fresh { effects = [] ++ added }))
    × All IsStop added
    × (2 ≤ length added)
on_lines-Stopped_example =
    on_lines-Stopped (λ c. false) public (louder ∷ []) browser fresh browser-IsMalformed

-- A browser's request that hides a command in its body.
still_louder :
    (on_lines
      (λ c. false)
      public
      (louder ∷ [])
      (codes "POST / HTTP/1.1" ∷ codes "louder" ∷ [])
      fresh).1.core
    ≡ 8
unfolding on_lines handle_request text_eq
still_louder = refl

abbrev known : Session ℕ
known = record fresh { authenticated = true }

abbrev two_commands : List Text
two_commands = codes "ping" ∷ codes "louder" ∷ []

listed_two : list_run secret (louder ∷ []) true two_commands known ≡ (
  ok (codes "list_OK" ∷ codes "list_OK" ∷ []),
  record known { core = 8; command_list_index = some 1 },
)
unfolding handle_request listed text_eq
listed_two = refl

answers-list_example :
    (answers secret
        (louder ∷ [])
        (opening true ∷ (two_commands ++ codes "command_list_end" ∷ []))
        known
      ≡ ok []
        ∷ (silence two_commands ++ ok (codes "list_OK" ∷ codes "list_OK" ∷ codes "OK" ∷ []) ∷ []))
    × (requests secret
          (louder ∷ [])
          (opening true ∷ (two_commands ++ codes "command_list_end" ∷ []))
          known
        ≡ record known { core = 8; command_list_index = some 1 })
unfolding contains text_eq has_error starts_with last_line
answers-list_example =
    answers-list secret (louder ∷ []) true two_commands (codes "list_OK" ∷ codes "list_OK" ∷ [])
      known (record known { core = 8; command_list_index = some 1 }) refl refl refl refl refl
      (λ e. cc, (λ e. cc, tt)) listed_two

-- A command that is not known ends the list, and is named with its index.
stopped_list :
    answers secret
      (louder ∷ [])
      (opening false
        ∷ (codes "ping" ∷ codes "nothing" ∷ codes "louder" ∷ codes "command_list_end" ∷ []))
      known
    ≡ silence (opening false ∷ codes "ping" ∷ codes "nothing" ∷ codes "louder" ∷ [])
      ++ ok (codes "ACK [5@1] {} unknown command \"nothing\"" ∷ []) ∷ []
unfolding answers text_eq starts_with
stopped_list = refl

-- A list opened in a list is still open when the first has ended, with the command behind it stored.
nested_list :
    (requests secret
      (louder ∷ [])
      (opening false ∷ (opening false ∷ codes "louder" ∷ codes "command_list_end" ∷ []))
      known)
    ≡ record known {
      command_list_receiving = true;
      command_list = codes "louder" ∷ [];
      command_list_index = some 1;
    }
unfolding requests text_eq
nested_list = refl
