-- ===== src/Commands/Status.antt =====
-- src/mopidy_mpd/protocol/status.py: the commands of idle mode.
pub mod Idle
use mopidy_mpd.Prelude.{
  Text, codes, ◌≡◌, refl, true, false, List, [], ◌∷◌, if◌then◌else◌, is_empty, set_update,
  set_intersection,
}
use mopidy_mpd.Outcome.{ok}
use mopidy_mpd.Session.{Session, M}
use mopidy_mpd.Protocol.{
  str, Element, pair, Result, nothing, many, items, Arg, varargs, positional, Handler,
}
use mopidy_mpd.Commands.Connection.{texts_of}

-- `SUBSYSTEMS`
abbrev pub subsystems : List Text
subsystems =
    codes "database"
    ∷ codes "mixer"
    ∷ codes "options"
    ∷ codes "output"
    ∷ codes "player"
    ∷ codes "playlist"
    ∷ codes "stored_playlist"
    ∷ codes "update"
    ∷ []

unfoldable pub changed : List Text → List Element
changed [] = []
changed (x ∷ xs) = pair (codes "changed") (str x) ∷ changed xs

abbrev pub or_all : List Text → List Text
or_all [] = subsystems
or_all (x ∷ xs) = x ∷ xs

module _ {W : Type 0} where
  unfoldable pub report : List Text → M W Result
  unfolding changed
  report [] s = (ok nothing, record s { prevent_timeout = true })
  report (x ∷ xs) s = (
    ok (many (items (changed (x ∷ xs)))),
    record s { subsystem_events = []; subsystem_subscriptions = [] },
  )

  unfoldable pub idle : List Arg → M W Result
  unfolding report texts_of set_update set_intersection
  idle arguments s =
      let subscriptions = set_update s.subsystem_subscriptions (or_all (texts_of arguments)) in
      report (set_intersection subscriptions s.subsystem_events)
        (record s { subsystem_subscriptions = subscriptions })

  pub idle_lem :
      (arguments : List Arg) (s : Session W)
      → idle arguments s
        ≡ report
            (set_intersection
              (set_update s.subsystem_subscriptions (or_all (texts_of arguments)))
              s.subsystem_events)
            (record s {
              subsystem_subscriptions =
                  set_update s.subsystem_subscriptions (or_all (texts_of arguments));
            })
  unfolding idle
  idle_lem arguments s = refl

  unfoldable pub noidle : List Arg → M W Result
  noidle arguments s = if is_empty s.subsystem_subscriptions then (ok nothing, s) else (
    ok nothing,
    record s { subsystem_events = []; subsystem_subscriptions = []; prevent_timeout = false },
  )

  unfoldable pub idle_handlers : List (Handler W)
  unfolding idle noidle
  idle_handlers =
      record {
        name = codes "idle";
        spec = varargs;
        func = idle;
        auth_required = true;
        list_command = true;
      }
      ∷ record {
        name = codes "noidle";
        spec = positional [];
        func = noidle;
        auth_required = true;
        list_command = false;
      }
      ∷ []
