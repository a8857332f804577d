-- ===== src/Commands/CommandList.antt =====
-- src/mopidy_mpd/protocol/command_list.py. `handle_request` is the dispatcher's method, as an argument.
pub mod Listed
use mopidy_mpd.Prelude.{
  ℕ, ◌+◌, Text, codes, Bool, true, false, not, Option, some, List, [], ◌∷◌, ◌++◌, if◌then◌else◌,
}
use mopidy_mpd.Exceptions.{mpd_unknown_command_error}
use mopidy_mpd.Outcome.{ok}
use mopidy_mpd.Session.{M, pure, throw, modify, ◌>>=◌, ◌>>◌}
use mopidy_mpd.Protocol.{Element, line, Result, nothing, many, items, Arg, positional, Handler}
use mopidy_mpd.Dispatcher.{Response, has_error}

unfoldable pub lines_of : List Text → List Element
lines_of [] = []
lines_of (l ∷ ls) = line l ∷ lines_of ls

module _ {W : Type 0} where
  unfoldable pub begin_list : Bool → M W Result
  begin_list with_oks = do
    modify (λ s. record s {
      command_list_receiving = true;
      command_list_ok = with_oks;
      command_list = [];
    })
    pure nothing

  unfoldable pub command_list_begin : List Arg → M W Result
  unfolding begin_list
  command_list_begin args = begin_list false

  unfoldable pub command_list_ok_begin : List Arg → M W Result
  unfolding begin_list
  command_list_ok_begin args = begin_list true

  module _ (handle_request : Text → Option ℕ → M W Response) where
    -- The loop over the commands: an ACK ends it.
    unfoldable pub run_list : Bool → ℕ → List Text → Response → M W Response
    unfolding has_error
    run_list with_oks index [] response = pure response
    run_list with_oks index (command ∷ commands) response = do
      lines ← handle_request command (some index)
      let so_far = response ++ lines
      let next =
          run_list with_oks (index + 1) commands
            (if with_oks then so_far ++ codes "list_OK" ∷ [] else so_far)
      if has_error so_far then pure so_far else next

    unfoldable pub take_list : M W (List Text × Bool)
    take_list s = (
      ok (s.command_list, s.command_list_ok),
      record s { command_list_receiving = false; command_list = []; command_list_ok = false },
    )

    unfoldable pub command_list_end : List Arg → M W Result
    unfolding run_list take_list lines_of
    command_list_end args s =
        if not s.command_list_receiving
        then throw (mpd_unknown_command_error (codes "command_list_end")) s
        else (do
          taken ← take_list
          response ← run_list taken.1 0 taken.0 []
          pure (many (items (lines_of response))))
            s

    unfoldable pub command_list_handlers : List (Handler W)
    unfolding command_list_begin command_list_end command_list_ok_begin
    command_list_handlers =
        record {
          name = codes "command_list_begin";
          spec = positional [];
          func = command_list_begin;
          auth_required = true;
          list_command = false;
        }
        ∷ record {
          name = codes "command_list_end";
          spec = positional [];
          func = command_list_end;
          auth_required = true;
          list_command = false;
        }
        ∷ record {
          name = codes "command_list_ok_begin";
          spec = positional [];
          func = command_list_ok_begin;
          auth_required = true;
          list_command = false;
        }
        ∷ []
