-- ===== src/Requests.antt =====
-- `MpdDispatcher.handle_request` of src/mopidy_mpd/dispatcher.py, tied to the table of commands.
pub mod Ends
pub mod Calls
pub mod Filters
pub mod Handlers
pub mod Tables
pub mod Nested
pub mod Words
pub mod Access
pub mod Login
pub mod Collecting
pub mod Lists
use mopidy_mpd.Prelude.{
  ℕ, zero, suc, Text, codes, Bool, true, false, Option, none, some, List, [], ◌∷◌, ◌++◌,
}
use mopidy_mpd.Outcome.{Outcome, diverged}
use mopidy_mpd.Session.{Session, M}
use mopidy_mpd.Protocol.{Result, Arg, Spec, Handler}
use mopidy_mpd.Dispatcher.{
  Config, Response, catch_mpd_ack_errors_filter, authenticate_filter, command_list_filter,
  idle_filter, add_ok_filter, call_handler_filter,
}
use mopidy_mpd.Commands.Connection.{connection_handlers}
use mopidy_mpd.Commands.CommandList.{command_list_handlers}
use mopidy_mpd.Commands.Status.{idle_handlers}
use mopidy_mpd.Commands.Reflection.{Listing, listings, reflection_handlers}

-- A command that reaches only `context.core`, `context.uri_map` and `context.session.tagtypes`.
pub record CoreHandler (W : Type 0) : Type 0 where
  pub name : Text
  pub spec : Spec
  pub func : List Text → List Arg → W → Outcome Result × W
  pub auth_required : Bool
  pub list_command : Bool

module _ {W : Type 0} where
  -- The same as a handler of the session: all else in the session stays as it is.
  abbrev pub of_core : CoreHandler W → Handler W
  of_core h = record {
    name = h.name;
    spec = h.spec;
    func = λ arguments s.
        let (r, core') = h.func s.tagtypes arguments s.core in (r, record s { core = core' });
    auth_required = h.auth_required;
    list_command = h.list_command;
  }

  unfoldable pub of_cores : List (CoreHandler W) → List (Handler W)
  of_cores [] = []
  of_cores (h ∷ hs) = of_core h ∷ of_cores hs

module _ {W : Type 0} (config : Config) where
  -- The filter chain of `handle_request`.
  unfoldable pub filters : List (Handler W) → Text → M W Response
  unfolding catch_mpd_ack_errors_filter authenticate_filter command_list_filter idle_filter
      add_ok_filter call_handler_filter
  filters handlers request = catch_mpd_ack_errors_filter (
      authenticate_filter config handlers request (
        command_list_filter request
          (idle_filter request (add_ok_filter (call_handler_filter config handlers request)))))

module _ {W : Type 0} (config : Config) (cores : List (CoreHandler W)) where
  module _ (registry : List Listing) (handle : Text → Option ℕ → M W Response) where
    -- The handlers of the session itself, then those of the core.
    unfoldable pub table_with : List (Handler W)
    unfolding of_cores connection_handlers command_list_handlers idle_handlers reflection_handlers
    table_with =
        connection_handlers config.password
        ++ (command_list_handlers handle
            ++ (idle_handlers ++ (reflection_handlers registry ++ of_cores cores)))

  -- `protocol.commands.handlers`, as the reflection commands read it.
  unfoldable pub registry : List Listing
  unfolding listings table_with
  registry = listings (table_with [] (λ request index s. (diverged, s)))

  -- `protocol.commands`
  unfoldable pub table : (Text → Option ℕ → M W Response) → List (Handler W)
  unfolding registry
  table handle = table_with registry handle

  -- `handle_request`, with a bound on how deep `command_list_end` calls it again.
  pub handle_nested : ℕ → Text → Option ℕ → M W Response
  unfolding filters table
  handle_nested zero request index s = (diverged, s)
  handle_nested (suc depth) request index s =
      filters config (table (handle_nested depth)) request (record s { command_list_index = index })

  -- A list in a list is refused, so two levels are enough.
  unfoldable pub handle_request : Text → Option ℕ → M W Response
  unfolding handle_nested
  handle_request request index = handle_nested 2 request index
