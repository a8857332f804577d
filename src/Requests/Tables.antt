-- ===== src/Requests/Tables.antt =====
-- The table of all commands, those of the core with them, in `handle_request` of
-- src/mopidy_mpd/dispatcher.py.
use mopidy_mpd.Prelude.{ℕ, Text, ◌≢◌, refl, Option, List, [], ◌∷◌, ◌++◌, All, All-append}
use mopidy_mpd.Outcome.{Outcome, ok, raised, diverged}
use mopidy_mpd.Session.{Session, M}
use mopidy_mpd.Protocol.{Result, Arg, Handler}
use mopidy_mpd.Protocol.Calls.{SpecEnds, call_args-total}
use mopidy_mpd.Dispatcher.{Config, Response}
use mopidy_mpd.Commands.Connection.{connection_handlers}
use mopidy_mpd.Commands.CommandList.{command_list_handlers}
use mopidy_mpd.Commands.Status.{idle_handlers}
use mopidy_mpd.Commands.Reflection.{reflection_handlers}
use mopidy_mpd.Requests.{CoreHandler, of_cores, registry, table_with, table}
use mopidy_mpd.Requests.Ends.{Ends}
use mopidy_mpd.Requests.Calls.{HandlerEnds}
use mopidy_mpd.Requests.Handlers.{NoEnd, Holds}

-- A handler of the core returns or raises, and keeps `C`.
pub record CoreEnds {W : Type 0} (C : W → Type 0) (h : CoreHandler W) : Type 0 where
  pub spec_ends : SpecEnds h.spec
  pub total :
      (tagtypes : List Text) (arguments : List Arg) (w : W)
      → C w
      → (h.func tagtypes arguments w).0 ≢ diverged
  pub keeps :
      (tagtypes : List Text) (arguments : List Arg) (w : W)
      → C w
      → C (h.func tagtypes arguments w).1

-- A property of all commands, by the module that registers them.
pub table-All :
    {W : Type 0} (config : Config) (cores : List (CoreHandler W))
    (handle : Text → Option ℕ → M W Response) (P : Handler W → Type 0)
    → All P (connection_handlers config.password)
    → All P (command_list_handlers handle)
    → All P idle_handlers
    → All P (reflection_handlers (registry config cores))
    → All P (of_cores cores)
    → All P (table config cores handle)
unfolding table table_with
table-All {W} config cores handle P connection lists idle reflection core =
    let core_part = of_cores cores in
    let reflection_part = reflection_handlers {W = W} (registry config cores) ++ core_part in
    let idle_part = idle_handlers {W = W} ++ reflection_part in
    let list_part = command_list_handlers handle ++ idle_part in
    All-append P (connection_handlers config.password) list_part connection (
      All-append P (command_list_handlers handle) idle_part lists (
        All-append P idle_handlers reflection_part idle
          (All-append P (reflection_handlers (registry config cores)) core_part reflection core)))

module _ {W : Type 0} (C : W → Type 0) where
  core-Ends :
      (x : Outcome Result × W) (s : Session W)
      → NoEnd s.command_list
      → x.0 ≢ diverged
      → C x.1
      → Ends (Holds C) (let (r, w) = x in (r, record s { core = w }))
  core-Ends (ok r, w) s fit total c = (fit, c)
  core-Ends (raised e, w) s fit total c = (fit, c)
  core-Ends (diverged, w) s fit total c = absurd (total refl)

  pub of_cores-Ends :
      (cores : List (CoreHandler W)) (s : Session W)
      → All (CoreEnds C) cores
      → Holds C s
      → All (HandlerEnds (Holds C) s) (of_cores cores)
  unfolding of_cores
  of_cores-Ends [] s _ h = tt
  of_cores-Ends (c ∷ cs) s (e, es) h = (
    record {
      args_end = λ tokens. call_args-total c.name c.spec tokens e.spec_ends;
      func_ends = λ arguments.
          core-Ends (c.func s.tagtypes arguments s.core) s h.0
            (e.total s.tagtypes arguments s.core h.1) (e.keeps s.tagtypes arguments s.core h.1);
    },
    of_cores-Ends cs s es h,
  )

-- A handler of the core returns or raises.
pub record CoreTotal {W : Type 0} (h : CoreHandler W) : Type 0 where
  pub spec_ends : SpecEnds h.spec
  pub total :
      (tagtypes : List Text) (arguments : List Arg) (w : W)
      → (h.func tagtypes arguments w).0 ≢ diverged

pub core_total :
    {W : Type 0} (cores : List (CoreHandler W))
    → All CoreTotal cores
    → All (CoreEnds (λ (_ : W). Unit {0})) cores
core_total [] _ = tt
core_total (c ∷ cs) (e, es) = (
  record {
    spec_ends = e.spec_ends;
    total = λ tagtypes arguments w _. e.total tagtypes arguments w;
    keeps = λ tagtypes arguments w _. tt;
  },
  core_total cs es,
)
