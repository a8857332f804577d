-- ===== src/Requests/Nested.antt =====
-- `handle_request` of src/mopidy_mpd/dispatcher.py, and its calls by `command_list_end`.
use mopidy_mpd.Prelude.{
  ℕ, suc, Text, codes, ◌≡◌, ◌≢◌, Bool, true, false, not, ◌&&◌, Option, List, [], ◌∷◌, text_eq,
  text_eq→eq, text_eq_refl, All, All-append, Bool-cases, inl, inr, arith,
}
use mopidy_mpd.Outcome.{Outcome, ok, raised, diverged}
use mopidy_mpd.Session.{Session, M}
use mopidy_mpd.Protocol.{Arg}
use mopidy_mpd.Protocol.Calls.{find_handler-All}
use mopidy_mpd.Dispatcher.{Config, Response, is_receiving_command_list, call_handler_filter}
use mopidy_mpd.Commands.CommandList.{run_list, command_list_end}
use mopidy_mpd.Requests.{CoreHandler, registry, table, filters, handle_nested, handle_request}
use mopidy_mpd.Requests.Ends.{Ends, Ends-bind}
use mopidy_mpd.Requests.Calls.{HandlerEnds, Ends-call_handler_filter}
use mopidy_mpd.Requests.Filters.{Filtered, Ends-filters}
use mopidy_mpd.Requests.Handlers.{
  NoEnd, Holds, connection_handlers-Ends, command_list_handlers-Ends, idle_handlers-Ends,
  reflection_handlers-Ends, run_list-Ends,
}
use mopidy_mpd.Requests.Tables.{CoreEnds, table-All, of_cores-Ends, CoreTotal, core_total}

module _ {W : Type 0} (C : W → Type 0) where
  command_list_end_refused :
      (handle : Text → Option ℕ → M W Response) (arguments : List Arg) (s : Session W)
      → Holds C s
      → s.command_list_receiving ≡ false
      → Ends (Holds C) (command_list_end handle arguments s)
  unfolding command_list_end
  command_list_end_refused handle arguments s h e = rw (e, command_list_end) h

  command_list_end_runs :
      (handle : Text → Option ℕ → M W Response) (arguments : List Arg) (s : Session W)
      → Holds C s
      → ((request : Text) (i : Option ℕ) (s' : Session W)
          → request ≢ codes "command_list_end"
          → Holds C s'
          → Ends (Holds C) (handle request i s'))
      → Ends (Holds C) (command_list_end handle arguments s)
  unfolding command_list_end
  command_list_end_runs handle arguments s h k = elim (Bool-cases s.command_list_receiving) [
    | inr e ↦ command_list_end_refused handle arguments s h e
    | inl e ↦
        rw (e, command_list_end)
          (Ends-bind (Holds C) (run_list handle s.command_list_ok 0 s.command_list []) _
            (record s {
              command_list_receiving = false;
              command_list = [];
              command_list_ok = false;
            })
            (run_list-Ends C handle s.command_list_ok 0 s.command_list [] _ k h.0 (tt, h.1))
            (λ r s' h'. h'))
  ]

  receiving_not_end :
      (request : Text) (s : Session W)
      → is_receiving_command_list request s ≡ true
      → request ≢ codes "command_list_end"
  receiving_not_end request s h e =
      cc (ground_receiving (text_eq request (codes "command_list_end")) h, same)
    where
      same : text_eq request (codes "command_list_end") ≡ true
      same = rw e (text_eq_refl (codes "command_list_end"))

      ground_receiving : (b : Bool) → (s.command_list_receiving && not b) ≡ true → b ≡ false
      ground_receiving b h' = ground arith

  not_receiving :
      (request : Text) (s : Session W)
      → request ≢ codes "command_list_end"
      → is_receiving_command_list request s ≡ false
      → s.command_list_receiving ≡ false
  not_receiving request s ne h = elim (Bool-cases (text_eq request (codes "command_list_end"))) [
    | inl e ↦ absurd (ne (text_eq→eq request (codes "command_list_end") e))
    | inr e ↦ decide s.command_list_receiving (text_eq request (codes "command_list_end")) e h
  ]
    where
      decide : (a b : Bool) → b ≡ false → (a && not b) ≡ false → a ≡ false
      decide a b e h' = ground arith

  pub Holds-Filtered : (request : Text) (s : Session W) → Holds C s → Filtered (Holds C) request s
  Holds-Filtered request s h = record {
    before = h;
    stored = λ e. (
      All-append (λ r. r ≢ codes "command_list_end") s.command_list (request ∷ []) h.0
          (receiving_not_end request s e, tt),
      h.1,
    );
    stopped = h;
  }

  module _ (config : Config) (cores : List (CoreHandler W)) (ends : All (CoreEnds C) cores) where
    pub table-Ends :
        (handle : Text → Option ℕ → M W Response) (s : Session W)
        → Holds C s
        → ((arguments : List Arg) → Ends (Holds C) (command_list_end handle arguments s))
        → All (HandlerEnds (Holds C) s) (table config cores handle)
    table-Ends handle s h k =
        table-All config cores handle (HandlerEnds (Holds C) s)
          (connection_handlers-Ends C config.password s h)
          (command_list_handlers-Ends C handle s h k) (idle_handlers-Ends C s h)
          (reflection_handlers-Ends C (registry config cores) s h) (of_cores-Ends C cores s ends h)

    pub filters-Ends :
        (handle : Text → Option ℕ → M W Response) (request : Text) (s : Session W)
        → Holds C s
        → (is_receiving_command_list request s ≡ false
            → (b : Bool) (arguments : List Arg)
            → Ends (Holds C) (command_list_end handle arguments (record s { authenticated = b })))
        → Ends (Holds C) (filters config (table config cores handle) request s)
    filters-Ends handle request s h k =
        Ends-filters (Holds C) config (table config cores handle) request s
          (Holds-Filtered request s h)
          (λ _. Holds-Filtered request (record s { authenticated = true }) h)
          (λ _ e. called s.authenticated e) (λ _ e. called true e) (λ _ e. called s.authenticated e)
      where
        called :
            (b : Bool)
            → is_receiving_command_list request s ≡ false
            → Ends (Holds C) (
                call_handler_filter config
                  (table config cores handle)
                  request
                  (record s { authenticated = b }))
        called b e =
            Ends-call_handler_filter (Holds C) config (table config cores handle) request
              (record s { authenticated = b }) h
              (λ command params g _ found.
                (find_handler-All (HandlerEnds (Holds C) (record s { authenticated = b })) command
                  (table config cores handle) g
                  (table-Ends handle (record s { authenticated = b }) h (k e b)) found).0)

    -- A request that is not the text `command_list_end` runs no list.
    pub handle_once-Ends :
        (depth : ℕ) (request : Text) (index : Option ℕ) (s : Session W)
        → request ≢ codes "command_list_end"
        → Holds C s
        → Ends (Holds C) (handle_nested config cores (suc depth) request index s)
    unfolding handle_nested
    handle_once-Ends depth request index s ne h =
        filters-Ends (handle_nested config cores depth) request
          (record s { command_list_index = index }) h
          (λ e b arguments.
            command_list_end_refused (handle_nested config cores depth) arguments
              (record s { command_list_index = index; authenticated = b }) h
              (not_receiving request s ne e))

    pub handle_request-Ends :
        (request : Text) (index : Option ℕ) (s : Session W)
        → Holds C s
        → Ends (Holds C) (handle_request config cores request index s)
    unfolding handle_request
    handle_request-Ends request index s h =
        filters-Ends (handle_nested config cores 1) request
          (record s { command_list_index = index }) h
          (λ e b arguments.
            command_list_end_runs (handle_nested config cores 1) arguments
              (record s { command_list_index = index; authenticated = b }) h
              (λ r i s' ne h'. handle_once-Ends 0 r i s' ne h'))

pub Ends-parts :
    {W A : Type 0} (S : Session W → Type 0) (x : Outcome A × Session W)
    → Ends S x
    → (x.0 ≢ diverged) × S x.1
Ends-parts S (ok a, s) h = (λ e. cc, h)
Ends-parts S (raised e, s) h = (λ e'. cc, h)
Ends-parts S (diverged, s) h = absurd h

-- Every request returns or raises within two levels of calls, in a session whose stored commands
-- are none of them the text command_list_end, and leaves such a session, if the commands of the
-- core return or raise.
pub handle_request-total :
    {W : Type 0} (config : Config) (cores : List (CoreHandler W)) (request : Text)
    (index : Option ℕ) (s : Session W)
    → All CoreTotal cores
    → NoEnd s.command_list
    → ((handle_request config cores request index s).0 ≢ diverged)
      × NoEnd (handle_request config cores request index s).1.command_list
handle_request-total {W} config cores request index s total fit =
    let (ends, held) =
      Ends-parts (Holds (λ (_ : W). Unit {0})) (handle_request config cores request index s) (
        handle_request-Ends (λ _. Unit {0}) config cores (core_total cores total) request index s
          (fit, tt)) in
    (ends, held.0)
