-- ===== src/Requests/Lists.antt =====
-- Command lists: what the filters of src/mopidy_mpd/dispatcher.py and the commands of
-- src/mopidy_mpd/protocol/command_list.py make of the requests of a list.
use mopidy_mpd.Prelude.{
  Text, codes, ◌≡◌, refl, sym, ap, ◌∙◌, Bool, true, false, none, List, [], ◌∷◌, ◌++◌, append_assoc,
  append-nil, contains, subst,
}
use mopidy_mpd.Outcome.{Outcome, ok}
use mopidy_mpd.Session.{Session, pure, ◌>>=◌}
use mopidy_mpd.Dispatcher.{Config, Response, has_error}
use mopidy_mpd.Commands.CommandList.Listed.{listed, run_list-listed}
use mopidy_mpd.Requests.{CoreHandler, handle_nested, handle_request}
use mopidy_mpd.Requests.Handlers.{NoEnd}
use mopidy_mpd.Requests.Login.{requests}
use mopidy_mpd.Requests.Collecting.{
  answers, opening, ready, collecting, started, opens, stores, chain, ends_list, final, silence,
  chain-ok,
}

module _ {W : Type 0} (config : Config) (cores : List (CoreHandler W)) where
  -- What the requests of a list, with its end, come to.
  abbrev Concludes : Bool → List Text → List Text → Response → Session W → Session W → Type 0
  Concludes with_oks stored sent lines s s' =
      (answers config cores (sent ++ codes "command_list_end" ∷ []) (collecting with_oks stored s)
        ≡ silence sent ++ ok (final lines s') ∷ [])
      × (requests config cores (sent ++ codes "command_list_end" ∷ [])
            (collecting with_oks stored s)
          ≡ s')

  -- The commands of a list, each handled as a request of its own, under its index.
  abbrev pub list_run : Bool → List Text → Session W → Outcome Response × Session W
  list_run with_oks commands s =
      listed (handle_nested config cores 1) with_oks 0 commands (started s)

  ended :
      (with_oks : Bool) (stored : List Text) (lines : Response) (s s' : Session W)
      → contains config.command_blacklist (codes "command_list_end") ≡ false
      → list_run with_oks stored s ≡ (ok lines, s')
      → handle_request config cores (codes "command_list_end") none (collecting with_oks stored s)
        ≡ (ok (final lines s'), s')
  unfolding has_error
  ended with_oks stored lines s s' free runs =
      ends_list config cores with_oks stored s free
      ∙ ap chain (
          run_list-listed (handle_nested config cores 1) with_oks 0 stored [] (started s) refl
          ∙ ap
              (λ (x : Outcome Response × Session W). ((λ _. x) >>= λ r. pure ([] ++ r)) (started s))
              runs)
      ∙ chain-ok lines s'

  collects :
      (with_oks : Bool) (stored sent : List Text) (lines : Response) (s s' : Session W)
      → contains config.command_blacklist (codes "command_list_end") ≡ false
      → NoEnd sent
      → list_run with_oks (stored ++ sent) s ≡ (ok lines, s')
      → Concludes with_oks stored sent lines s s'
  unfolding answers requests
  collects with_oks stored [] lines s s' free _ runs =
      let e = ended with_oks stored lines s s' free (
        subst (λ (l : List Text). list_run with_oks l s ≡ (ok lines, s')) (append-nil stored)
          runs) in
      (
        ap (λ ((o, s'') : Outcome Response × Session W). o ∷ []) e,
        ap (λ ((o, s'') : Outcome Response × Session W). s'') e,
      )
  collects with_oks stored (request ∷ sent) lines s s' free (other, others) runs =
      let rest = collects with_oks (stored ++ request ∷ []) sent lines s s' free others (
        subst (λ (l : List Text). list_run with_oks l s ≡ (ok lines, s'))
          (sym (append_assoc stored (request ∷ []) sent)) runs) in
      let e = stores config cores with_oks stored request s other in
      (
        ap
              (λ ((o, s'') : Outcome Response × Session W).
                o ∷ answers config cores (sent ++ codes "command_list_end" ∷ []) s'')
              e
            ∙ ap (λ (l : List (Outcome Response)). ok [] ∷ l) rest.0,
        ap
              (λ ((o, s'') : Outcome Response × Session W).
                requests config cores (sent ++ codes "command_list_end" ∷ []) s'')
              e
            ∙ rest.1,
      )

  -- In a session that is authenticated, and neither idle nor in a list, a command list is answered
  -- at its end only: with the responses of its commands, each run as a request of its own under its
  -- index, in order up to the first that ends in an error, a list_OK behind each without one if the
  -- list asked for it, and OK if there was no error; or with nothing, where the client is idle
  -- then. This holds where no command is the text command_list_end, neither end of the list is
  -- blacklisted, and the commands raise nothing but ACKs.
  pub answers-list :
      (with_oks : Bool) (commands : List Text) (lines : Response) (s s' : Session W)
      → contains config.command_blacklist (opening with_oks) ≡ false
      → contains config.command_blacklist (codes "command_list_end") ≡ false
      → s.authenticated ≡ true
      → s.command_list_receiving ≡ false
      → s.subsystem_subscriptions ≡ []
      → NoEnd commands
      → list_run with_oks commands s ≡ (ok lines, s')
      → (answers config cores (opening with_oks ∷ (commands ++ codes "command_list_end" ∷ [])) s
          ≡ ok [] ∷ (silence commands ++ ok (final lines s') ∷ []))
        × (requests config cores (opening with_oks ∷ (commands ++ codes "command_list_end" ∷ [])) s
            ≡ s')
  unfolding answers requests
  answers-list with_oks commands lines s s' opens_free free known outside live fit runs =
      let e : handle_request config cores (opening with_oks) none s
          ≡ (ok [], collecting with_oks [] s) =
        subst
          (λ (t : Session W).
            handle_request config cores (opening with_oks) none t
            ≡ (ok [], collecting with_oks [] s))
          same (opens config cores with_oks s opens_free) in
      let rest = collects with_oks [] commands lines s s' free fit runs in
      (
        ap
              (λ ((o, s'') : Outcome Response × Session W).
                o ∷ answers config cores (commands ++ codes "command_list_end" ∷ []) s'')
              e
            ∙ ap (λ (l : List (Outcome Response)). ok [] ∷ l) rest.0,
        ap
              (λ ((o, s'') : Outcome Response × Session W).
                requests config cores (commands ++ codes "command_list_end" ∷ []) s'')
              e
            ∙ rest.1,
      )
    where
      same : ready s ≡ s
      same = cc (known, outside, live)
