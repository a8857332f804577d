-- ===== src/Commands/CommandList/Listed.antt =====
-- The loop of `command_list_end` in src/mopidy_mpd/protocol/command_list.py, and what a list answers.
use mopidy_mpd.Prelude.{
  ℕ, ◌+◌, Text, codes, ◌≡◌, refl, ap, ◌∙◌, Bool, true, false, Option, some, List, [], ◌∷◌, ◌++◌,
  append_assoc, append-nil, if◌then◌else◌, Bool-cases, inl, inr, is_empty, starts_with,
}
use mopidy_mpd.Outcome.{Outcome, ok, raised, diverged}
use mopidy_mpd.Session.{Session, M, pure, ◌>>=◌}
use mopidy_mpd.Dispatcher.{Response, has_error, last_line}
use mopidy_mpd.Commands.CommandList.{run_list}

last_line-append :
    (r : Response) (l : Text) (ls : Response) → last_line (r ++ l ∷ ls) ≡ last_line (l ∷ ls)
unfolding last_line
last_line-append [] l ls = refl
last_line-append (k ∷ []) l ls = refl
last_line-append (k ∷ j ∷ r) l ls = last_line-append (j ∷ r) l ls

not_empty-append : (r : Response) (l : Text) (ls : Response) → is_empty (r ++ l ∷ ls) ≡ false
not_empty-append [] l ls = refl
not_empty-append (k ∷ r) l ls = refl

-- Only the last lines count.
has_error-append :
    (r lines : Response) → has_error r ≡ false → has_error (r ++ lines) ≡ has_error lines
unfolding has_error
has_error-append r [] h = ap has_error (append-nil r) ∙ h
has_error-append r (l ∷ ls) h = rw (not_empty-append r l ls, last_line-append r l ls) refl

-- What stands behind the response of a command of the list.
abbrev pub marked : Bool → Response → Response
marked true rest = codes "list_OK" ∷ rest
marked false rest = rest

module _ {W : Type 0} (handle : Text → Option ℕ → M W Response) where
  -- The responses of the commands, each with its mark, up to the first that ends in an error.
  unfoldable pub listed : Bool → ℕ → List Text → M W Response
  unfolding has_error
  listed with_oks index [] = pure []
  listed with_oks index (command ∷ commands) = do
    lines ← handle command (some index)
    let next = do rest ← listed with_oks (index + 1) commands; pure (lines ++ marked with_oks rest)
    if has_error lines then pure lines else next

  -- With the response of a further command, and its mark.
  abbrev extended : Bool → Response → Response → Response
  extended with_oks response lines =
      if with_oks then (response ++ lines) ++ codes "list_OK" ∷ [] else response ++ lines

  extended-append :
      (with_oks : Bool) (response lines rest : Response)
      → extended with_oks response lines ++ rest ≡ response ++ (lines ++ marked with_oks rest)
  extended-append true response lines rest =
      append_assoc (response ++ lines) (codes "list_OK" ∷ []) rest
      ∙ append_assoc response lines (codes "list_OK" ∷ rest)
  extended-append false response lines rest = append_assoc response lines rest

  extended-fine :
      (with_oks : Bool) (response lines : Response)
      → has_error (response ++ lines) ≡ false
      → has_error (extended with_oks response lines) ≡ false
  unfolding has_error last_line starts_with
  extended-fine true response lines h =
      has_error-append (response ++ lines) (codes "list_OK" ∷ []) h
  extended-fine false response lines h = h

  regroup :
      (with_oks : Bool) (response lines : Response) (x : Outcome Response × Session W)
      → ((λ _. x) >>= λ r. pure (extended with_oks response lines ++ r)) x.1
        ≡ (((λ _. x) >>= λ rest. pure (lines ++ marked with_oks rest)) >>= λ r.
              pure (response ++ r))
            x.1
  regroup with_oks response lines (ok rest, s) =
      ap (λ (r : Response). (ok r, s)) (extended-append with_oks response lines rest)
  regroup with_oks response lines (raised e, s) = refl
  regroup with_oks response lines (diverged, s) = refl

  -- The loop answers what it has, and then what the list answers.
  pub run_list-listed :
      (with_oks : Bool) (index : ℕ) (commands : List Text) (response : Response) (s : Session W)
      → has_error response ≡ false
      → run_list handle with_oks index commands response s
        ≡ (listed with_oks index commands >>= λ r. pure (response ++ r)) s
  unfolding run_list listed
  run_list-listed with_oks index [] response s h = rw (append-nil response) refl
  run_list-listed with_oks index (command ∷ commands) response s h =
      after (handle command (some index) s) (run_list-listed with_oks (index + 1) commands)
    where
      tail : Response → M W Response
      tail so_far = run_list handle with_oks (index + 1) commands so_far

      spec : M W Response
      spec = listed with_oks (index + 1) commands

      after :
          (x : Outcome Response × Session W)
          → ((so_far : Response) (s' : Session W)
              → has_error so_far ≡ false
              → tail so_far s' ≡ (spec >>= λ r. pure (so_far ++ r)) s')
          → ((λ _. x) >>= λ lines.
                if has_error (response ++ lines)
                then pure (response ++ lines)
                else tail (extended with_oks response lines))
              s
            ≡ (((λ _. x) >>= λ lines.
                    if has_error lines
                    then pure lines
                    else (spec >>= λ rest. pure (lines ++ marked with_oks rest)))
                  >>= λ r. pure (response ++ r))
                s
      after (raised e, s') ih = refl
      after (diverged, s') ih = refl
      after (ok lines, s') ih = elim (Bool-cases (has_error lines)) [
        | inl e ↦ rw (has_error-append response lines h, e) refl
        | inr e ↦
            let fine = has_error-append response lines h ∙ e in
            rw (fine, e)
              (ih (extended with_oks response lines) s' (extended-fine with_oks response lines fine)
                ∙ regroup with_oks response lines (spec s'))
      ]
