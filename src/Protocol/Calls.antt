-- ===== src/Protocol/Calls.antt =====
-- What `Commands.call` and `Handler.__call__` do with a name and its tokens.
use mopidy_mpd.Prelude.{
  Text, ◌≡◌, ◌≢◌, refl, Option, none, some, List, [], ◌∷◌, subst, text_eq, text_eq→eq, All,
  Bool-cases, inl, inr,
}
use mopidy_mpd.Outcome
use mopidy_mpd.Outcome.{
  Outcome, Raised, ok, raised, diverged, value_error, ack, actor_dead, other_error,
}
use mopidy_mpd.Protocol.{
  Arg, Param, Spec, varargs, positional, Handler, Bound, given, defaulted, bind_args,
  incorrect_arguments, validate, is_default, convert_arg, convert_args, bound_args, call_args,
  find_handler,
}

-- The validators of a registration return or raise.
abbrev pub ParamEnds : Param → Type 0
ParamEnds p = (f : Text → Outcome Arg) → p.validator ≡ some f → (t : Text) → f t ≢ diverged

abbrev pub SpecEnds : Spec → Type 0
SpecEnds varargs = Unit
SpecEnds (positional ps) = All ParamEnds ps

incorrect_arguments-total : (o : Outcome Arg) → o ≢ diverged → incorrect_arguments o ≢ diverged
unfolding incorrect_arguments
incorrect_arguments-total (ok a) h = h
incorrect_arguments-total (raised value_error) h = λ e. cc
incorrect_arguments-total (raised (ack a)) h = h
incorrect_arguments-total (raised (actor_dead a)) h = h
incorrect_arguments-total (raised (other_error a)) h = h
incorrect_arguments-total diverged h = absurd (h refl)

validate-total :
    (v : Option (Text → Outcome Arg)) (t : Text)
    → ((f : Text → Outcome Arg) → v ≡ some f → (u : Text) → f u ≢ diverged)
    → validate v t ≢ diverged
unfolding validate
validate-total none t h = λ e. cc
validate-total (some f) t h = incorrect_arguments-total (f t) (h f refl t)

convert_arg-total : (p : Param) (b : Bound) → ParamEnds p → convert_arg p b ≢ diverged
unfolding convert_arg
convert_arg-total p (defaulted a) h = λ e. cc
convert_arg-total p (given t) h = elim (Bool-cases (is_default p.default t)) [
  | inl e ↦ rw e (λ e'. cc)
  | inr e ↦ rw e (validate-total p.validator t h)
]

pub bind-total :
    {A B : Type 0} (m : Outcome A) (f : A → Outcome B)
    → m ≢ diverged
    → ((a : A) → f a ≢ diverged)
    → Outcome.◌>>=◌ m f ≢ diverged
bind-total (ok a) f h k = k a
bind-total (raised e) f h k = λ e'. cc
bind-total diverged f h k = absurd (h refl)

convert_args-total :
    (ps : List Param) (bs : List Bound) → All ParamEnds ps → convert_args ps bs ≢ diverged
unfolding convert_args
convert_args-total [] bs h = λ e. cc
convert_args-total (p ∷ ps) [] h = λ e. cc
convert_args-total (p ∷ ps) (b ∷ bs) (hp, hps) =
    bind-total (convert_arg p b) _ (convert_arg-total p b hp)
      (λ a. bind-total (convert_args ps bs) _ (convert_args-total ps bs hps) (λ rest e. cc))

bound_args-total :
    (name : Text) (ps : List Param) (m : Option (List Bound))
    → All ParamEnds ps
    → bound_args name ps m ≢ diverged
unfolding bound_args
bound_args-total name ps none h = λ e. cc
bound_args-total name ps (some bs) h = convert_args-total ps bs h

pub call_args-total :
    (name : Text) (spec : Spec) (tokens : List Text)
    → SpecEnds spec
    → call_args name spec tokens ≢ diverged
unfolding call_args
call_args-total name varargs tokens h = λ e. cc
call_args-total name (positional ps) tokens h = bound_args-total name ps (bind_args ps tokens) h

module _ {W : Type 0} where
  -- A handler that is found is registered, under that name.
  pub find_handler-All :
      (P : Handler W → Type 0) (name : Text) (hs : List (Handler W)) (h : Handler W)
      → All P hs
      → find_handler name hs ≡ some h
      → P h × (h.name ≡ name)
  unfolding find_handler
  find_handler-All P name [] h _ e = absurd (cc)
  find_handler-All P name (g ∷ hs) h (pg, ps) e = elim (Bool-cases (text_eq g.name name)) [
    | inl same ↦ first (found (rw same at e)) pg (text_eq→eq g.name name same)
    | inr other ↦ find_handler-All P name hs h ps (rw other at e)
  ]
    where
      found : some g ≡ some h → g ≡ h
      found e' = cc

      first : g ≡ h → P g → g.name ≡ name → P h × (h.name ≡ name)
      first eq p n = subst (λ (k : Handler W). P k × (k.name ≡ name)) eq (p, n)
