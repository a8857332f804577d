-- ===== src/Protocol/Binding.antt =====
-- The binding of tokens to parameters, and the validators, in `Handler.__call__` of
-- src/mopidy_mpd/protocol/__init__.py.
use mopidy_mpd.Prelude.{
  true, Text, codes, ◌≡◌, ◌≢◌, refl, sym, subst, Option, none, some, List, [], ◌∷◌, ◌++◌, ◌≤◌, ◌⊎◌,
  inl, inr, length, drop, text_eq→eq, All, Bool-cases, arith,
}
use mopidy_mpd.Exceptions.{Ack, mpd_error, arg_error}
use mopidy_mpd.Outcome.{Outcome, ok, raised, diverged, value_error, ack, actor_dead, other_error}
use mopidy_mpd.Convert.Errors.{Parses}
use mopidy_mpd.Session.{Session}
use mopidy_mpd.Protocol.{
  Arg, str_arg, Param, positional, Handler, Bound, given, defaulted, cons_bound, bind_default,
  bind_args, incorrect_arguments, validate, is_default, convert_arg, convert_args, wrong_number,
  bound_args, call_args, call_handler, int_arg, bool_arg, slice_arg, float_arg, none_arg,
}

-- What the parameter stands for is of the type: its default, a token, or what its validator makes
-- of one.
pub record IsTyped (P : Arg → Type 0) (p : Param) : Type 0 where
  pub default_of : (a : Arg) → p.default ≡ some a → P a
  pub token_of : p.validator ≡ none → (t : Text) → P (str_arg t)
  pub value_of : (f : Text → Outcome Arg) → p.validator ≡ some f → (t : Text) → Parses P (f t)

abbrev pub Takes : List (Arg → Type 0) → List Param → Type 0
Takes [] [] = Unit
Takes (P ∷ Ps) (p ∷ ps) = IsTyped P p × Takes Ps ps
Takes _ _ = ⊥

-- One argument for each type, and of that type.
abbrev pub Fits : List (Arg → Type 0) → List Arg → Type 0
Fits [] [] = Unit
Fits (P ∷ Ps) (a ∷ arguments) = P a × Fits Ps arguments
Fits _ _ = ⊥

-- There are not more tokens than parameters, and the parameters behind the tokens have defaults.
abbrev pub Counts : List Param → List Text → Type 0
Counts ps tokens =
    (length tokens ≤ length ps) × All (λ (p : Param). p.default ≢ none) (drop (length tokens) ps)

abbrev IsBound : List Param → List Bound → Type 0
IsBound [] [] = Unit
IsBound (p ∷ ps) (given t ∷ bs) = IsBound ps bs
IsBound (p ∷ ps) (defaulted a ∷ bs) = (p.default ≡ some a) × IsBound ps bs
IsBound _ _ = ⊥

-- The tokens are bound just where their number fits.
abbrev Binding : List Param → List Text → Type 0
Binding ps tokens =
    (Counts ps tokens × ((bs : List Bound) × (bind_args ps tokens ≡ some bs) × IsBound ps bs))
    ⊎ ((¬ Counts ps tokens) × (bind_args ps tokens ≡ none))

bind_args-Binding : (ps : List Param) (tokens : List Text) → Binding ps tokens
unfolding bind_args cons_bound
bind_args-Binding [] [] = inl ((omega arith, tt), ([], refl, tt))
bind_args-Binding [] (t ∷ ts) = inr ((λ h. omega (arith, h.0)), refl)
bind_args-Binding (p ∷ ps) (t ∷ ts) = elim (bind_args-Binding ps ts) [
  | inl ((few, rest), (bs, e, b)) ↦ inl ((omega (arith, few), rest), (given t ∷ bs, rw e refl, b))
  | inr (h, e) ↦ inr ((λ (few, rest). h (omega (arith, few), rest)), rw e refl)
]
bind_args-Binding (p ∷ ps) [] = defaults p.default refl (bind_args-Binding ps [])
  where
    defaults : (d : Option Arg) → p.default ≡ d → Binding ps [] → Binding (p ∷ ps) []
    defaults none e h = inr ((λ (few, (has, rest)). has e), unfold bind_default in rw e refl)
    defaults (some a) e (inl ((few, rest), (bs, e', b))) = inl (
      (omega arith, ((λ same. absurd (cc (e, same))), rest)),
      (defaulted a ∷ bs, unfold bind_default in rw (e, e') refl, (e, b)),
    )
    defaults (some a) e (inr (h, e')) =
        inr ((λ (few, (has, rest)). h (omega arith, rest)), unfold bind_default in rw (e, e') refl)

-- The answer to a token that a validator refuses.
abbrev pub incorrect : Ack
incorrect = mpd_error arg_error (codes "incorrect arguments") none

-- A value of the type, or the refusal.
abbrev Converts : {A : Type 0} → (A → Type 0) → Outcome A → Type 0
Converts {A} P o = ((a : A) × (o ≡ ok a) × P a) ⊎ (o ≡ raised (ack incorrect))

incorrect_arguments-Converts :
    (P : Arg → Type 0) (o : Outcome Arg) → Parses P o → Converts P (incorrect_arguments o)
unfolding incorrect_arguments
incorrect_arguments-Converts P (ok a) h = inl (a, refl, h)
incorrect_arguments-Converts P (raised value_error) h = inr refl
incorrect_arguments-Converts P (raised (ack a)) h = absurd h
incorrect_arguments-Converts P (raised (actor_dead a)) h = absurd h
incorrect_arguments-Converts P (raised (other_error a)) h = absurd h
incorrect_arguments-Converts P diverged h = absurd h

validate-Converts :
    (P : Arg → Type 0) (p : Param) (t : Text) → IsTyped P p → Converts P (validate p.validator t)
validate-Converts P p t h = of p.validator refl
  where
    of : (v : Option (Text → Outcome Arg)) → p.validator ≡ v → Converts P (validate v t)
    of none e = inl (str_arg t, (unfold validate in refl), h.token_of e t)
    of (some f) e = unfold validate in incorrect_arguments-Converts P (f t) (h.value_of f e t)

-- A token that is the default is of its type.
is_default-typed :
    (P : Arg → Type 0) (d : Option Arg) (t : Text)
    → ((a : Arg) → d ≡ some a → P a)
    → is_default d t ≡ true
    → P (str_arg t)
unfolding is_default
is_default-typed P (some (str_arg d)) t h e =
    subst (λ (u : Text). P (str_arg u)) (sym (text_eq→eq t d e)) (h (str_arg d) refl)
is_default-typed P none t h e = absurd (cc)
is_default-typed P (some none_arg) t h e = absurd (cc)
is_default-typed P (some (int_arg n)) t h e = absurd (cc)
is_default-typed P (some (bool_arg b)) t h e = absurd (cc)
is_default-typed P (some (slice_arg r)) t h e = absurd (cc)
is_default-typed P (some (float_arg x)) t h e = absurd (cc)

convert_given :
    (P : Arg → Type 0) (p : Param) (t : Text) → IsTyped P p → Converts P (convert_arg p (given t))
unfolding convert_arg
convert_given P p t h = elim (Bool-cases (is_default p.default t)) [
  | inl e ↦ rw e (inl (str_arg t, refl, is_default-typed P p.default t h.default_of e))
  | inr e ↦ rw e (validate-Converts P p t h)
]

convert_args-Fits :
    (Ps : List (Arg → Type 0)) (ps : List Param) (bs : List Bound)
    → Takes Ps ps
    → IsBound ps bs
    → Converts (Fits Ps) (convert_args ps bs)
unfolding convert_args
convert_args-Fits [] [] [] h b = inl ([], refl, tt)
convert_args-Fits [] [] (x ∷ bs) h b = absurd b
convert_args-Fits [] (p ∷ ps) bs h b = absurd h
convert_args-Fits (P ∷ Ps) [] bs h b = absurd h
convert_args-Fits (P ∷ Ps) (p ∷ ps) [] h b = absurd b
convert_args-Fits (P ∷ Ps) (p ∷ ps) (given t ∷ bs) (h, hs) b = elim (convert_given P p t h) [
  | inr e ↦ inr (rw e refl)
  | inl (a, e, typed) ↦ elim (convert_args-Fits Ps ps bs hs b) [
    | inr e' ↦ inr (rw (e, e') refl)
    | inl (arguments, e', fit) ↦ inl (a ∷ arguments, rw (e, e') refl, (typed, fit))
  ]
]
convert_args-Fits (P ∷ Ps) (p ∷ ps) (defaulted a ∷ bs) (h, hs) (d, b) =
    elim (convert_args-Fits Ps ps bs hs b) [
      | inr e ↦ inr (unfold convert_arg in rw e refl)
      | inl (arguments, e, fit) ↦
          inl (a ∷ arguments, (unfold convert_arg in rw e refl), (h.default_of a d, fit))
    ]

module _ {W : Type 0} (h : Handler W) (ps : List Param) (Ps : List (Arg → Type 0))
    (tokens : List Text) (s : Session W) (takes : h.spec ≡ positional ps)
    (typed : Takes Ps ps) where
  call_bound :
      (bs : List Bound)
      → bind_args ps tokens ≡ some bs
      → IsBound ps bs
      → ((arguments : List Arg) × Fits Ps arguments
          × (call_handler h tokens s ≡ h.func arguments s))
        ⊎ (call_handler h tokens s ≡ (raised (ack incorrect), s))
  unfolding call_handler call_args bound_args
  call_bound bs e b = elim (convert_args-Fits Ps ps bs typed b) [
    | inl (arguments, e', fit) ↦ inl (arguments, fit, rw (takes, call_args, e, bound_args, e') refl)
    | inr e' ↦ inr (rw (takes, call_args, e, bound_args, e') refl)
  ]

-- A handler is called with exactly one argument for each of its parameters, each of the type of its
-- parameter, or it is not called and answers with an ACK: wrong number of arguments, just where
-- there are more tokens than parameters or a parameter behind the tokens has no default, and else
-- incorrect arguments. This holds where the validators return a value of the type or raise a
-- ValueError.
pub call_handler-Fits :
    {W : Type 0} (h : Handler W) (ps : List Param) (Ps : List (Arg → Type 0)) (tokens : List Text)
    (s : Session W)
    → h.spec ≡ positional ps
    → Takes Ps ps
    → (Counts ps tokens
        → ((arguments : List Arg) × Fits Ps arguments
            × (call_handler h tokens s ≡ h.func arguments s))
          ⊎ (call_handler h tokens s ≡ (raised (ack incorrect), s)))
      × ((¬ Counts ps tokens)
          → call_handler h tokens s ≡ (
            raised (
                ack (
                  mpd_error arg_error
                    (codes "wrong number of arguments for \"" ++ h.name ++ codes "\"")
                    none)),
            s,
          ))
unfolding call_handler call_args bound_args wrong_number
call_handler-Fits h ps Ps tokens s takes typed = elim (bind_args-Binding ps tokens) [
  | inl (fits, (bs, e, b)) ↦
      ((λ _. call_bound h ps Ps tokens s takes typed bs e b), (λ other. absurd (other fits)))
  | inr (other, e) ↦
      ((λ fits. absurd (other fits)), (λ _. rw (takes, call_args, e, bound_args) refl))
]
