-- ===== src/Protocol.antt =====
-- src/mopidy_mpd/protocol/__init__.py: results, the registry of commands, and the call of a handler.
pub mod Calls
pub mod Binding
use mopidy_mpd.Prelude.{
  Text, codes, ℤ, Bool, true, false, Option, none, some, List, [], ◌∷◌, ◌++◌, if◌then◌else◌,
  text_eq, show_int,
}
use mopidy_mpd.Exceptions.{
  Ack, mpd_error, arg_error, mpd_no_command_error, mpd_unknown_command_error,
}
use mopidy_mpd.Outcome
use mopidy_mpd.Outcome.{Outcome, ok, raised, diverged, ack, value_error}
use mopidy_mpd.Convert.{Slice}
use mopidy_mpd.Convert.Float.{Float}
use mopidy_mpd.Session.{M, throw, lift, ◌>>=◌}

-- `ResultValue`
pub data Value : Type 0 where
  str : Text → Value
  int : ℤ → Value

-- A `ResultDict` with its items in order, a `ResultTuple`, or a bare line.
pub data Element : Type 0 where
  dict : List (Text × Value) → Element
  pair : Text → Value → Element
  line : Text → Element

-- A `ResultList`; a list in it may hold lists again.
mutual
  pub data Item : Type 0 where
    element : Element → Item
    nested : Items → Item

  pub data Items : Type 0 where
    nil : Items
    cons : Item → Items → Items

-- `Result`
pub data Result : Type 0 where
  nothing : Result
  single : Element → Result
  many : Items → Result

-- A list of elements as a result.
abbrev pub items : List Element → Items
items [] = nil
items (e ∷ es) = cons (element e) (items es)

-- What a handler is called with: a token, a converted token, or a default.
pub data Arg : Type 0 where
  none_arg : Arg
  str_arg : Text → Arg
  int_arg : ℤ → Arg
  bool_arg : Bool → Arg
  slice_arg : Slice → Arg
  float_arg : Float → Arg

-- A parameter behind the context: its default and its validator, where it has them.
pub record Param : Type 0 where
  pub default : Option Arg
  pub validator : Option (Text → Outcome Arg)

-- `inspect.getfullargspec`: `*args`, or parameters.
pub data Spec : Type 0 where
  varargs : Spec
  positional : List Param → Spec

pub record Handler (W : Type 0) : Type 0 where
  pub name : Text
  pub spec : Spec
  pub func : List Arg → M W Result
  pub auth_required : Bool
  pub list_command : Bool

-- A bound parameter: its token, or its default.
pub data Bound : Type 0 where
  given : Text → Bound
  defaulted : Arg → Bound

pub cons_bound : Bound → Option (List Bound) → Option (List Bound)
cons_bound b none = none
cons_bound b (some bs) = some (b ∷ bs)

pub bind_default : Option Arg → Option (List Bound) → Option (List Bound)
unfolding cons_bound
bind_default none rest = none
bind_default (some a) rest = cons_bound (defaulted a) rest

-- `inspect.signature(func).bind(*args)` and `apply_defaults`; `none` for the `TypeError`
pub bind_args : List Param → List Text → Option (List Bound)
unfolding cons_bound bind_default
bind_args [] [] = some []
bind_args [] (t ∷ ts) = none
bind_args (p ∷ ps) (t ∷ ts) = cons_bound (given t) (bind_args ps ts)
bind_args (p ∷ ps) [] = bind_default p.default (bind_args ps [])

-- `value == self.defaults.get(key, object())` on a token
pub is_default : Option Arg → Text → Bool
is_default (some (str_arg d)) t = text_eq t d
is_default _ t = false

-- `except ValueError: raise MpdArgError`
unfoldable pub incorrect_arguments {ℓ} : {A : Type ℓ} → Outcome A → Outcome A
incorrect_arguments (raised value_error) =
    raised (ack (mpd_error arg_error (codes "incorrect arguments") none))
incorrect_arguments r = r

pub validate : Option (Text → Outcome Arg) → Text → Outcome Arg
unfolding incorrect_arguments
validate none t = ok (str_arg t)
validate (some validator) t = incorrect_arguments (validator t)

pub convert_arg : Param → Bound → Outcome Arg
unfolding validate is_default
convert_arg p (defaulted a) = ok a
convert_arg p (given t) = if is_default p.default t then ok (str_arg t) else validate p.validator t

-- The loop over `callargs`: the first argument that is refused ends it.
pub convert_args : List Param → List Bound → Outcome (List Arg)
unfolding convert_arg
convert_args (p ∷ ps) (b ∷ bs) =
    Outcome.◌>>=◌ (convert_arg p b)
      (λ a. Outcome.◌>>=◌ (convert_args ps bs) (λ rest. ok (a ∷ rest)))
convert_args _ _ = ok []

str_args : List Text → List Arg
str_args [] = []
str_args (t ∷ ts) = str_arg t ∷ str_args ts

pub wrong_number : Text → Ack
wrong_number name =
    mpd_error arg_error (codes "wrong number of arguments for \"" ++ name ++ codes "\"") none

pub bound_args : Text → List Param → Option (List Bound) → Outcome (List Arg)
unfolding wrong_number convert_args
bound_args name ps none = raised (ack (wrong_number name))
bound_args name ps (some bs) = convert_args ps bs

-- The arguments that `Handler.__call__` hands to the function.
pub call_args : Text → Spec → List Text → Outcome (List Arg)
unfolding str_args bound_args bind_args
call_args name varargs tokens = ok (str_args tokens)
call_args name (positional ps) tokens = bound_args name ps (bind_args ps tokens)

module _ {W : Type 0} where
  -- `Handler.__call__`
  unfoldable pub call_handler : Handler W → List Text → M W Result
  unfolding call_args
  call_handler h tokens = do values ← lift (call_args h.name h.spec tokens); h.func values

  -- `self.handlers.get(name)`
  unfoldable pub find_handler : Text → List (Handler W) → Option (Handler W)
  find_handler name [] = none
  find_handler name (h ∷ hs) = if text_eq h.name name then some h else find_handler name hs

  -- `Commands.add`
  unfoldable pub add : Handler W → List (Handler W) → Outcome (List (Handler W))
  unfolding find_handler
  add h hs = elim (find_handler h.name hs) [
    | none ↦ ok (hs ++ h ∷ [])
    | some _ ↦ raised value_error
  ]

  unfoldable pub call_found : Text → Option (Handler W) → List Text → M W Result
  unfolding call_handler
  call_found command none tokens = throw (mpd_unknown_command_error command)
  call_found command (some h) tokens = call_handler h tokens

  -- `Commands.call`
  unfoldable pub call : List (Handler W) → List Text → M W Result
  unfolding call_found find_handler
  call handlers [] = throw mpd_no_command_error
  call handlers (command ∷ tokens) = call_found command (find_handler command handlers) tokens
