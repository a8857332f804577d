-- ===== src/CoreCommands/Context/Costs.antt =====
-- What a `browse` of src/mopidy_mpd/context.py may cost on a library, and calls that end.
use mopidy_mpd.Prelude.{
  ℕ, suc, ◌+◌, ◌≤◌, ◌≢◌, refl, Text, Bool, true, false, Option, none, some, List, [], ◌∷◌,
}
use mopidy_mpd.Outcome.{Outcome, ok, raised, diverged}
use mopidy_mpd.CoreCommands.Core.{Ref, Library, UriMap, K, continue}
use mopidy_mpd.CoreCommands.Context.{Pending}

-- A result, if any, with a property.
abbrev pub Yields : {A : Type 0} → (A → Type 0) → Outcome A → Type 0
Yields Q (ok a) = Q a
Yields Q (raised e) = Unit
Yields Q diverged = ⊥

abbrev pub Anything : {A : Type 0} → A → Type 0
Anything a = Unit

module _ {W A B : Type 0} (Q : A → Type 0) (R : B → Type 0) where
  pub Yields-continue :
      (r : Outcome A) (f : A → K W B) (w : W)
      → Yields Q r
      → ((a : A) → Q a → Yields R (f a w).0)
      → Yields R (continue r f w).0
  Yields-continue (ok a) f w h next = next a h
  Yields-continue (raised e) f w h next = tt
  Yields-continue diverged f w h next = absurd h

pub Yields-ends : {A : Type 0} (r : Outcome A) → r ≢ diverged → Yields Anything r
Yields-ends (ok a) h = tt
Yields-ends (raised e) h = tt
Yields-ends diverged h = absurd (h refl)

pub ends-Yields : {A : Type 0} (Q : A → Type 0) (r : Outcome A) → Yields Q r → r ≢ diverged
ends-Yields Q (ok a) h e = absurd (cc e)
ends-Yields Q (raised x) h e = absurd (cc e)
ends-Yields Q diverged h e = h

-- What a directory may still cost: one for itself, and what the weight of its URI allows below it.
abbrev pub entry_cost : (Option Text → ℕ) → Option Text → Option Text → Bool → ℕ
entry_cost weight none uri is_track = 0
entry_cost weight (some name) none is_track = 0
entry_cost weight (some name) (some uri) true = 0
entry_cost weight (some name) (some uri) false = suc (weight (some uri))

unfoldable pub cost : (Option Text → ℕ) → List Ref → ℕ
cost weight [] = 0
cost weight (ref ∷ refs) = entry_cost weight ref.name ref.uri ref.is_track + cost weight refs

unfoldable pub cost_of : (Option Text → ℕ) → Outcome (List Ref) → ℕ
unfolding cost
cost_of weight (ok refs) = cost weight refs
cost_of weight _ = 0

unfoldable pub total : (Option Text → ℕ) → Pending → ℕ
unfolding cost_of
total weight [] = 0
total weight ((path, future) ∷ pending) = suc (cost_of weight future) + total weight pending

-- Every call ends, and each directory weighs more than all it lists.
pub record Finite {W : Type 0} (library : Library W) (uri_map : UriMap W) (weight : Option Text → ℕ)
    : Type 0 where
  pub browse_ends : (uri : Option Text) (w : W) → library.browse uri w ≢ diverged
  pub insert_ends :
      (name : Text) (uri : Option Text) (w : W) → (uri_map.insert name uri w).0 ≢ diverged
  pub known_ends : (name : Text) (w : W) → uri_map.uri_from_name name w ≢ diverged
  pub smaller : (uri : Option Text) (w : W) → cost_of weight (library.browse uri w) ≤ weight uri
