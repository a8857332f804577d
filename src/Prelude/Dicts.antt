-- ===== src/Prelude/Dicts.antt =====
-- Dictionaries as lists of their entries, in the order in which the keys came.
use mathlib.Core.Path.{◌≡◌}
use mathlib.Core.Bool.{Bool, false}
use mathlib.Core.Option.{Option, none, some}
use mathlib.Core.List.{List, [], ◌∷◌}
use native.Mathlib.Omega.{arith}
use mopidy_mpd.Prelude.Tests.{if◌then◌else◌}
use mopidy_mpd.Prelude.Texts.{Text, text_eq, text_eq_iff, text_eq_refl}

module _ {K V : Type 0} (eq : K → K → Bool) where
  -- `d.get(key)`
  unfoldable pub get : K → List (K × V) → Option V
  get k [] = none
  get k ((j, v) ∷ d) = let rest = get k d in if eq j k then some v else rest

  -- `d[key] = value`
  unfoldable pub put : K → V → List (K × V) → List (K × V)
  put k v [] = (k, v) ∷ []
  put k v ((j, w) ∷ d) = let rest = put k v d in if eq j k then (j, v) ∷ d else (j, w) ∷ rest

module _ {V : Type 0} where
  pub get-put :
      (k : Text) (v : V) (d : List (Text × V)) → get text_eq k (put text_eq k v d) ≡ some v
  unfolding get put
  get-put k v [] = ground (arith, text_eq_refl k)
  get-put k v ((j, w) ∷ d) = ground (arith, get-put k v d)

  pub get-put_other :
      (k : Text) (v : V) (i : Text) (d : List (Text × V))
      → text_eq k i ≡ false
      → get text_eq i (put text_eq k v d) ≡ get text_eq i d
  unfolding get put
  get-put_other k v i [] h = ground arith
  get-put_other k v i ((j, w) ∷ d) h = ground (arith, get-put_other k v i d h, text_eq_iff j k)
