-- ===== src/Prelude/Sets.antt =====
-- Python's `set[str]` as a list, `contains` for `in`. The order of the elements is that in which they
-- were added; Python leaves it open.
use mathlib.Core.Path.{◌≡◌, refl}
use mathlib.Core.Bool.{Bool, true, not, ◌&&◌, ◌||◌}
use mathlib.Core.List.{List, [], ◌∷◌, ◌++◌}
use native.Mathlib.Omega.{arith}
use mopidy_mpd.Prelude.Tests.{if◌then◌else◌}
use mopidy_mpd.Prelude.Texts.{Text, text_eq, text_eq_iff, contains}

-- `xs.add(x)`
unfoldable pub set_add : List Text → Text → List Text
unfolding contains
set_add xs x = if contains xs x then xs else xs ++ x ∷ []

-- `xs.update(ys)`
unfoldable pub set_update : List Text → List Text → List Text
unfolding set_add
set_update xs [] = xs
set_update xs (y ∷ ys) = set_update (set_add xs y) ys

-- `xs.intersection(ys)`
unfoldable pub set_intersection : List Text → List Text → List Text
unfolding contains
set_intersection [] ys = []
set_intersection (x ∷ xs) ys =
    let rest = set_intersection xs ys in if contains ys x then x ∷ rest else rest

-- `xs.difference_update(ys)`
unfoldable pub set_difference : List Text → List Text → List Text
unfolding contains
set_difference [] ys = []
set_difference (x ∷ xs) ys =
    let rest = set_difference xs ys in if contains ys x then rest else x ∷ rest

-- `xs.issubset(ys)`
unfoldable pub is_subset : List Text → List Text → Bool
unfolding contains
is_subset [] ys = true
is_subset (x ∷ xs) ys = contains ys x && is_subset xs ys

pub contains-append :
    (xs ys : List Text) (t : Text) → contains (xs ++ ys) t ≡ (contains xs t || contains ys t)
unfolding contains
contains-append [] ys t = refl
contains-append (x ∷ xs) ys t = ground (arith, contains-append xs ys t)

pub contains-set_add :
    (xs : List Text) (x t : Text) → contains (set_add xs x) t ≡ (contains xs t || text_eq x t)
unfolding set_add contains
contains-set_add xs x t = ground (arith, contains-append xs (x ∷ []) t, text_eq_iff x t)

pub contains-set_update :
    (xs ys : List Text) (t : Text)
    → contains (set_update xs ys) t ≡ (contains xs t || contains ys t)
unfolding set_update contains
contains-set_update xs [] t = ground arith
contains-set_update xs (y ∷ ys) t =
    ground (arith, contains-set_update (set_add xs y) ys t, contains-set_add xs y t)

pub contains-set_intersection :
    (xs ys : List Text) (t : Text)
    → contains (set_intersection xs ys) t ≡ (contains xs t && contains ys t)
unfolding set_intersection contains
contains-set_intersection [] ys t = refl
contains-set_intersection (x ∷ xs) ys t =
    ground (arith, contains-set_intersection xs ys t, text_eq_iff x t)

pub contains-set_difference :
    (xs ys : List Text) (t : Text)
    → contains (set_difference xs ys) t ≡ (contains xs t && not (contains ys t))
unfolding set_difference contains
contains-set_difference [] ys t = refl
contains-set_difference (x ∷ xs) ys t =
    ground (arith, contains-set_difference xs ys t, text_eq_iff x t)
