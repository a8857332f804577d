-- ===== src/UriMapper/Ends.antt =====
-- The bound of the loop of `_create_unique_name` in src/mopidy_mpd/uri_mapper.py.
use mopidy_mpd.Prelude.{
  ℕ, zero, suc, ◌+◌, ◌≤◌, ◌<◌, Text, codes, ◌≡◌, ◌≢◌, refl, sym, ap, ◌∙◌, some, List, [], ◌∷◌, ◌++◌,
  text_eq, text_eq→eq, show_nat, read_from, read_from-show_nat, get, length, length-append, arith,
  Bool-cases, inl, inr, if◌then◌else◌,
}
use mopidy_mpd.Outcome.{diverged}
use mopidy_mpd.UriMapper.{Uri, numbered, next_unique, strip_name, create_unique_name, UriMapper}
use mopidy_mpd.UriMapper.Unique.{round, free, same, other, next_free, next_same, next_other}

module _ {V : Type 0} (k : Text) where
  without : List (Text × V) → List (Text × V)
  without [] = []
  without ((j, v) ∷ d) = let rest = without d in if text_eq j k then rest else (j, v) ∷ rest

  get-without :
      (i : Text) (d : List (Text × V)) → k ≢ i → get text_eq i (without d) ≡ get text_eq i d
  unfolding get without
  get-without i [] h = refl
  get-without i ((j, v) ∷ d) h = elim (Bool-cases (text_eq j k)) [
    | inr e ↦ rw (e, get-without i d h)
    | inl e ↦ elim (Bool-cases (text_eq j i)) [
      | inl e' ↦ absurd (h (sym (text_eq→eq j k e) ∙ text_eq→eq j i e'))
      | inr e' ↦ rw (e, e', get-without i d h)
    ]
  ]

  without-le : (d : List (Text × V)) → length (without d) ≤ length d
  unfolding without
  without-le [] = omega arith
  without-le ((j, v) ∷ d) = ground (arith, without-le d)

  without-lt :
      (d : List (Text × V)) (v : V) → get text_eq k d ≡ some v → length (without d) < length d
  unfolding get without
  without-lt [] v h = cc
  without-lt ((j, w) ∷ d) v h = elim (Bool-cases (text_eq j k)) [
    | inl e ↦ rw e (omega (arith, without-le d))
    | inr e ↦ rw e (omega (arith, without-lt d v (ground (arith, h, e))))
  ]

all_but_last : Text → Text
all_but_last [] = []
all_but_last (c ∷ []) = []
all_but_last (c ∷ d ∷ s) = c ∷ all_but_last (d ∷ s)

all_but_last-append : (s : Text) (c : ℕ) → all_but_last (s ++ c ∷ []) ≡ s
unfolding all_but_last
all_but_last-append [] c = refl
all_but_last-append (a ∷ []) c = refl
all_but_last-append (a ∷ b ∷ s) c = ap (λ (r : Text). a ∷ r) (all_but_last-append (b ∷ s) c)

append_cancel : (s t u : Text) → s ++ t ≡ s ++ u → t ≡ u
append_cancel [] t u h = h
append_cancel (c ∷ s) t u h = append_cancel s t u (cc h)

numbered_injective : (stripped : Text) (i j : ℕ) → numbered stripped i ≡ numbered stripped j → i ≡ j
unfolding numbered
numbered_injective stripped i j h =
    let tails : show_nat i ++ codes "]" ≡ show_nat j ++ codes "]" =
      append_cancel (codes " [") (show_nat i ++ codes "]") (show_nat j ++ codes "]")
        (append_cancel stripped _ _ h) in
    let digits : show_nat i ≡ show_nat j =
      sym (all_but_last-append (show_nat i) b']')
      ∙ ap all_but_last tails
      ∙ all_but_last-append (show_nat j) b']' in
    sym (read_from-show_nat i) ∙ ap (λ (s : Text). read_from 0 s) digits ∙ read_from-show_nat j

numbered_ne : (stripped : Text) (i : ℕ) → stripped ≢ numbered stripped i
unfolding numbered
numbered_ne stripped i h =
    omega (arith, length-append stripped (codes " [" ++ (show_nat i ++ codes "]")), ap length h)

module _ (stripped : Text) (uri : Uri) (names : List (Text × Uri)) where
  -- `d` holds the names that are still in the way.
  enough :
      (fuel i : ℕ) (name : Text) (d : List (Text × Uri))
      → ((j : ℕ) → i ≤ j → name ≢ numbered stripped j)
      → get text_eq name d ≡ get text_eq name names
      → ((j : ℕ)
          → i ≤ j
          → get text_eq (numbered stripped j) d ≡ get text_eq (numbered stripped j) names)
      → length d < fuel
      → next_unique fuel stripped i uri names name ≢ diverged
  enough zero i name d new now later short = absurd (omega arith)
  enough (suc fuel) i name d new now later short = elim (round uri names name) [
    | free e ↦ rw (next_free stripped i uri names name fuel e) (λ e'. cc)
    | same e ↦ rw (next_same stripped i uri names name fuel e) (λ e'. cc)
    | other u e differ ↦ rw (next_other stripped i uri names name fuel u e differ) (
        enough fuel (i + 1) (numbered stripped i) (without name d)
          (λ j le eq. absurd (omega (arith, numbered_injective stripped i j eq)))
          (get-without name (numbered stripped i) d (new i (omega arith)) ∙ later i (omega arith))
          (λ j le.
            get-without name (numbered stripped j) d (new j (omega arith)) ∙ later j (omega arith))
          (omega (arith, without-lt name d u (now ∙ e))))
  ]

-- The loop of `_create_unique_name` ends on every name, URI and mapper: one round more than there
-- are names is enough.
pub create_unique_name-total :
    (name : Text) (uri : Uri) (m : UriMapper) → create_unique_name name uri m ≢ diverged
unfolding create_unique_name
create_unique_name-total name uri m =
    enough (strip_name name) uri m.names (suc (length m.names)) 2 (strip_name name) m.names
      (λ j _. numbered_ne (strip_name name) j) refl (λ j _. refl) (omega arith)
