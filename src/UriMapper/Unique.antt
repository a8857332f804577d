-- ===== src/UriMapper/Unique.antt =====
-- The loop of `_create_unique_name` in src/mopidy_mpd/uri_mapper.py, round by round.
use mopidy_mpd.Prelude.{
  ℕ, zero, suc, ◌+◌, Text, ◌≡◌, refl, ap, ◌∙◌, true, false, none, some, List, ◌⊎◌, inl, inr,
  text_eq, text_eq→eq, text_eq_refl, get, Option-cases, Bool-cases,
}
use mopidy_mpd.Outcome.{Outcome, ok, raised, diverged}
use mopidy_mpd.UriMapper.{Uri, uri_eq, numbered, next_unique}

pub uri_eq→eq : (u v : Uri) → uri_eq u v ≡ true → u ≡ v
unfolding uri_eq
uri_eq→eq none none h = refl
uri_eq→eq none (some b) h = cc
uri_eq→eq (some a) none h = cc
uri_eq→eq (some a) (some b) h = ap some (text_eq→eq a b h)

pub uri_eq_refl : (u : Uri) → uri_eq u u ≡ true
unfolding uri_eq
uri_eq_refl none = refl
uri_eq_refl (some a) = text_eq_refl a

module _ (stripped : Text) (i : ℕ) (uri : Uri) (names : List (Text × Uri)) (name : Text)
    (fuel : ℕ) where
  pub next_free :
      get text_eq name names ≡ none → next_unique (suc fuel) stripped i uri names name ≡ ok name
  unfolding next_unique
  next_free h = rw (h, next_unique)

  pub next_same :
      get text_eq name names ≡ some uri → next_unique (suc fuel) stripped i uri names name ≡ ok name
  unfolding next_unique
  next_same h = rw (h, next_unique, uri_eq_refl uri)

  pub next_other :
      (u : Uri)
      → get text_eq name names ≡ some u
      → uri_eq u uri ≡ false
      → next_unique (suc fuel) stripped i uri names name
        ≡ next_unique fuel stripped (i + 1) uri names (numbered stripped i)
  unfolding next_unique
  next_other u h e = rw (h, next_unique, e)

-- The ways in which a round goes.
pub data Round (uri : Uri) (names : List (Text × Uri)) (name : Text) : Type 0 where
  free : get text_eq name names ≡ none → Round uri names name
  same : get text_eq name names ≡ some uri → Round uri names name
  other : (u : Uri) → get text_eq name names ≡ some u → uri_eq u uri ≡ false → Round uri names name

pub round : (uri : Uri) (names : List (Text × Uri)) (name : Text) → Round uri names name
round uri names name = elim (Option-cases (get text_eq name names)) [
  | inl e ↦ free e
  | inr (u, e) ↦ elim (Bool-cases (uri_eq u uri)) [
    | inl same_uri ↦ same (e ∙ ap some (uri_eq→eq u uri same_uri))
    | inr differ ↦ other u e differ
  ]
]

-- A name that is free, or that stands for the same URI.
abbrev pub Fits : Uri → List (Text × Uri) → Text → Type 0
Fits uri names n = (get text_eq n names ≡ none) ⊎ (get text_eq n names ≡ some uri)

abbrev pub AllOk : (Text → Type 0) → Outcome Text → Type 0
AllOk P (ok n) = P n
AllOk P (raised e) = ⊥
AllOk P diverged = Unit

pub next_unique-Fits :
    (fuel : ℕ) (stripped : Text) (i : ℕ) (uri : Uri) (names : List (Text × Uri)) (name : Text)
    → AllOk (Fits uri names) (next_unique fuel stripped i uri names name)
unfolding next_unique
next_unique-Fits zero stripped i uri names name = tt
next_unique-Fits (suc fuel) stripped i uri names name = elim (round uri names name) [
  | free e ↦ rw (next_free stripped i uri names name fuel e) (inl e)
  | same e ↦ rw (next_same stripped i uri names name fuel e) (inr e)
  | other u e differ ↦
      rw (next_other stripped i uri names name fuel u e differ)
        (next_unique-Fits fuel stripped (i + 1) uri names (numbered stripped i))
]
