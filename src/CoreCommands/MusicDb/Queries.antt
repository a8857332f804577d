-- ===== src/CoreCommands/MusicDb/Queries.antt =====
-- src/mopidy_mpd/protocol/music_db.py: what a query is made of.
use mopidy_mpd.Prelude.{
  ◌≡◌, refl, sym, ap, ◌∙◌, Text, codes, Bool, true, false, none, some, List, [], ◌∷◌, ◌++◌,
  append_assoc, append-nil, if◌then◌else◌, is_empty, text_eq, text_eq_refl, text_eq→eq, get,
  Bool-cases, Option-cases, inl, inr,
}
use mopidy_mpd.Exceptions.{mpd_error, arg_error}
use mopidy_mpd.Outcome.{ok, raised, ack}
use mopidy_mpd.Convert.Signed.{strip}
use mopidy_mpd.CoreCommands.Core.{Query}
use mopidy_mpd.CoreCommands.MusicDb.{
  search_mapping, lowered, append_value, add_value, query_from, query_for_search,
}

-- A name and a value, again and again.
abbrev pub spelled : List (Text × Text) → List Text
spelled [] = []
spelled ((name, value) ∷ pairs) = name ∷ value ∷ spelled pairs

-- What a query looks for in a field.
unfoldable pub values_of : Text → Query → List Text
unfolding text_eq
values_of field [] = []
values_of field ((key, values) ∷ query) =
    let rest = values_of field query in if text_eq key field then values else rest

-- The names that mean the field.
unfoldable pub means : Text → Text → Bool
unfolding search_mapping lowered get text_eq
means field name = elim (get text_eq (lowered name) search_mapping) [
  | none ↦ false
  | some known ↦ text_eq known field
]

-- The values under the names that mean the field, in order, but for those of spaces only.
unfoldable pub wanted : Text → List (Text × Text) → List Text
unfolding means strip
wanted field [] = []
wanted field ((name, value) ∷ pairs) =
    let rest = wanted field pairs in
    if means field name then (if is_empty (strip value) then rest else value ∷ rest) else rest

-- A key that is one text is no other.
other_key :
    (k key field : Text)
    → text_eq k key ≡ false
    → text_eq k field ≡ true
    → text_eq key field ≡ false
other_key k key field apart same = elim (Bool-cases (text_eq key field)) [
  | inr e ↦ e
  | inl e ↦
      let one : k ≡ key = text_eq→eq k field same ∙ sym (text_eq→eq key field e) in
      absurd (cc (apart, ap (λ (t : Text). text_eq t key) one, text_eq_refl key))
]

if_nil :
    (b : Bool) (values rest : List Text) (value : Text)
    → (if b then values ++ (value ∷ []) else rest)
      ≡ (if b then values else rest) ++ (if b then value ∷ [] else [])
if_nil true values rest value = refl
if_nil false values rest value = sym (append-nil rest)

values_of-append_value :
    (field key value : Text) (query : Query)
    → values_of field (append_value key value query)
      ≡ values_of field query ++ (if text_eq key field then value ∷ [] else [])
unfolding values_of append_value
values_of-append_value field key value [] = refl
values_of-append_value field key value ((k, values) ∷ query) = elim (Bool-cases (text_eq k key)) [
  | inl same ↦
      let one : k ≡ key = text_eq→eq k key same in
      rw same (
        if_nil (text_eq k field) values (values_of field query) value
        ∙ ap
            (λ (t : Text).
              (if text_eq k field then values else values_of field query)
              ++ (if text_eq t field then value ∷ [] else []))
            one)
  | inr apart ↦ rw apart (elim (Bool-cases (text_eq k field)) [
    | inl at ↦ rw (at, other_key k key field apart at) (sym (append-nil values))
    | inr off ↦ rw off (values_of-append_value field key value query)
  ])
]

-- What one name and value add for a field.
abbrev added : Bool → Bool → Text → List Text
added false blank value = []
added true true value = []
added true false value = value ∷ []

added_blank : (b : Bool) (value : Text) → added b true value ≡ []
added_blank true value = refl
added_blank false value = refl

added_full : (b : Bool) (value : Text) → (if b then value ∷ [] else []) ≡ added b false value
added_full true value = refl
added_full false value = refl

added_before :
    (b blank : Bool) (value : Text) (rest : List Text)
    → (if b then (if blank then rest else value ∷ rest) else rest) ≡ added b blank value ++ rest
added_before true true value rest = refl
added_before true false value rest = refl
added_before false blank value rest = refl

values_of-add_value :
    (field key value : Text) (query : Query)
    → values_of field (add_value key value query)
      ≡ values_of field query ++ added (text_eq key field) (is_empty (strip value)) value
unfolding add_value
values_of-add_value field key value query = elim (Bool-cases (is_empty (strip value))) [
  | inl blank ↦
      rw (blank, added_blank (text_eq key field) value) (sym (append-nil (values_of field query)))
  | inr full ↦ rw full (
      values_of-append_value field key value query
      ∙ ap (λ (t : List Text). values_of field query ++ t) (added_full (text_eq key field) value))
]

wanted-step :
    (field name value : Text) (pairs : List (Text × Text))
    → wanted field ((name, value) ∷ pairs)
      ≡ added (means field name) (is_empty (strip value)) value ++ wanted field pairs
unfolding wanted
wanted-step field name value pairs =
    added_before (means field name) (is_empty (strip value)) value (wanted field pairs)

means-known :
    (field name key : Text)
    → get text_eq (lowered name) search_mapping ≡ some key
    → means field name ≡ text_eq key field
unfolding means
means-known field name key e = rw (e, means) refl

query_from-known :
    (start : Query) (name value key : Text) (parameters : List Text)
    → get text_eq (lowered name) search_mapping ≡ some key
    → query_from start (name ∷ value ∷ parameters)
      ≡ query_from (add_value key value start) parameters
unfolding query_from
query_from-known start name value key parameters e = rw (e, query_from) refl

query_from-unknown :
    (start : Query) (name value : Text) (parameters : List Text)
    → get text_eq (lowered name) search_mapping ≡ none
    → query_from start (name ∷ value ∷ parameters)
      ≡ raised (ack (mpd_error arg_error (codes "incorrect arguments") none))
unfolding query_from
query_from-unknown start name value parameters e = rw (e, query_from) refl

query_from-wanted :
    (pairs : List (Text × Text)) (start query : Query) (field : Text)
    → query_from start (spelled pairs) ≡ ok query
    → values_of field query ≡ values_of field start ++ wanted field pairs
unfolding query_from wanted
query_from-wanted [] start query field h =
    let same : start ≡ query = cc h in
    ap (values_of field) (sym same) ∙ sym (append-nil (values_of field start))
query_from-wanted ((name, value) ∷ pairs) start query field h =
    elim (Option-cases (get text_eq (lowered name) search_mapping)) [
      | inl unknown ↦ absurd (cc (query_from-unknown start name value (spelled pairs) unknown, h))
      | inr (key, known) ↦
          let next : query_from (add_value key value start) (spelled pairs) ≡ ok query =
            sym (query_from-known start name value key (spelled pairs) known) ∙ h in
          query_from-wanted pairs (add_value key value start) query field next
          ∙ ap (λ (t : List Text). t ++ wanted field pairs)
              (values_of-add_value field key value start)
          ∙ append_assoc (values_of field start)
              (added (text_eq key field) (is_empty (strip value)) value) (wanted field pairs)
          ∙ ap (λ (t : List Text). values_of field start ++ t)
              (ap (λ (b : Bool). added b (is_empty (strip value)) value ++ wanted field pairs)
                  (sym (means-known field name key known))
                ∙ sym (wanted-step field name value pairs))
    ]

-- Where _query_for_search accepts names and values, its query looks in each field for exactly the
-- values under the names that mean the field, in their order, but for those of spaces only.
pub query_for_search-wanted :
    (pairs : List (Text × Text)) (query : Query) (field : Text)
    → query_for_search (spelled pairs) ≡ ok query
    → values_of field query ≡ wanted field pairs
unfolding query_for_search values_of
query_for_search-wanted pairs query field h = query_from-wanted pairs [] query field h
