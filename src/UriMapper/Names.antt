-- ===== src/UriMapper/Names.antt =====
-- `insert` of src/mopidy_mpd/uri_mapper.py, and the names that are given out.
use mopidy_mpd.Prelude.{
  ℕ, zero, suc, ◌+◌, ◌≤◌, Text, ◌≡◌, ◌≢◌, refl, sym, ap, ◌∙◌, subst, Bool, true, false, some, List,
  [], ◌∷◌, inl, inr, text_eq, text_eq→eq, get, put, get-put, get-put_other, length, arith,
  Bool-cases,
}
use mopidy_mpd.Outcome.{Outcome, Raised, ok, raised, diverged, ◌>>=◌}
use mopidy_mpd.UriMapper.{
  Uri, numbered, next_unique, strip_name, create_unique_name, UriMapper, register, registered,
  insert, uri_from_name,
}
use mopidy_mpd.UriMapper.Unique.{
  Fits, next_unique-Fits, AllOk, round, free, same, other, next_free, next_same, next_other,
}
use mopidy_mpd.UriMapper.Ends.{create_unique_name-total}

-- Every entry of the first dictionary is one of the second.
abbrev pub Extends : List (Text × Uri) → List (Text × Uri) → Type 0
Extends names names' =
    (k : Text) (u : Uri) → get text_eq k names ≡ some u → get text_eq k names' ≡ some u

names-register :
    (playlist : Bool) (uri : Uri) (n : Text) (m : UriMapper)
    → (register playlist uri n m).names ≡ put text_eq n uri m.names
unfolding register
names-register true uri n m = refl
names-register false uri n m = refl

-- What a call of `insert` that returns has done.
pub record Inserted (name : Text) (uri : Uri) (playlist : Bool) (m : UriMapper) (n : Text)
    (m' : UriMapper) : Type 0 where
  pub unique : create_unique_name name uri m ≡ ok n
  pub is_registered : m' ≡ register playlist uri n m

pub insert-Inserted :
    (name : Text) (uri : Uri) (playlist : Bool) (m : UriMapper) (n : Text) (m' : UriMapper)
    → insert name uri playlist m ≡ ok (n, m')
    → Inserted name uri playlist m n m'
unfolding insert
insert-Inserted name uri playlist m n m' h = step (create_unique_name name uri m) refl h
  where
    step :
        (o : Outcome Text)
        → create_unique_name name uri m ≡ o
        → (o >>= registered playlist uri m) ≡ ok (n, m')
        → Inserted name uri playlist m n m'
    step (ok n') e h' = record { unique = e ∙ ap ok (cc h'); is_registered = cc h' }
    step (raised e') e h' = cc
    step diverged e h' = cc

pub create_unique_name-Fits :
    (name : Text) (uri : Uri) (m : UriMapper) (n : Text)
    → create_unique_name name uri m ≡ ok n
    → Fits uri m.names n
unfolding create_unique_name
create_unique_name-Fits name uri m n h =
    subst (AllOk (Fits uri m.names)) h
      (next_unique-Fits (suc (length m.names)) (strip_name name) 2 uri m.names (strip_name name))

create_unique_name-returns :
    (name : Text) (uri : Uri) (m : UriMapper) (e : Raised)
    → create_unique_name name uri m ≢ raised e
unfolding create_unique_name
create_unique_name-returns name uri m e h =
    subst (AllOk (Fits uri m.names)) h
      (next_unique-Fits (suc (length m.names)) (strip_name name) 2 uri m.names (strip_name name))

pub put-Extends :
    (n : Text) (uri : Uri) (names : List (Text × Uri))
    → Fits uri names n
    → Extends names (put text_eq n uri names)
put-Extends n uri names fits k u h = elim (Bool-cases (text_eq n k)) [
  | inr e ↦ get-put_other n uri k names e ∙ h
  | inl e ↦
      let eq = text_eq→eq n k e in
      let at_n : get text_eq n names ≡ some u = ap (λ (t : Text). get text_eq t names) eq ∙ h in
      elim fits [
        | inl empty ↦ absurd (cc (empty, at_n))
        | inr same_uri ↦
            ap (λ (t : Text). get text_eq t (put text_eq n uri names)) (sym eq)
            ∙ get-put n uri names
            ∙ sym same_uri
            ∙ at_n
      ]
]

module _ (name : Text) (uri : Uri) (playlist : Bool) (m : UriMapper) (n : Text)
    (m' : UriMapper) where
  abbrev Inserts : Type 0
  Inserts = insert name uri playlist m ≡ ok (n, m')

  names-put : Inserts → m'.names ≡ put text_eq n uri m.names
  names-put h =
      ap (λ (x : UriMapper). x.names) ((insert-Inserted name uri playlist m n m' h).is_registered)
      ∙ names-register playlist uri n m

  get-inserted : Inserts → get text_eq n m'.names ≡ some uri
  get-inserted h =
      ap (λ (d : List (Text × Uri)). get text_eq n d) (names-put h) ∙ get-put n uri m.names

  -- The name that `insert` returns stands for the URI that was inserted.
  uri_from_name-insert : insert name uri playlist m ≡ ok (n, m') → uri_from_name n m' ≡ uri
  unfolding uri_from_name
  uri_from_name-insert h = rw (get-inserted h, uri_from_name)

  -- A name that is given out keeps its URI, whatever insert is called with.
  pub insert-Extends : insert name uri playlist m ≡ ok (n, m') → Extends m.names m'.names
  insert-Extends h = subst (Extends m.names) (sym (names-put h)) (
      put-Extends n uri m.names
        (create_unique_name-Fits name uri m n (insert-Inserted name uri playlist m n m' h).unique))

length-put : (k : Text) (v : Uri) (d : List (Text × Uri)) → length d ≤ length (put text_eq k v d)
unfolding put
length-put k v [] = omega arith
length-put k v ((j, w) ∷ d) = ground (arith, length-put k v d)

module _ (uri : Uri) (names names' : List (Text × Uri)) (n : Text) where
  -- With more names given out, and the found one among them, the loop comes to the same name.
  again :
      (fuel fuel' : ℕ) (stripped : Text) (i : ℕ) (name : Text)
      → fuel ≤ fuel'
      → Extends names names'
      → get text_eq n names' ≡ some uri
      → next_unique fuel stripped i uri names name ≡ ok n
      → next_unique fuel' stripped i uri names' name ≡ ok n
  unfolding next_unique
  again zero fuel' stripped i name le extends found h = cc
  again (suc fuel) zero stripped i name le extends found h = absurd (omega arith)
  again (suc fuel) (suc fuel') stripped i name le extends found h = elim (round uri names name) [
    | free e ↦ at_name (cc (sym (next_free stripped i uri names name fuel e) ∙ h))
    | same e ↦ at_name (cc (sym (next_same stripped i uri names name fuel e) ∙ h))
    | other u e differ ↦
        next_other stripped i uri names' name fuel' u (extends name u e) differ
        ∙ again fuel fuel' stripped (i + 1) (numbered stripped i) (omega arith) extends found
            (sym (next_other stripped i uri names name fuel u e differ) ∙ h)
  ]
    where
      at_name : name ≡ n → next_unique (suc fuel') stripped i uri names' name ≡ ok n
      at_name eq =
          next_same stripped i uri names' name fuel'
            (ap (λ (t : Text). get text_eq t names') eq ∙ found)
          ∙ ap ok eq

module _ (name : Text) (uri : Uri) (playlist : Bool) (m : UriMapper) (n : Text)
    (m' : UriMapper) where
  -- Inserting the same name and URI again gives the same name, as a playlist or not.
  insert-insert :
      (playlist' : Bool)
      → insert name uri playlist m ≡ ok (n, m')
      → insert name uri playlist' m' ≡ ok (n, register playlist' uri n m')
  unfolding insert create_unique_name
  insert-insert playlist' h =
      let longer : length m.names ≤ length m'.names =
        subst (λ (d : List (Text × Uri)). length m.names ≤ length d)
          (sym (names-put name uri playlist m n m' h)) (length-put n uri m.names) in
      let found =
        again uri m.names m'.names n (suc (length m.names)) (suc (length m'.names))
          (strip_name name) 2 (strip_name name) (omega arith)
          (insert-Extends name uri playlist m n m' h) (get-inserted name uri playlist m n m' h)
          ((insert-Inserted name uri playlist m n m' h).unique) in
      rw found

-- `insert` always returns.
pub insert-total :
    (name : Text) (uri : Uri) (playlist : Bool) (m : UriMapper)
    → (n : Text) × (insert name uri playlist m ≡ ok (n, register playlist uri n m))
unfolding insert
insert-total name uri playlist m =
    step (create_unique_name name uri m) (create_unique_name-total name uri m)
      (create_unique_name-returns name uri m)
  where
    step :
        (o : Outcome Text)
        → o ≢ diverged
        → ((e : Raised) → o ≢ raised e)
        → (n : Text) × ((o >>= registered playlist uri m) ≡ ok (n, register playlist uri n m))
    step (ok n) _ _ = (n, refl)
    step (raised e) _ never = absurd (never e refl)
    step diverged ends _ = absurd (ends refl)
