-- ===== src/UriMapper/Back.antt =====
-- The two dictionaries of src/mopidy_mpd/uri_mapper.py that playlists are found with: from a URI to its
-- name and back.
use mopidy_mpd.Prelude.{
  Text, codes, ◌≡◌, refl, sym, ap, ◌∙◌, subst, Bool, true, false, Option, none, some, List, [], ◌∷◌,
  ◌⊎◌, inl, inr, text_eq, get, put, get-put, Bool-cases, Option-cases,
}
use mopidy_mpd.Outcome.{Outcome, ok, raised, diverged, other_error, ◌>>=◌}
use mopidy_mpd.UriMapper.{
  Uri, uri_eq, UriMapper, register, insert, PlaylistRef, playlist_name, insert_playlist,
  insert_playlists, refresh_with, refresh_playlists_mapping, playlist_uri_from_name, named,
  playlist_name_from_uri,
}
use mopidy_mpd.UriMapper.Unique.{Fits, uri_eq→eq}
use mopidy_mpd.UriMapper.Names.{insert-total, insert-Inserted, create_unique_name-Fits, put-Extends}

-- What is found after an entry was written: it, or what was found before.
get-put_cases :
    (v u : Uri) (n x : Text) (d : List (Uri × Text))
    → get uri_eq u (put uri_eq v n d) ≡ some x
    → ((v ≡ u) × (n ≡ x)) ⊎ (get uri_eq u d ≡ some x)
unfolding get put
get-put_cases v u n x [] h = elim (Bool-cases (uri_eq v u)) [
  | inl e ↦ inl (uri_eq→eq v u e, cc (rw e at h))
  | inr e ↦ absurd (cc (rw e at h))
]
get-put_cases v u n x ((j, w) ∷ d) h = elim (Bool-cases (uri_eq j v)) [
  | inl e ↦ elim (Bool-cases (uri_eq j u)) [
    | inl e' ↦ inl (sym (uri_eq→eq j v e) ∙ uri_eq→eq j u e', cc (rw (e, e') at h))
    | inr e' ↦ inr (rw e' (rw (e, e') at h))
  ]
  | inr e ↦ elim (Bool-cases (uri_eq j u)) [
    | inl e' ↦ inr (rw e' (rw (e, e') at h))
    | inr e' ↦ rw e' (get-put_cases v u n x d (rw (e, e') at h))
  ]
]

-- Each URI of a playlist has a name that stands for it.
abbrev pub Consistent : UriMapper → Type 0
Consistent m =
    (u : Uri) (n : Text) → get uri_eq u m.playlist_names ≡ some n → get text_eq n m.names ≡ some u

register-Consistent :
    (playlist : Bool) (uri : Uri) (n : Text) (m : UriMapper)
    → Fits uri m.names n
    → Consistent m
    → Consistent (register playlist uri n m)
unfolding register
register-Consistent false uri n m fits h u name found =
    put-Extends n uri m.names fits name u (h u name found)
register-Consistent true uri n m fits h u name found =
    elim (get-put_cases uri u n name m.playlist_names found) [
      | inl (same, at_name) ↦
          ap (λ (t : Text). get text_eq t (put text_eq n uri m.names)) (sym at_name)
          ∙ get-put n uri m.names
          ∙ ap (λ (v : Uri). some v) same
      | inr before ↦ put-Extends n uri m.names fits name u (h u name before)
    ]

-- insert gives a name and keeps the dictionaries consistent.
insert-Consistent :
    (name : Text) (uri : Uri) (playlist : Bool) (m : UriMapper)
    → Consistent m
    → (n : Text) × (m' : UriMapper) × (insert name uri playlist m ≡ ok (n, m')) × Consistent m'
insert-Consistent name uri playlist m h =
    let (n, e) = insert-total name uri playlist m in
    let done = insert-Inserted name uri playlist m n (register playlist uri n m) e in
    (
      n,
      register playlist uri n m,
      e,
      register-Consistent playlist uri n m (create_unique_name-Fits name uri m n done.unique) h,
    )

-- The call returns, and its mapper is consistent.
abbrev Kept : Outcome UriMapper → Type 0
Kept (ok m) = Consistent m
Kept (raised e) = ⊥
Kept diverged = ⊥

insert_playlist-Kept :
    (name : Option Text) (uri : Uri) (m : UriMapper)
    → Consistent m
    → Kept (insert_playlist name uri m)
unfolding insert_playlist
insert_playlist-Kept none uri m h = h
insert_playlist-Kept (some []) uri m h = h
insert_playlist-Kept (some (c ∷ name)) uri m h =
    let (n, m', e, kept) = insert-Consistent (playlist_name (c ∷ name)) uri true m h in rw e kept

insert_playlists-Kept :
    (refs : List PlaylistRef) (m : UriMapper) → Consistent m → Kept (insert_playlists refs m)
unfolding insert_playlists
insert_playlists-Kept [] m h = h
insert_playlists-Kept (ref ∷ refs) m h =
    step (insert_playlist ref.name ref.uri m) (insert_playlist-Kept ref.name ref.uri m h)
      (insert_playlists-Kept refs)
  where
    step :
        (o : Outcome UriMapper)
        → Kept o
        → ((m' : UriMapper) → Consistent m' → Kept (insert_playlists refs m'))
        → Kept (o >>= insert_playlists refs)
    step (ok m') k rest = rest m' k
    step (raised e) k rest = k
    step diverged k rest = k

refresh_playlists_mapping-Kept : (m : UriMapper) → Consistent m → Kept (refresh_playlists_mapping m)
unfolding refresh_playlists_mapping refresh_with
refresh_playlists_mapping-Kept m h = refreshed m.playlists
  where
    refreshed : (p : Option (List PlaylistRef)) → Kept (refresh_with p m)
    refreshed none = h
    refreshed (some refs) = insert_playlists-Kept refs m h

-- The mappers that a session comes to: from the empty one by insert, and by refreshing from whatever
-- playlists the core lists at that time.
pub data Reached : UriMapper → Type 0 where
  fresh :
      (p : Option (List PlaylistRef))
      → Reached (record { playlists = p; names = []; browse_names = []; playlist_names = [] })
  inserted :
      (m : UriMapper) (name : Text) (uri : Uri) (playlist : Bool) (n : Text) (m' : UriMapper)
      → Reached m
      → insert name uri playlist m ≡ ok (n, m')
      → Reached m'
  relisted :
      (m : UriMapper) (p : Option (List PlaylistRef))
      → Reached m
      → Reached (record m { playlists = p })
  refreshed : (m m' : UriMapper) → Reached m → refresh_playlists_mapping m ≡ ok m' → Reached m'

Reached-Consistent : (m : UriMapper) → Reached m → Consistent m
unfolding get
Reached-Consistent _ (fresh p) = λ u n h. absurd (cc h)
Reached-Consistent _ (inserted m name uri playlist n m' r e) =
    let (n', m2, e', kept) = insert-Consistent name uri playlist m (Reached-Consistent m r) in
    subst Consistent {x = m2} {y = m'} (cc (sym e' ∙ e)) kept
Reached-Consistent _ (relisted m p r) = Reached-Consistent m r
Reached-Consistent _ (refreshed m m' r e) =
    subst Kept e (refresh_playlists_mapping-Kept m (Reached-Consistent m r))

-- The name is known, with the URI; or the URI is one that the core does not list.
abbrev pub Known : Uri → Outcome (Text × UriMapper) → Type 0
Known uri (ok (n, m)) = get text_eq n m.names ≡ some uri
Known uri (raised e) = e ≡ other_error (codes "KeyError")
Known uri diverged = ⊥

-- The name leads back to the URI, with no look at the playlists of the core; or the URI is one that
-- the core does not list.
abbrev pub ReadsBack : Uri → Outcome (Text × UriMapper) → Type 0
ReadsBack uri (ok (n, m)) = playlist_uri_from_name n m ≡ ok (uri, m)
ReadsBack uri (raised e) = e ≡ other_error (codes "KeyError")
ReadsBack uri diverged = ⊥

pub Known-ReadsBack : (uri : Uri) (o : Outcome (Text × UriMapper)) → Known uri o → ReadsBack uri o
unfolding playlist_uri_from_name
Known-ReadsBack uri (ok (n, m)) known = rw (known, playlist_uri_from_name) refl
Known-ReadsBack uri (raised e) known = known
Known-ReadsBack uri diverged known = known

named-Known : (uri : Uri) (m : UriMapper) → Consistent m → Known uri (named uri m)
unfolding named
named-Known uri m h = elim (Option-cases (get uri_eq uri m.playlist_names)) [
  | inl e ↦ rw (e, named, Known) refl
  | inr (n, e) ↦ rw (e, named, Known) (h uri n e)
]

pub playlist_name_from_uri-Known :
    (uri : Uri) (m : UriMapper) → Reached m → Known uri (playlist_name_from_uri uri m)
unfolding playlist_name_from_uri
playlist_name_from_uri-Known uri m r =
    let h = Reached-Consistent m r in
    elim (Option-cases (get uri_eq uri m.playlist_names)) [
      | inr (n, e) ↦ rw (e, playlist_name_from_uri, Known) (h uri n e)
      | inl e ↦
          rw (e, playlist_name_from_uri, Known)
            (step (refresh_playlists_mapping m) (refresh_playlists_mapping-Kept m h))
    ]
  where
    step : (o : Outcome UriMapper) → Kept o → Known uri (o >>= named uri)
    step (ok m') k = named-Known uri m' k
    step (raised e) k = absurd k
    step diverged k = absurd k

-- On every mapper that insert and refreshes from the playlists of the core lead to,
-- playlist_name_from_uri returns, or raises a KeyError, and a name that it returns leads back to
-- the URI: playlist_uri_from_name gives that URI and changes nothing.
pub playlist_name_from_uri-ReadsBack :
    (uri : Uri) (m : UriMapper) → Reached m → ReadsBack uri (playlist_name_from_uri uri m)
playlist_name_from_uri-ReadsBack uri m r =
    Known-ReadsBack uri (playlist_name_from_uri uri m) (playlist_name_from_uri-Known uri m r)
