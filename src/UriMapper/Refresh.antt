-- ===== src/UriMapper/Refresh.antt =====
-- `refresh_playlists_mapping`, and the names that go into a line of a response.
use mopidy_mpd.Prelude.{
  ℕ, zero, suc, ◌+◌, Text, codes, ◌≡◌, ◌≢◌, refl, subst, Bool, true, Option, none, some, List, [],
  ◌∷◌, ◌++◌, inl, inr, All, All-append, get, text_eq, show_nat, show_nat-All, IsAsciiDigit, length,
  arith, Option-cases,
}
use mopidy_mpd.Outcome.{Outcome, ok, raised, diverged, ◌>>=◌}
use mopidy_mpd.UriMapper.{
  Uri, numbered, next_unique, strip_name, create_unique_name, UriMapper, register, insert,
  uri_from_name, PlaylistRef, playlist_name, insert_playlist, insert_playlists, refresh_with,
  refresh_playlists_mapping, playlist_uri_from_name,
}
use mopidy_mpd.UriMapper.Unique.{AllOk, round, free, same, other, next_free, next_same, next_other}
use mopidy_mpd.UriMapper.Names.{Extends, insert-Extends, insert-total, insert-Inserted}

-- The call returns, and every name keeps its URI.
abbrev pub Grows : UriMapper → Outcome UriMapper → Type 0
Grows m (ok m') = Extends m.names m'.names
Grows m (raised e) = ⊥
Grows m diverged = ⊥

insert_playlist-Grows :
    (name : Option Text) (uri : Uri) (m : UriMapper) → Grows m (insert_playlist name uri m)
unfolding insert_playlist
insert_playlist-Grows none uri m = λ k u h. h
insert_playlist-Grows (some []) uri m = λ k u h. h
insert_playlist-Grows (some (c ∷ name)) uri m =
    let (n, e) = insert-total (playlist_name (c ∷ name)) uri true m in
    rw e (insert-Extends (playlist_name (c ∷ name)) uri true m n (register true uri n m) e)

Grows-bind :
    (m : UriMapper) (o : Outcome UriMapper) (f : UriMapper → Outcome UriMapper)
    → Grows m o
    → ((m' : UriMapper) → Grows m' (f m'))
    → Grows m (o >>= f)
Grows-bind m (ok m') f h k = step (f m') (k m')
  where
    step : (o : Outcome UriMapper) → Grows m' o → Grows m o
    step (ok m'') g = λ i u e. g i u (h i u e)
    step (raised e) g = g
    step diverged g = g
Grows-bind m (raised e) f h k = h
Grows-bind m diverged f h k = h

insert_playlists-Grows :
    (refs : List PlaylistRef) (m : UriMapper) → Grows m (insert_playlists refs m)
unfolding insert_playlists
insert_playlists-Grows [] m = λ k u h. h
insert_playlists-Grows (ref ∷ refs) m =
    Grows-bind m (insert_playlist ref.name ref.uri m) (insert_playlists refs)
      (insert_playlist-Grows ref.name ref.uri m) (insert_playlists-Grows refs)

refresh_with-Grows : (p : Option (List PlaylistRef)) (m : UriMapper) → Grows m (refresh_with p m)
unfolding refresh_with
refresh_with-Grows none m = λ k u h. h
refresh_with-Grows (some refs) m = insert_playlists-Grows refs m

-- `refresh_playlists_mapping` returns, and every name that was given out before keeps its URI.
pub refresh_playlists_mapping-Grows : (m : UriMapper) → Grows m (refresh_playlists_mapping m)
unfolding refresh_playlists_mapping
refresh_playlists_mapping-Grows m = refresh_with-Grows m.playlists m

-- The call returns the URI of the name in the mapper that it leaves, and every name keeps its URI.
abbrev Looks : Text → UriMapper → Outcome (Uri × UriMapper) → Type 0
Looks name m (ok (uri, m')) = Extends m.names m'.names × (uri ≡ uri_from_name name m')
Looks name m (raised e) = ⊥
Looks name m diverged = ⊥

-- `playlist_uri_from_name` returns the URI of the name in the mapper that it leaves, in which every
-- name keeps its URI.
playlist_uri_from_name-Looks :
    (name : Text) (m : UriMapper) → Looks name m (playlist_uri_from_name name m)
unfolding playlist_uri_from_name
playlist_uri_from_name-Looks name m = elim (Option-cases (get text_eq name m.names)) [
  | inr (uri, e) ↦ rw (e, playlist_uri_from_name) ((λ k u h. h), rw (e, uri_from_name))
  | inl e ↦
      rw (e, playlist_uri_from_name)
        (step (refresh_playlists_mapping m) (refresh_playlists_mapping-Grows m))
]
  where
    step :
        (o : Outcome UriMapper)
        → Grows m o
        → Looks name m (
            ◌>>=◌ {B = Uri × UriMapper} o
              (λ refreshed. ok (uri_from_name name refreshed, refreshed)))
    step (ok m') g = (g, refl)
    step (raised e) g = g
    step diverged g = g

-- A name that breaks no line.
abbrev IsOneLine : Text → Type 0
IsOneLine = All (λ c. (c ≢ 10) × (c ≢ 13))

strip_name-IsOneLine : (name : Text) → IsOneLine (strip_name name)
unfolding strip_name
strip_name-IsOneLine [] = tt
strip_name-IsOneLine (c ∷ name) = (ground arith, strip_name-IsOneLine name)

digits-IsOneLine : (s : Text) → All IsAsciiDigit s → IsOneLine s
digits-IsOneLine [] _ = tt
digits-IsOneLine (c ∷ s) (h, hs) = (ground (arith, h), digits-IsOneLine s hs)

numbered-IsOneLine :
    (stripped : Text) (i : ℕ) → IsOneLine stripped → IsOneLine (numbered stripped i)
unfolding numbered
numbered-IsOneLine stripped i h =
    All-append (λ c. (c ≢ 10) × (c ≢ 13)) stripped (codes " [" ++ (show_nat i ++ codes "]")) h
      (
        ((λ e. cc), (λ e. cc)),
        (
          ((λ e. cc), (λ e. cc)),
          All-append (λ c. (c ≢ 10) × (c ≢ 13)) (show_nat i) (codes "]")
              (digits-IsOneLine (show_nat i) (show_nat-All i)) (((λ e. cc), (λ e. cc)), tt),
        ),
      )

next_unique-IsOneLine :
    (fuel : ℕ) (stripped : Text) (i : ℕ) (uri : Uri) (names : List (Text × Uri)) (name : Text)
    → IsOneLine stripped
    → IsOneLine name
    → AllOk IsOneLine (next_unique fuel stripped i uri names name)
unfolding next_unique
next_unique-IsOneLine zero stripped i uri names name _ _ = tt
next_unique-IsOneLine (suc fuel) stripped i uri names name hs hn = elim (round uri names name) [
  | free e ↦ rw (next_free stripped i uri names name fuel e) hn
  | same e ↦ rw (next_same stripped i uri names name fuel e) hn
  | other u e differ ↦ rw (next_other stripped i uri names name fuel u e differ) (
      next_unique-IsOneLine fuel stripped (i + 1) uri names (numbered stripped i) hs
        (numbered-IsOneLine stripped i hs))
]

-- The name that `insert` returns has no line break in it.
insert-IsOneLine :
    (name : Text) (uri : Uri) (playlist : Bool) (m : UriMapper) (n : Text) (m' : UriMapper)
    → insert name uri playlist m ≡ ok (n, m')
    → IsOneLine n
unfolding create_unique_name
insert-IsOneLine name uri playlist m n m' h =
    subst (AllOk IsOneLine) ((insert-Inserted name uri playlist m n m' h).unique) (
      next_unique-IsOneLine (suc (length m.names)) (strip_name name) 2 uri m.names (strip_name name)
        (strip_name-IsOneLine name) (strip_name-IsOneLine name))
