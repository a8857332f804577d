-- ===== src/UriMapper.antt =====
-- src/mopidy_mpd/uri_mapper.py: the names under which MPD clients see URIs.
pub mod Unique
pub mod Ends
pub mod Names
pub mod Refresh
pub mod Back
use mopidy_mpd.Prelude.{
  ℕ, zero, suc, ◌+◌, Text, codes, Bool, true, false, ◌||◌, Option, none, some, List, [], ◌∷◌, ◌++◌,
  ◌==◌, if◌then◌else◌, is_empty, length, map, text_eq, show_nat, get, put,
}
use mopidy_mpd.Outcome.{Outcome, ok, raised, diverged, other_error, ◌>>=◌}

-- `Uri | None`
abbrev pub Uri : Type 0
Uri = Option Text

unfoldable pub uri_eq : Uri → Uri → Bool
uri_eq none none = true
uri_eq (some a) (some b) = text_eq a b
uri_eq _ _ = false

-- A playlist as the core lists it.
pub record PlaylistRef : Type 0 where
  pub name : Option Text
  pub uri : Uri

-- `MpdUriMapper`; `playlists` is what `core.playlists.as_list().get()` gives, where there is a core.
pub record UriMapper : Type 0 where
  pub playlists : Option (List PlaylistRef)
  pub names : List (Text × Uri)
  pub browse_names : List (Uri × Text)
  pub playlist_names : List (Uri × Text)

-- `_invalid_browse_chars.sub(" ", name)`
unfoldable pub strip_name : Text → Text
strip_name = map (λ c. if (c == 10) || (c == 13) then 32 else c)

-- `f"{stripped_name} [{i:d}]"`
unfoldable pub numbered : Text → ℕ → Text
unfolding show_nat
numbered stripped i = stripped ++ (codes " [" ++ (show_nat i ++ codes "]"))

-- The loop of `_create_unique_name`, with a bound on its rounds.
unfoldable pub next_unique : ℕ → Text → ℕ → Uri → List (Text × Uri) → Text → Outcome Text
unfolding get uri_eq numbered
next_unique zero stripped i uri names name = diverged
next_unique (suc fuel) stripped i uri names name = elim (get text_eq name names) [
  | none ↦ ok name
  | some taken ↦
      let next = next_unique fuel stripped (i + 1) uri names (numbered stripped i) in
      if uri_eq taken uri then ok name else next
]

-- `_create_unique_name`: no two rounds try the same name, so some round comes to one that is free.
unfoldable pub create_unique_name : Text → Uri → UriMapper → Outcome Text
unfolding next_unique strip_name
create_unique_name name uri m =
    next_unique (suc (length m.names)) (strip_name name) 2 uri m.names (strip_name name)

unfoldable pub register : Bool → Uri → Text → UriMapper → UriMapper
unfolding put uri_eq
register playlist uri name m =
    if playlist
    then record m {
      names = put text_eq name uri m.names;
      playlist_names = put uri_eq uri name m.playlist_names;
    }
    else record m {
      names = put text_eq name uri m.names;
      browse_names = put uri_eq uri name m.browse_names;
    }

abbrev pub registered : Bool → Uri → UriMapper → Text → Outcome (Text × UriMapper)
registered playlist uri m unique = ok (unique, register playlist uri unique m)

-- `insert`: the name, and the mapper behind it
unfoldable pub insert : Text → Uri → Bool → UriMapper → Outcome (Text × UriMapper)
unfolding create_unique_name register
insert name uri playlist m = create_unique_name name uri m >>= registered playlist uri m

-- `uri_from_name`: `none` for a name that is not known, or known with no URI
unfoldable pub uri_from_name : Text → UriMapper → Uri
unfolding get
uri_from_name name m = elim (get text_eq name m.names) [ none ↦ none | some uri ↦ uri ]

-- `_invalid_playlist_chars.sub("|", name)`
unfoldable pub playlist_name : Text → Text
playlist_name = map (λ c. if c == b'/' then b'|' else c)

-- One round of the loop of `refresh_playlists_mapping`: a playlist with no name is passed over.
unfoldable pub insert_playlist : Option Text → Uri → UriMapper → Outcome UriMapper
unfolding insert playlist_name
insert_playlist none uri m = ok m
insert_playlist (some []) uri m = ok m
insert_playlist (some (c ∷ name)) uri m =
    insert (playlist_name (c ∷ name)) uri true m >>= λ inserted. ok inserted.1

unfoldable pub insert_playlists : List PlaylistRef → UriMapper → Outcome UriMapper
unfolding insert_playlist
insert_playlists [] m = ok m
insert_playlists (ref ∷ refs) m = insert_playlist ref.name ref.uri m >>= insert_playlists refs

unfoldable pub refresh_with : Option (List PlaylistRef) → UriMapper → Outcome UriMapper
unfolding insert_playlists
refresh_with none m = ok m
refresh_with (some refs) m = insert_playlists refs m

-- `refresh_playlists_mapping`
unfoldable pub refresh_playlists_mapping : UriMapper → Outcome UriMapper
unfolding refresh_with
refresh_playlists_mapping m = refresh_with m.playlists m

-- `playlist_uri_from_name`
unfoldable pub playlist_uri_from_name : Text → UriMapper → Outcome (Uri × UriMapper)
unfolding refresh_playlists_mapping uri_from_name
playlist_uri_from_name name m = elim (get text_eq name m.names) [
  | some uri ↦ ok (uri, m)
  | none ↦ refresh_playlists_mapping m >>= λ refreshed. ok (uri_from_name name refreshed, refreshed)
]

unfoldable pub named : Uri → UriMapper → Outcome (Text × UriMapper)
unfolding get uri_eq
named uri m = elim (get uri_eq uri m.playlist_names) [
  | none ↦ raised (other_error (codes "KeyError"))
  | some name ↦ ok (name, m)
]

-- `playlist_name_from_uri`: a playlist that the core does not list raises a `KeyError`
unfoldable pub playlist_name_from_uri : Uri → UriMapper → Outcome (Text × UriMapper)
unfolding named refresh_playlists_mapping
playlist_name_from_uri uri m = elim (get uri_eq uri m.playlist_names) [
  | some name ↦ ok (name, m)
  | none ↦ refresh_playlists_mapping m >>= λ refreshed. named uri refreshed
]
