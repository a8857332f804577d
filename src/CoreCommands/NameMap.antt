-- ===== src/CoreCommands/NameMap.antt =====
-- `context.uri_map` as src/mopidy_mpd/uri_mapper.py implements it: the mapper stands beside the core,
-- and asks it for its playlists only where a name or a URI is not known.
use mopidy_mpd.Prelude.{
  Text, codes, inl, inr, Option-cases, ◌≡◌, ◌≢◌, sym, ap, ◌∙◌, false, Option, none, some, List,
  text_eq, get, map, ◌≤◌, ℕ,
}
use mopidy_mpd.Outcome.{Outcome, ok, raised, diverged, other_error, ◌>>=◌}
use mopidy_mpd.UriMapper.{
  Uri, uri_eq, UriMapper, PlaylistRef, insert, uri_from_name, playlist_uri_from_name,
  playlist_name_from_uri,
}
use mopidy_mpd.UriMapper.Names.{insert-total}
use mopidy_mpd.CoreCommands.Core.{Ref, Playlists, Library, UriMap, continue}
use mopidy_mpd.CoreCommands.StoredPlaylists.{lookup_uri, get_playlist}
use mopidy_mpd.UriMapper.Back.{
  Reached, relisted, Known, Known-ReadsBack, playlist_name_from_uri-Known,
}
use mopidy_mpd.CoreCommands.Context.Costs.{Finite, cost_of}

abbrev refs_of : List Ref → List PlaylistRef
refs_of = map (λ r. record { name = r.name; uri = r.uri })

module _ {C : Type 0} where
  -- What a method of the mapper returns, with the mapper that it leaves.
  abbrev left : {A : Type 0} → UriMapper × C → Outcome (A × UriMapper) → Outcome A × (UriMapper × C)
  left (m, core) (ok (a, m')) = (ok a, (m', core))
  left (m, core) (raised e) = (raised e, (m, core))
  left (m, core) diverged = (diverged, (m, core))

module _ {C : Type 0} (as_list : C → Outcome (List Ref)) where
  -- A mapper that knows what the core lists now.
  abbrev with_list :
      {A : Type 0} → (UriMapper → Outcome (A × UriMapper)) → UriMapper × C → Outcome (A × UriMapper)
  with_list method (m, core) =
      as_list core >>= λ refs. method (record m { playlists = some (refs_of refs) })

  unfoldable uri_of_playlist : Text → UriMapper × C → Outcome (Uri × UriMapper)
  unfolding playlist_uri_from_name get
  uri_of_playlist name (m, core) = elim (get text_eq name m.names) [
    | some _ ↦ playlist_uri_from_name name m
    | none ↦ with_list (playlist_uri_from_name name) (m, core)
  ]

  unfoldable name_of_playlist : Uri → UriMapper × C → Outcome (Text × UriMapper)
  unfolding playlist_name_from_uri get uri_eq
  name_of_playlist uri (m, core) = elim (get uri_eq uri m.playlist_names) [
    | some _ ↦ playlist_name_from_uri uri m
    | none ↦ with_list (playlist_name_from_uri uri) (m, core)
  ]

  unfoldable pub mapped : UriMap (UriMapper × C)
  unfolding insert uri_from_name uri_of_playlist name_of_playlist
  mapped = record {
    insert = λ name uri w. left w (insert name uri false w.0);
    uri_from_name = λ name w. ok (uri_from_name name w.0);
    playlist_uri_from_name = λ name w. left w (uri_of_playlist name w);
    playlist_name_from_uri = λ uri w. left w (name_of_playlist uri w);
  }

  -- The mapper ends as browse asks of it.
  mapped-Finite :
      (library : Library (UriMapper × C)) (weight : Option Text → ℕ)
      → ((uri : Option Text) (w : UriMapper × C) → library.browse uri w ≢ diverged)
      → ((uri : Option Text) (w : UriMapper × C)
          → cost_of weight (library.browse uri w) ≤ weight uri)
      → Finite library mapped weight
  unfolding mapped
  mapped-Finite library weight ends smaller = record {
    browse_ends = ends;
    insert_ends = λ name uri w h.
        let (n, e) = insert-total name uri false w.0 in cc (ap (λ o. (left w o).0) (sym e) ∙ h);
    known_ends = λ name w h. cc;
    smaller = smaller;
  }

-- Through the name the commands look up the playlist of the URI; or the call raised a KeyError.
abbrev pub Finds :
    {C : Type 0}
    → (C → Outcome (List Ref))
    → Playlists (UriMapper × C)
    → Uri
    → Outcome Text × (UriMapper × C)
    → Type 0
Finds as_list playlists uri (ok n, w) =
    get_playlist playlists (mapped as_list) n w ≡ lookup_uri playlists (mapped as_list) uri w
Finds as_list playlists uri (raised e, w) = e ≡ other_error (codes "KeyError")
Finds as_list playlists uri (diverged, w) = ⊥

module _ {C : Type 0} (as_list : C → Outcome (List Ref)) (playlists : Playlists (UriMapper × C))
    (uri : Uri) (m : UriMapper) (core : C) where
  uri_of_playlist-known :
      (n : Text) (m' : UriMapper)
      → get text_eq n m'.names ≡ some uri
      → uri_of_playlist as_list n (m', core) ≡ ok (uri, m')
  unfolding uri_of_playlist playlist_uri_from_name
  uri_of_playlist-known n m' known =
      rw (known, uri_of_playlist) (Known-ReadsBack uri (ok (n, m')) known)

  left-Finds :
      (o : Outcome (Text × UriMapper))
      → Known uri o
      → Finds as_list playlists uri (left (m, core) o)
  unfolding get_playlist mapped
  left-Finds (ok (n, m')) known =
      ap
        (λ (r : Outcome (Uri × UriMapper)).
          continue (left (m', core) r).0 (lookup_uri playlists (mapped as_list))
            (left (m', core) r).1)
        (uri_of_playlist-known n m' known)
  left-Finds (raised e) known = known
  left-Finds diverged known = known

  name_of_playlist-Known :
      (refs : List Ref)
      → Reached m
      → as_list core ≡ ok refs
      → Known uri (name_of_playlist as_list uri (m, core))
  unfolding name_of_playlist
  name_of_playlist-Known refs r lists = elim (Option-cases (get uri_eq uri m.playlist_names)) [
    | inr (n, e) ↦ rw (e, name_of_playlist, Known) (playlist_name_from_uri-Known uri m r)
    | inl e ↦
        rw (e, lists, name_of_playlist, Known)
          (playlist_name_from_uri-Known uri (record m { playlists = some (refs_of refs) })
            (relisted m (some (refs_of refs)) r))
  ]

  -- Where the core lists its playlists, a name that playlist_name_from_uri gives for a URI, as
  -- listplaylists shows it, leads _get_playlist to what the core has under that URI, and no other
  -- exception than a KeyError is raised: on every mapper that insert and refreshes of the
  -- playlists lead to.
  pub playlist_name-Finds :
      (refs : List Ref)
      → Reached m
      → as_list core ≡ ok refs
      → Finds as_list playlists uri ((mapped as_list).playlist_name_from_uri uri (m, core))
  unfolding mapped
  playlist_name-Finds refs r lists =
      left-Finds (name_of_playlist as_list uri (m, core)) (name_of_playlist-Known refs r lists)
