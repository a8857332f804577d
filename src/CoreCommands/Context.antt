-- ===== src/CoreCommands/Context.antt =====
-- src/mopidy_mpd/context.py: `MpdContext.browse`. A generator is the loop over what it yields:
-- `each` is the body of that loop, on what the loop keeps. `found` gives the data of a track: the
-- `Ref` itself, or the answer to the lookup of its URI.
pub mod Costs
pub mod Ends
use mopidy_mpd.Prelude.{
  ℕ, zero, suc, Text, codes, Bool, true, false, not, ◌&&◌, Option, none, some, List, [], ◌∷◌, ◌++◌,
  ◌==◌, if◌then◌else◌, is_empty, text_eq,
}
use mopidy_mpd.Exceptions.{mpd_error, no_exist_error}
use mopidy_mpd.Outcome.{Outcome, diverged}
use mopidy_mpd.CoreCommands.Core.{Ref, Library, UriMap, K, pure, throw, ask, lift, ◌>>=◌, ◌>>◌}

cons_part : Text → List Text → List Text
cons_part [] parts = parts
cons_part (c ∷ part) parts = (c ∷ part) ∷ parts

-- The text up to the next slash, and the parts behind it.
split_parts : Text → Text × List Text
unfolding cons_part
split_parts [] = ([], [])
split_parts (c ∷ s) =
    let (part, parts) = split_parts s in
    if c == b'/' then ([], cons_part part parts) else (c ∷ part, parts)

-- `re.findall(r"[^/]+", path)`
unfoldable pub path_parts : Text → List Text
unfolding split_parts cons_part
path_parts path = let (part, parts) = split_parts path in cons_part part parts

-- `"/".join(["", *path_parts])`
unfoldable pub joined_path : List Text → Text
joined_path [] = []
joined_path (part ∷ parts) = b'/' ∷ part ++ joined_path parts

-- `ref.name.replace("/", "")`
unfoldable pub without_slashes : Text → Text
without_slashes [] = []
without_slashes (c ∷ s) = let rest = without_slashes s in if c == b'/' then rest else c ∷ rest

is_named : Option Text → Text → Bool
unfolding text_eq
is_named none part = false
is_named (some name) part = text_eq name part

-- The first entry that is no track and has the name.
unfoldable pub find_entry : Text → List Ref → Option Ref
unfolding is_named
find_entry part [] = none
find_entry part (ref ∷ refs) =
    if not ref.is_track && is_named ref.name part then some ref else find_entry part refs

-- The directories that are left to list, the next one first, with the answers of the core.
abbrev pub Pending : Type 0
Pending = List (Text × Outcome (List Ref))

module _ {W : Type 0} (library : Library W) (uri_map : UriMap W) where
  unfoldable pub entered : Option Ref → K W (Option Text)
  entered none = throw (mpd_error no_exist_error (codes "Not found") none)
  entered (some ref) = pure ref.uri

  -- The loop over the parts of a path that the map does not know.
  unfoldable pub walk : List Text → Option Text → K W (Option Text)
  unfolding find_entry entered
  walk [] uri = pure uri
  walk (part ∷ parts) uri = do
    refs ← ask (library.browse uri)
    next ← entered (find_entry part refs)
    walk parts next

  -- The path under which the map knows the URI, and the URI.
  unfoldable pub enter : List Text → Option Text → K W (Text × Option Text)
  unfolding walk joined_path
  enter parts (some uri) = pure (joined_path parts, some uri)
  enter parts none = do
    uri ← walk parts none
    root_path ← uri_map.insert (joined_path parts) uri
    pure (root_path, uri)

  module _ {A D : Type 0} (recursive : Bool) (found : Text → Ref → W → D)
      (each : A → Text → Option D → K W A) where
    -- A directory that was yielded, put before the ones that are pending.
    unfoldable pub push : Text → Text → Pending → K W Pending
    push path uri pending w =
        pure (if recursive then (path, library.browse (some uri) w) ∷ pending else pending) w

    -- An entry under its path, which may be a track: a track is yielded with its data.
    unfoldable pub yield_entry : Bool → Ref → Text → Text → A → Pending → K W (A × Pending)
    unfolding push
    yield_entry true ref path uri kept pending = do
      kept' ← (λ w. each kept path (some (found uri ref w)) w)
      pure (kept', pending)
    yield_entry false ref path uri kept pending = do
      kept' ← each kept path none
      pending' ← push path uri pending
      pure (kept', pending')

    unfoldable pub visit : Text → Ref → Option Text → Option Text → A → Pending → K W (A × Pending)
    unfolding yield_entry without_slashes
    visit base_path ref (some name) (some uri) kept pending = do
      path ← uri_map.insert (base_path ++ (b'/' ∷ without_slashes name)) (some uri)
      yield_entry ref.is_track ref path uri kept pending
    visit base_path ref _ _ kept pending = pure (kept, pending)

    -- The loop over the entries of a directory.
    unfoldable pub list_entries : Text → List Ref → A → Pending → K W (A × Pending)
    unfolding visit
    list_entries base_path [] kept pending = pure (kept, pending)
    list_entries base_path (ref ∷ refs) kept pending = do
      (kept', pending') ← visit base_path ref ref.name ref.uri kept pending
      list_entries base_path refs kept' pending'

    -- The loop over the pending directories, for at most `fuel` of them.
    unfoldable pub browse_pending : ℕ → A → Pending → K W A
    unfolding list_entries
    browse_pending fuel kept [] = pure kept
    browse_pending zero kept (entry ∷ pending) = lift diverged
    browse_pending (suc fuel) kept ((base_path, future) ∷ pending) = do
      refs ← lift future
      (kept', pending') ← list_entries base_path refs kept pending
      browse_pending fuel kept' pending'

    -- `if recursive: yield (root_path, None)`
    unfoldable pub yield_root : Text → A → K W A
    yield_root root_path kept = if recursive then each kept root_path none else pure kept

    unfoldable pub browse_from : ℕ → A → Text → Option Text → K W A
    unfolding yield_root browse_pending
    browse_from fuel kept root_path uri = do
      kept' ← yield_root root_path kept
      (λ w. browse_pending fuel kept' ((root_path, library.browse uri w) ∷ []) w)

    -- `MpdContext.browse`; no path is the empty one.
    unfoldable pub browse : ℕ → Text → A → K W A
    unfolding path_parts joined_path enter browse_from
    browse fuel path kept = do
      known ← ask (uri_map.uri_from_name (joined_path (path_parts path)))
      (root_path, uri) ← enter (path_parts path) known
      browse_from fuel kept root_path uri
