-- ===== src/CoreCommands/Context/Ends.antt =====
-- src/mopidy_mpd/context.py: `browse` on a library whose directories are finitely many.
use mopidy_mpd.Prelude.{
  ℕ, zero, suc, ◌+◌, ◌≤◌, ◌<◌, ◌≡◌, ◌≢◌, refl, Text, Bool, true, false, Option, none, some, List,
  [], ◌∷◌, ◌++◌, if◌then◌else◌, All, arith, subst,
}
use mopidy_mpd.Outcome.{Outcome, ok, raised, diverged}
use mopidy_mpd.CoreCommands.Core.{Ref, Library, UriMap, K, pure, continue, ◌>>=◌}
use mopidy_mpd.CoreCommands.Context.{
  Pending, path_parts, joined_path, without_slashes, find_entry, entered, walk, enter, push,
  yield_entry, visit, list_entries, browse_pending, yield_root, browse_from, browse,
}
use mopidy_mpd.CoreCommands.Context.Costs.{
  Yields, Yields-continue, Anything, Yields-ends, ends-Yields, entry_cost, cost, cost_of, total,
  Finite,
}

module _ {W A D : Type 0} (library : Library W) (uri_map : UriMap W) (weight : Option Text → ℕ)
    (finite : Finite library uri_map weight) (recursive : Bool) (found : Text → Ref → W → D)
    (each : A → Text → Option D → K W A)
    (each_ends : (kept : A) (path : Text) (d : Option D) (w : W)
      → (each kept path d w).0 ≢ diverged) where
  abbrev Answered : Pending → Type 0
  Answered = All (λ ((path, future) : Text × Outcome (List Ref)). future ≢ diverged)

  -- What is pending costs at most so much.
  abbrev Within : ℕ → A × Pending → Type 0
  Within n (kept, pending) = Answered pending × (total weight pending ≤ n)

  affordable :
      (future : Outcome (List Ref)) (rest fuel : ℕ)
      → future ≢ diverged
      → suc (cost_of weight future) + rest ≤ suc fuel
      → Yields (λ refs. cost weight refs + rest ≤ fuel) future
  unfolding cost_of
  affordable (ok refs) rest fuel ends h = omega (arith, h)
  affordable (raised e) rest fuel ends h = tt
  affordable diverged rest fuel ends h = absurd (ends refl)

  push-Within :
      (b : Bool) (path uri : Text) (kept : A) (pending : Pending) (n : ℕ) (w : W)
      → Answered pending
      → total weight pending ≤ n
      → Within
          (suc (weight (some uri)) + n)
          (kept, (if b then (path, library.browse (some uri) w) ∷ pending else pending))
  unfolding total
  push-Within true path uri kept pending n w a h =
      ((finite.browse_ends (some uri) w, a), omega (arith, finite.smaller (some uri) w))
  push-Within false path uri kept pending n w a h = (a, omega arith)

  yield_entry-Within :
      (b : Bool) (ref : Ref) (name path uri : Text) (kept : A) (pending : Pending) (n : ℕ) (w : W)
      → Answered pending
      → total weight pending ≤ n
      → Yields
          (Within (entry_cost weight (some name) (some uri) b + n))
          (yield_entry library uri_map recursive found each b ref path uri kept pending w).0
  unfolding yield_entry push
  yield_entry-Within true ref name path uri kept pending n w a h =
      Yields-continue Anything (Within (0 + n)) (each kept path (some (found uri ref w)) w).0 _ _
        (Yields-ends _ (each_ends kept path (some (found uri ref w)) w))
        (λ kept' _. (a, omega (arith, h)))
  yield_entry-Within false ref name path uri kept pending n w a h =
      Yields-continue Anything (Within (suc (weight (some uri)) + n)) (each kept path none w).0 _ _
        (Yields-ends _ (each_ends kept path none w))
        (λ kept' _. push-Within recursive path uri kept' pending n (each kept path none w).1 a h)

  visit-Within :
      (base_path : Text) (ref : Ref) (name uri : Option Text) (kept : A) (pending : Pending) (n : ℕ)
      (w : W)
      → Answered pending
      → total weight pending ≤ n
      → Yields
          (Within (entry_cost weight name uri ref.is_track + n))
          (visit library uri_map recursive found each base_path ref name uri kept pending w).0
  unfolding visit
  visit-Within base_path ref (some name) (some uri) kept pending n w a h =
      let at = base_path ++ (b'/' ∷ without_slashes name) in
      Yields-continue Anything (Within (entry_cost weight (some name) (some uri) ref.is_track + n))
        (uri_map.insert at (some uri) w).0 _ _ (Yields-ends _ (finite.insert_ends at (some uri) w))
        (λ path _.
          yield_entry-Within ref.is_track ref name path uri kept pending n
            (uri_map.insert at (some uri) w).1 a h)
  visit-Within base_path ref none uri kept pending n w a h = (a, omega (arith, h))
  visit-Within base_path ref (some name) none kept pending n w a h = (a, omega (arith, h))

  list_entries-Within :
      (base_path : Text) (refs : List Ref) (kept : A) (pending : Pending) (n : ℕ) (w : W)
      → Answered pending
      → total weight pending ≤ n
      → Yields
          (Within (cost weight refs + n))
          (list_entries library uri_map recursive found each base_path refs kept pending w).0
  unfolding list_entries cost
  list_entries-Within base_path [] kept pending n w a h = (a, omega (arith, h))
  list_entries-Within base_path (ref ∷ refs) kept pending n w a h =
      let m = entry_cost weight ref.name ref.uri ref.is_track in
      let w' =
        (visit library uri_map recursive found each base_path ref ref.name ref.uri kept pending
          w).1 in
      let same : cost weight refs + (m + n) ≡ m + cost weight refs + n = omega arith in
      Yields-continue (Within (m + n)) (Within (m + cost weight refs + n))
        (visit library uri_map recursive found each base_path ref ref.name ref.uri kept pending w).0
        _ _ (visit-Within base_path ref ref.name ref.uri kept pending n w a h)
        (λ (kept', pending') (a', h').
          subst
            (λ (k : ℕ).
              Yields (Within k)
                (list_entries library uri_map recursive found each base_path refs kept' pending'
                  w').0)
            same (list_entries-Within base_path refs kept' pending' (m + n) w' a' h'))

  browse_pending-ends :
      (fuel : ℕ) (kept : A) (pending : Pending) (w : W)
      → Answered pending
      → total weight pending ≤ fuel
      → Yields Anything (browse_pending library uri_map recursive found each fuel kept pending w).0
  unfolding browse_pending total cost_of
  browse_pending-ends fuel kept [] w a h = tt
  browse_pending-ends zero kept (entry ∷ pending) w a h = absurd (omega (arith, h))
  browse_pending-ends (suc fuel) kept ((base_path, future) ∷ pending) w (ends, a) h =
      Yields-continue (λ refs. cost weight refs + total weight pending ≤ fuel) Anything future _ w
        (affordable future (total weight pending) fuel ends h)
        (λ refs fits.
          Yields-continue (Within (cost weight refs + total weight pending)) Anything
            (list_entries library uri_map recursive found each base_path refs kept pending w).0 _ _
            (list_entries-Within base_path refs kept pending (total weight pending) w a
              (omega arith))
            (λ (kept', pending') (a', h').
              browse_pending-ends fuel kept' pending' _ a' (omega (arith, h', fits))))

  browse_from-ends :
      (fuel : ℕ) (kept : A) (root_path : Text) (uri : Option Text) (w : W)
      → weight uri < fuel
      → Yields Anything
          (browse_from library uri_map recursive found each fuel kept root_path uri w).0
  unfolding browse_from total
  browse_from-ends fuel kept root_path uri w h =
      let w' = (yield_root library uri_map recursive found each root_path kept w).1 in
      Yields-continue Anything Anything
        (yield_root library uri_map recursive found each root_path kept w).0 _ _
        (root-ends recursive)
        (λ kept' _.
          browse_pending-ends fuel kept' ((root_path, library.browse uri w') ∷ []) w'
            (finite.browse_ends uri w', tt) (omega (arith, h, finite.smaller uri w')))
    where
      root-ends :
          (b : Bool) → Yields Anything ((if b then each kept root_path none else pure kept) w).0
      root-ends true = Yields-ends _ (each_ends kept root_path none w)
      root-ends false = tt

  entered-ends : (ref : Option Ref) (w : W) → Yields Anything (entered library uri_map ref w).0
  unfolding entered
  entered-ends none w = tt
  entered-ends (some ref) w = tt

  walk-ends :
      (parts : List Text) (uri : Option Text) (w : W)
      → Yields Anything (walk library uri_map parts uri w).0
  unfolding walk
  walk-ends [] uri w = tt
  walk-ends (part ∷ parts) uri w =
      Yields-continue Anything Anything (library.browse uri w) _ w
        (Yields-ends _ (finite.browse_ends uri w))
        (λ refs _.
          Yields-continue Anything Anything (entered library uri_map (find_entry part refs) w).0 _ _
            (entered-ends (find_entry part refs) w) (λ next _. walk-ends parts next _))

  enter-ends :
      (parts : List Text) (known : Option Text) (w : W)
      → Yields Anything (enter library uri_map parts known w).0
  unfolding enter
  enter-ends parts (some uri) w = tt
  enter-ends parts none w =
      Yields-continue Anything Anything (walk library uri_map parts none w).0 _ _
        (walk-ends parts none w)
        (λ uri _.
          Yields-continue Anything Anything (uri_map.insert (joined_path parts) uri _).0 _ _
            (Yields-ends _ (finite.insert_ends (joined_path parts) uri _)) (λ root_path _. tt))

  -- So many rounds are enough for what comes behind the start of a browse.
  abbrev Enough : (ℕ → Outcome A) → Type 0
  Enough run = (n : ℕ) × ((fuel : ℕ) → n ≤ fuel → Yields Anything (run fuel))

  from_root :
      (o : Outcome (Text × Option Text)) (kept : A) (w : W)
      → Yields Anything o
      → Enough (λ fuel.
        (continue o
          (λ ((root_path, uri) : Text × Option Text).
            browse_from library uri_map recursive found each fuel kept root_path uri)
          w).0)
  from_root (ok (root_path, uri)) kept w h = (
    suc (weight uri),
    λ fuel enough. browse_from-ends fuel kept root_path uri w (omega (arith, enough)),
  )
  from_root (raised e) kept w h = (0, λ fuel enough. tt)
  from_root diverged kept w h = absurd h

  from_known :
      (o : Outcome (Option Text)) (parts : List Text) (kept : A) (w : W)
      → Yields Anything o
      → Enough (λ fuel.
        (continue o
          (λ known. do
            (root_path, uri) ← enter library uri_map parts known
            browse_from library uri_map recursive found each fuel kept root_path uri)
          w).0)
  from_known (ok known) parts kept w h =
      let (r, w') = enter library uri_map parts known w in
      from_root r kept w' (enter-ends parts known w)
  from_known (raised e) parts kept w h = (0, λ fuel enough. tt)
  from_known diverged parts kept w h = absurd h

-- On a library in which every directory weighs more than all that it lists, every browse returns or
-- raises, with any number of rounds from some number on, if the calls of the core, the map of names
-- and the body of the loop do.
pub browse-ends :
    {W A D : Type 0} (library : Library W) (uri_map : UriMap W) (weight : Option Text → ℕ)
    (recursive : Bool) (found : Text → Ref → W → D) (each : A → Text → Option D → K W A)
    (path : Text) (kept : A) (w : W)
    → Finite library uri_map weight
    → ((kept : A) (path : Text) (d : Option D) (w : W) → (each kept path d w).0 ≢ diverged)
    → (n : ℕ) × ((fuel : ℕ)
        → n ≤ fuel
        → (browse library uri_map recursive found each fuel path kept w).0 ≢ diverged)
unfolding browse
browse-ends library uri_map weight recursive found each path kept w finite each_ends =
    let (n, enough) =
      from_known library uri_map weight finite recursive found each each_ends
        (uri_map.uri_from_name (joined_path (path_parts path)) w) (path_parts path) kept w
        (Yields-ends _ (finite.known_ends (joined_path (path_parts path)) w)) in
    (n, λ fuel h. ends-Yields Anything _ (enough fuel h))
