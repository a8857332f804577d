-- ===== src/CoreCommands/Core.antt =====
-- The parts of Mopidy's core behind `context.core` that the commands of src/mopidy_mpd/protocol use.
-- A call that only asks is a function of the core; a call that changes the core also gives the core
-- behind it. An argument the code passes as a number may be negative where the code allows it.
use mopidy_mpd.Prelude.{ℕ, ℤ, ◌≡◌, ap, Text, codes, Bool, true, Option, some, List, [], ◌∷◌}
use mopidy_mpd.Exceptions.{Ack}
use mopidy_mpd.Outcome.{Outcome, ok, raised, diverged, ack, other_error}
use mopidy_mpd.Protocol.{Value, Result, nothing, Arg, Param, positional}
use mopidy_mpd.Requests.{CoreHandler}
use mopidy_mpd.Translator.{Artist, Album, Track, Obj}

-- `mopidy.models.TlTrack`
pub record TlTrack : Type 0 where
  pub tlid : ℕ
  pub track : Track

abbrev pub of_tl_track : TlTrack → Obj
of_tl_track t = record { tlid = some t.tlid; track = t.track }

abbrev pub of_tl_tracks : List TlTrack → List Obj
of_tl_tracks [] = []
of_tl_tracks (t ∷ ts) = of_tl_track t ∷ of_tl_tracks ts

-- `mopidy.core.PlaybackState`
pub data PlaybackState : Type 0 where
  playing paused stopped : PlaybackState

-- `context.core.tracklist`
pub record Tracklist (W : Type 0) : Type 0 where
  pub get_tl_tracks : W → Outcome (List TlTrack)
  pub get_length : W → Outcome ℕ
  pub get_version : W → Outcome ℕ
  pub get_next_tlid : W → Outcome (Option ℕ)
  pub get_consume : W → Outcome Bool
  pub get_random : W → Outcome Bool
  pub get_repeat : W → Outcome Bool
  pub get_single : W → Outcome Bool
  pub slice : ℤ → ℤ → W → Outcome (List TlTrack)
  pub filter_tlid : ℤ → W → Outcome (List TlTrack)
  pub filter_uri : Text → W → Outcome (List TlTrack)
  pub index : Option TlTrack → W → Outcome (Option ℕ)
  pub index_tlid : Option ℕ → W → Outcome (Option ℕ)
  pub add : List Text → Option ℕ → W → Outcome (List TlTrack) × W
  pub remove : List ℕ → W → Outcome (List TlTrack) × W
  pub clear : W → Outcome (Unit {0}) × W
  pub move : ℤ → ℤ → ℕ → W → Outcome (Unit {0}) × W
  pub shuffle : Option ℕ → Option ℕ → W → Outcome (Unit {0}) × W
  pub set_consume : Bool → W → Outcome (Unit {0}) × W
  pub set_random : Bool → W → Outcome (Unit {0}) × W
  pub set_repeat : Bool → W → Outcome (Unit {0}) × W
  pub set_single : Bool → W → Outcome (Unit {0}) × W

-- `context.core.playback`
pub record Playback (W : Type 0) : Type 0 where
  pub get_state : W → Outcome PlaybackState
  pub get_current_tlid : W → Outcome (Option ℕ)
  pub get_current_tl_track : W → Outcome (Option TlTrack)
  pub get_stream_title : W → Outcome (Option Text)
  pub get_time_position : W → Outcome ℕ
  pub play : Option ℕ → W → Outcome (Unit {0}) × W
  pub pause : W → Outcome (Unit {0}) × W
  pub resume : W → Outcome (Unit {0}) × W
  pub stop : W → Outcome (Unit {0}) × W
  pub next : W → Outcome (Unit {0}) × W
  pub previous : W → Outcome (Unit {0}) × W
  pub seek : ℤ → W → Outcome Bool × W

-- `mopidy.models.Playlist`
pub record Playlist : Type 0 where
  pub uri : Option Text
  pub name : Option Text
  pub tracks : List Track

-- `mopidy.models.Ref`, of a track or of something that may be browsed
pub record Ref : Type 0 where
  pub is_track : Bool
  pub name : Option Text
  pub uri : Option Text

-- `context.core.playlists`
pub record Playlists (W : Type 0) : Type 0 where
  pub as_list : W → Outcome (List Ref)
  pub lookup : Text → W → Outcome (Option Playlist)
  pub create : Text → Option Text → W → Outcome (Option Playlist) × W
  pub save : Playlist → W → Outcome (Option Playlist) × W
  pub delete : Text → W → Outcome Bool × W

-- `context.core.library`; a dictionary is its items in order
pub record Library (W : Type 0) : Type 0 where
  pub browse : Option Text → W → Outcome (List Ref)
  pub lookup : List Text → W → Outcome (List (Text × List Track))

-- A `Query`: the texts that are looked for in each field, in the order of the dictionary.
abbrev pub Query : Type 0
Query = List (Text × List Text)

pub record SearchResult : Type 0 where
  pub artists : List Artist
  pub albums : List Album
  pub tracks : List Track

-- The searches of `context.core.library`; the Boolean is `exact`. A set is listed in the order in
-- which Python iterates it.
pub record Searches (W : Type 0) : Type 0 where
  pub search : Query → Bool → W → Outcome (List SearchResult)
  pub get_distinct : Text → Option Query → W → Outcome (List Value)

-- `context.uri_map`, which asks the core for its playlists
pub record UriMap (W : Type 0) : Type 0 where
  pub insert : Text → Option Text → W → Outcome Text × W
  pub uri_from_name : Text → W → Outcome (Option Text)
  pub playlist_uri_from_name : Text → W → Outcome (Option Text) × W
  pub playlist_name_from_uri : Option Text → W → Outcome Text × W

-- The volume of `context.core.mixer`
pub record Volume (W : Type 0) : Type 0 where
  pub get_volume : W → Outcome (Option ℕ)
  pub set_volume : ℤ → W → Outcome Bool × W

-- What a handler does with the core: it returns or raises, and what it did before stays done.
abbrev pub K : Type 0 → Type 0 → Type 0
K W A = W → Outcome A × W

module _ {W A : Type 0} where
  abbrev pub pure : A → K W A
  pure a w = (ok a, w)

  abbrev pub throw : Ack → K W A
  throw e w = (raised (ack e), w)

  -- `.get()` on the future of a call that only asks
  abbrev pub ask : (W → Outcome A) → K W A
  ask f w = (f w, w)

  abbrev pub lift : Outcome A → K W A
  lift r w = (r, w)

  -- A call whose future is dropped: nothing waits for it, and its exception is lost.
  abbrev pub tell : K W A → K W (Unit {0})
  tell call w = (ok tt, (call w).1)

module _ {W A B : Type 0} where
  abbrev pub continue : Outcome A → (A → K W B) → K W B
  continue (ok a) f w = f a w
  continue (raised e) f w = (raised e, w)
  continue diverged f w = (diverged, w)

  pub continue-ok :
      {r : Outcome A} {a : A} (f : A → K W B) (w : W) → r ≡ ok a → continue r f w ≡ f a w
  continue-ok f w h = ap (λ (o : Outcome A). continue o f w) h

  infixl 5 ◌>>=◌ ◌>>◌
  abbrev pub ◌>>=◌ : K W A → (A → K W B) → K W B
  ◌>>=◌ m f w = let (r, w') = m w in continue r f w'

  abbrev pub ◌>>◌ : K W A → K W B → K W B
  m >> n = m >>= λ _. n

-- A handler that returns `None`.
abbrev pub done : {W A : Type 0} → K W A → K W Result
done m = do _ ← m; pure nothing

-- A registered function of the context and the tag types, with the parameters behind the context.
abbrev pub command :
    {W : Type 0} → Text → List Param → (List Text → List Arg → K W Result) → CoreHandler W
command name params func = record {
  name = name;
  spec = positional params;
  func = func;
  auth_required = true;
  list_command = true;
}

-- A call of the function with arguments it has no parameters for.
abbrev pub bad_call : {W A : Type 0} → K W A
bad_call w = (raised (other_error (codes "TypeError")), w)
