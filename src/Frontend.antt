-- ===== src/Frontend.antt =====
-- src/mopidy_mpd/actor.py: the events of the core, passed on to the sessions.
pub mod Lifecycle
pub mod Holding
pub mod Release
pub mod Lifetime
use mopidy_mpd.Prelude.{
  Text, codes, ◌≡◌, refl, ◌⊎◌, inl, inr, Bool, true, false, Option, none, some, List, [], ◌∷◌, All,
  text_eq, get, map, contains, is_empty, ap, subst, if◌then◌else◌,
}
use mopidy_mpd.Session.{Session}
use mopidy_mpd.Dispatcher.{handle_idle}
use mopidy_mpd.LineProtocol.{on_event}
use mopidy_mpd.Commands.Status.{subsystems}

-- `_CORE_EVENTS_TO_IDLE_SUBSYSTEMS`
unfoldable pub core_events : List (Text × Option Text)
core_events =
    (codes "track_playback_paused", none)
    ∷ (codes "track_playback_resumed", none)
    ∷ (codes "track_playback_started", none)
    ∷ (codes "track_playback_ended", none)
    ∷ (codes "playback_state_changed", some (codes "player"))
    ∷ (codes "tracklist_changed", some (codes "playlist"))
    ∷ (codes "playlists_loaded", some (codes "stored_playlist"))
    ∷ (codes "playlist_changed", some (codes "stored_playlist"))
    ∷ (codes "playlist_deleted", some (codes "stored_playlist"))
    ∷ (codes "options_changed", some (codes "options"))
    ∷ (codes "volume_changed", some (codes "mixer"))
    ∷ (codes "mute_changed", some (codes "output"))
    ∷ (codes "seeked", some (codes "player"))
    ∷ (codes "stream_title_changed", some (codes "playlist"))
    ∷ []

module _ {W : Type 0} where
  -- `listener.send`: each session has its event in its inbox, and the inboxes are apart.
  unfoldable pub send_to_all : Text → List (Session W) → List (Session W)
  unfolding on_event
  send_to_all subsystem [] = []
  send_to_all subsystem (s ∷ ss) = on_event subsystem s ∷ send_to_all subsystem ss

  -- `send_idle`
  unfoldable pub send_idle : Option Text → List (Session W) → List (Session W)
  unfolding send_to_all
  send_idle none ss = ss
  send_idle (some subsystem) ss = if is_empty subsystem then ss else send_to_all subsystem ss

  unfoldable pub send_known : Option (Option Text) → List (Session W) → List (Session W)
  unfolding send_idle
  send_known none ss = ss
  send_known (some subsystem) ss = send_idle subsystem ss

  -- `MpdFrontend.on_event`
  unfoldable pub on_core_event : Text → List (Session W) → List (Session W)
  unfolding send_known core_events get text_eq
  on_core_event event ss = send_known (get text_eq event core_events) ss

-- No subsystem, or one that `idle` knows.
abbrev KnownSubsystem : Option Text → Type 0
KnownSubsystem none = Unit
KnownSubsystem (some t) = contains subsystems t ≡ true

get-All :
    (P : Option Text → Type 0) (event : Text) (table : List (Text × Option Text))
    → All (λ ((_, t) : Text × Option Text). P t) table
    → (o : Option Text) → get text_eq event table ≡ some o
    → P o
unfolding get
get-All P event [] _ o h = absurd (cc h)
get-All P event ((key, t) ∷ table) (p, ps) o h =
    step (text_eq key event) (get-All P event table ps o) h
  where
    step :
        (b : Bool)
        → (get text_eq event table ≡ some o → P o)
        → (if b then some t else get text_eq event table) ≡ some o
        → P o
    step true later e = let same : t ≡ o = cc e in subst P same p
    step false later e = later e

core_events-Known :
    (event : Text) (o : Option Text) → get text_eq event core_events ≡ some o → KnownSubsystem o
unfolding core_events contains text_eq
core_events-Known event o h =
    get-All KnownSubsystem event core_events
      (
        tt,
        (
          tt,
          (
            tt,
            (
              tt,
              (refl, (refl, (refl, (refl, (refl, (refl, (refl, (refl, (refl, (refl, tt)))))))))),
            ),
          ),
        ),
      )
      o h

module _ {W : Type 0} where
  send_to_all-map :
      (subsystem : Text) (ss : List (Session W))
      → send_to_all subsystem ss ≡ map (handle_idle subsystem) ss
  unfolding send_to_all on_event
  send_to_all-map subsystem [] = refl
  send_to_all-map subsystem (s ∷ ss) =
      ap (λ (r : List (Session W)). handle_idle subsystem s ∷ r) (send_to_all-map subsystem ss)

  -- What an event does to the sessions: nothing, or the same change of a subsystem for all.
  abbrev Passes : List (Session W) → List (Session W) → Type 0
  Passes ss after =
      (after ≡ ss)
      ⊎ ((t : Text) × (contains subsystems t ≡ true) × (after ≡ map (handle_idle t) ss))

  send_idle-Passes :
      (o : Option Text) (ss : List (Session W)) → KnownSubsystem o → Passes ss (send_idle o ss)
  unfolding send_idle
  send_idle-Passes none ss h = inl refl
  send_idle-Passes (some []) ss h = inl refl
  send_idle-Passes (some (c ∷ t)) ss h = inr (c ∷ t, h, send_to_all-map (c ∷ t) ss)

  send_known-Passes :
      (o : Option (Option Text)) (ss : List (Session W))
      → ((t : Option Text) → o ≡ some t → KnownSubsystem t)
      → Passes ss (send_known o ss)
  unfolding send_known
  send_known-Passes none ss h = inl refl
  send_known-Passes (some t) ss h = send_idle-Passes t ss (h t refl)

-- Whatever the event of the core, the sessions stay as they are, or each of them is told of a change
-- of the same subsystem, and that is one of those that the idle command knows.
pub on_core_event-known :
    {W : Type 0} (event : Text) (ss : List (Session W))
    → (on_core_event event ss ≡ ss)
      ⊎ ((t : Text) × (contains subsystems t ≡ true)
          × (on_core_event event ss ≡ map (handle_idle t) ss))
unfolding on_core_event
on_core_event-known event ss =
    send_known-Passes (get text_eq event core_events) ss (core_events-Known event)
