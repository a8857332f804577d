-- ===== src/Session.antt =====
-- What one client's session keeps, and the calls that change it.
-- The fields are those of src/mopidy_mpd/dispatcher.py's `MpdDispatcher` and of src/mopidy_mpd/session.py's
-- `MpdSession`. `core` is everything behind `context.core` and `context.uri_map`. A call into the
-- network layer returns nothing that the session reads, so it is an `Effect`, in the order of the
-- calls; src/mopidy_mpd/network.py carries it out.
use mopidy_mpd.Prelude.{ℕ, Text, Bool, Option, List, [], ◌∷◌, ◌++◌}
use mopidy_mpd.Exceptions.{Ack}
use mopidy_mpd.Outcome.{Outcome, ok, raised, diverged, ack, actor_dead}

pub data Effect : Type 0 where
  send_lines : List Text → Effect
  stop_actor : Effect
  stop_connection : Text → Effect
  enable_timeout disable_timeout : Effect

pub record Session (W : Type 0) : Type 0 where
  pub authenticated : Bool
  pub command_list_receiving : Bool
  pub command_list_ok : Bool
  pub command_list : List Text
  pub command_list_index : Option ℕ
  -- the two sets of `MpdDispatcher`, in some order
  pub subsystem_events : List Text
  pub subsystem_subscriptions : List Text
  pub tagtypes : List Text
  -- of `LineProtocol`
  pub prevent_timeout : Bool
  pub recv_buffer : List ℕ
  pub effects : List Effect
  pub core : W

-- A method of the session: it may raise, and what it wrote before stays written.
abbrev pub M : Type 0 → Type 0 → Type 0
M W A = Session W → Outcome A × Session W

module _ {W A : Type 0} where
  abbrev pub pure : A → M W A
  pure a s = (ok a, s)

  abbrev pub throw : Ack → M W A
  throw e s = (raised (ack e), s)

  abbrev pub lift : Outcome A → M W A
  lift r s = (r, s)

  abbrev pub gets : (Session W → A) → M W A
  gets f s = (ok (f s), s)

module _ {W : Type 0} where
  abbrev pub modify : (Session W → Session W) → M W (Unit {0})
  modify f s = (ok tt, f s)

  abbrev pub emit : Effect → M W (Unit {0})
  emit e s = (ok tt, record s { effects = s.effects ++ e ∷ [] })

module _ {W A B : Type 0} where
  abbrev continue : Outcome A → (A → M W B) → M W B
  continue (ok a) f s = f a s
  continue (raised e) f s = (raised e, s)
  continue diverged f s = (diverged, s)

  infixl 5 ◌>>=◌ ◌>>◌
  abbrev pub ◌>>=◌ : M W A → (A → M W B) → M W B
  ◌>>=◌ m f s = let (r, s') = m s in continue r f s'

  abbrev pub ◌>>◌ : M W A → M W B → M W B
  m >> n = m >>= λ _. n

module _ {W A : Type 0} where
  -- `except MpdAckError as e: handler(e)`
  abbrev on_ack : Outcome A → (Ack → M W A) → M W A
  on_ack (raised (ack e)) handler s = handler e s
  on_ack r handler s = (r, s)

  abbrev pub catch_ack : M W A → (Ack → M W A) → M W A
  catch_ack m handler s = let (r, s') = m s in on_ack r handler s'

  -- `except ActorDeadError as e: handler(str(e))`
  abbrev on_dead : Outcome A → (Text → M W A) → M W A
  on_dead (raised (actor_dead e)) handler s = handler e s
  on_dead r handler s = (r, s)

  abbrev pub catch_dead : M W A → (Text → M W A) → M W A
  catch_dead m handler s = let (r, s') = m s in on_dead r handler s'
