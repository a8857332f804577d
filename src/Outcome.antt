-- ===== src/Outcome.antt =====
-- What a Python call does: it returns, raises, or goes on for ever.
-- `diverged` stands for a loop whose bound on the rounds was too low.
use mopidy_mpd.Prelude.{Text}
use mopidy_mpd.Exceptions.{Ack}

-- `ack` is any `MpdAckError`, `value_error` a `ValueError`, `actor_dead` a `pykka.ActorDeadError`
-- with its text, and `other_error` any exception that no code of the program catches.
pub data Raised : Type 0 where
  ack : Ack → Raised
  value_error : Raised
  actor_dead : Text → Raised
  other_error : Text → Raised

pub data Outcome {ℓ} (A : Type ℓ) : Type ℓ where
  ok : A → Outcome A
  raised : Raised → Outcome A
  diverged : Outcome A

module _ {ℓ κ} {A : Type ℓ} {B : Type κ} where
  infixl 5 ◌>>=◌
  abbrev pub ◌>>=◌ : Outcome A → (A → Outcome B) → Outcome B
  ◌>>=◌ diverged next = diverged
  ◌>>=◌ (raised e) next = raised e
  ◌>>=◌ (ok value) next = next value
