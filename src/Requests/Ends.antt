-- ===== src/Requests/Ends.antt =====
-- How a call on the session ends: a rule for each combinator.
use mopidy_mpd.Prelude.{Text, ◌≡◌, ◌≢◌, refl, Bool, true, false, if◌then◌else◌}
use mopidy_mpd.Exceptions.{Ack}
use mopidy_mpd.Outcome.{Outcome, ok, raised, diverged, ack, value_error, actor_dead, other_error}
use mopidy_mpd.Session.{Session, M, lift, ◌>>=◌, catch_ack, catch_dead}

-- The call returns or raises, in a session of which `S` holds.
abbrev pub Ends : {W A : Type 0} → (Session W → Type 0) → Outcome A × Session W → Type 0
Ends S (ok a, s) = S s
Ends S (raised e, s) = S s
Ends S (diverged, s) = ⊥

module _ {W : Type 0} (S : Session W → Type 0) where
  pub Ends-bind :
      {A B : Type 0} (m : M W A) (f : A → M W B) (s : Session W)
      → Ends S (m s)
      → ((a : A) (s' : Session W) → S s' → Ends S (f a s'))
      → Ends S ((m >>= f) s)
  Ends-bind {A} {B} m f s h k = step (m s) h
    where
      step : (x : Outcome A × Session W) → Ends S x → Ends S (((λ _. x) >>= f) s)
      step (ok a, s') h' = k a s' h'
      step (raised e, s') h' = h'
      step (diverged, s') h' = h'

  pub Ends-catch_ack :
      {A : Type 0} (m : M W A) (handler : Ack → M W A) (s : Session W)
      → Ends S (m s)
      → ((e : Ack) (s' : Session W) → S s' → Ends S (handler e s'))
      → Ends S (catch_ack m handler s)
  Ends-catch_ack {A} m handler s h k = step (m s) h
    where
      step : (x : Outcome A × Session W) → Ends S x → Ends S (catch_ack (λ _. x) handler s)
      step (ok a, s') h' = h'
      step (raised (ack e), s') h' = k e s' h'
      step (raised value_error, s') h' = h'
      step (raised (actor_dead t), s') h' = h'
      step (raised (other_error t), s') h' = h'
      step (diverged, s') h' = h'

  pub Ends-catch_dead :
      {A : Type 0} (m : M W A) (handler : Text → M W A) (s : Session W)
      → Ends S (m s)
      → ((t : Text) (s' : Session W) → S s' → Ends S (handler t s'))
      → Ends S (catch_dead m handler s)
  Ends-catch_dead {A} m handler s h k = step (m s) h
    where
      step : (x : Outcome A × Session W) → Ends S x → Ends S (catch_dead (λ _. x) handler s)
      step (ok a, s') h' = h'
      step (raised (ack e), s') h' = h'
      step (raised value_error, s') h' = h'
      step (raised (actor_dead t), s') h' = k t s' h'
      step (raised (other_error t), s') h' = h'
      step (diverged, s') h' = h'

  pub Ends-lift :
      {A : Type 0} (o : Outcome A) (s : Session W) → o ≢ diverged → S s → Ends S (lift o s)
  Ends-lift (ok a) s h hs = hs
  Ends-lift (raised e) s h hs = hs
  Ends-lift diverged s h hs = absurd (h refl)

  pub Ends-if :
      {A : Type 0} (b : Bool) (m n : M W A) (s : Session W)
      → (b ≡ true → Ends S (m s))
      → (b ≡ false → Ends S (n s))
      → Ends S ((if b then m else n) s)
  Ends-if true m n s hm hn = hm refl
  Ends-if false m n s hm hn = hn refl

  pub Ends-choice :
      {A : Type 0} (b : Bool) (x y : Outcome A × Session W)
      → (b ≡ true → Ends S x)
      → (b ≡ false → Ends S y)
      → Ends S (if b then x else y)
  Ends-choice true x y hx hy = hx refl
  Ends-choice false x y hx hy = hy refl

  pub Ends-bind_lift :
      {A B : Type 0} (o : Outcome A) (f : A → M W B) (s : Session W)
      → o ≢ diverged
      → S s
      → ((a : A) → o ≡ ok a → Ends S (f a s))
      → Ends S ((lift o >>= f) s)
  Ends-bind_lift (ok a) f s h hs k = k a refl
  Ends-bind_lift (raised e) f s h hs k = hs
  Ends-bind_lift diverged f s h hs k = absurd (h refl)
