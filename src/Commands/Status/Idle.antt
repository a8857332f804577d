-- ===== src/Commands/Status/Idle.antt =====
-- Idle mode: `idle` of src/mopidy_mpd/protocol/status.py with `handle_idle` of dispatcher.py.
use mopidy_mpd.Prelude.{
  Text, codes, ◌≡◌, refl, sym, ap, ◌∙◌, Bool, true, false, ◌&&◌, ◌||◌, List, [], ◌∷◌, ◌++◌,
  contains, text_eq, text_eq_iff, text_eq_refl, set_add, set_update, set_intersection,
  contains-set_add, contains-set_intersection, inl, inr, ◌⊎◌, arith,
}
use mopidy_mpd.Session.{Session, send_lines}
use mopidy_mpd.Protocol.{Arg}
use mopidy_mpd.Dispatcher.{changed_lines, notify, handle_idle, handle_idle_lem}
use mopidy_mpd.Commands.Connection.{texts_of}
use mopidy_mpd.Commands.Status.{or_all, report, idle, idle_lem}

-- No event is pending that the client has asked for.
abbrev pub Quiet : {W : Type 0} → Session W → Type 0
Quiet s =
    (t : Text) → (contains s.subsystem_subscriptions t && contains s.subsystem_events t) ≡ false

List-cases : (xs : List Text) → (xs ≡ []) ⊎ ((x : Text) × (rest : List Text) × (xs ≡ x ∷ rest))
List-cases [] = inl refl
List-cases (x ∷ rest) = inr (x, rest, refl)

contains_head : (x : Text) (xs : List Text) → contains (x ∷ xs) x ≡ true
unfolding contains
contains_head x xs = ground (arith, text_eq_refl x)

contains_nil : (t : Text) → contains [] t ≡ false
unfolding contains
contains_nil t = refl

-- An intersection is empty exactly where no text is in both.
intersection_nil :
    (xs ys : List Text)
    → ((t : Text) → (contains xs t && contains ys t) ≡ false)
    → set_intersection xs ys ≡ []
intersection_nil xs ys h = elim (List-cases (set_intersection xs ys)) [
  | inl e ↦ e
  | inr (x, rest, e) ↦ absurd (
      cc (
        h x,
        contains-set_intersection xs ys x,
        ap (λ (l : List Text). contains l x) e,
        contains_head x rest,
      ))
]

nil_apart :
    (xs ys : List Text) (t : Text)
    → set_intersection xs ys ≡ []
    → (contains xs t && contains ys t) ≡ false
nil_apart xs ys t e =
    sym (contains-set_intersection xs ys t)
    ∙ ap (λ (l : List Text). contains l t) e
    ∙ contains_nil t

intersection_cons :
    (xs ys : List Text) (t : Text)
    → contains xs t ≡ true
    → contains ys t ≡ true
    → (x : Text) × (rest : List Text) × (set_intersection xs ys ≡ x ∷ rest)
intersection_cons xs ys t hx hy = elim (List-cases (set_intersection xs ys)) [
  | inl e ↦ absurd (ground (arith, nil_apart xs ys t e, hx, hy))
  | inr found ↦ found
]

module _ {W : Type 0} (x : Text) (s : Session W) where
  -- Behind an event no event is pending that the client has asked for.
  pub handle_idle-Quiet : Quiet (handle_idle x s)
  unfolding notify
  handle_idle-Quiet t =
      elim (List-cases
        (set_intersection s.subsystem_subscriptions (set_add s.subsystem_events x))) [
          | inl e ↦
              rw (handle_idle_lem x s, e, notify)
                (nil_apart s.subsystem_subscriptions (set_add s.subsystem_events x) t e)
          | inr (y, rest, e) ↦ rw (handle_idle_lem x s, e, notify) (rw (contains_nil t) refl)
        ]

  -- An event that the client has not asked for is kept, and nothing is sent, where no event is
  -- pending that the client has asked for.
  pub handle_idle-silent :
      Quiet s
      → contains s.subsystem_subscriptions x ≡ false
      → handle_idle x s ≡ record s { subsystem_events = set_add s.subsystem_events x }
  unfolding notify
  handle_idle-silent quiet h =
      handle_idle_lem x s
      ∙ rw (
          intersection_nil s.subsystem_subscriptions (set_add s.subsystem_events x) (λ t.
            apart t (text_eq x t) (contains-set_add s.subsystem_events x t) (text_eq_iff x t).0))
    where
      apart :
          (t : Text) (same : Bool)
          → contains (set_add s.subsystem_events x) t ≡ (contains s.subsystem_events t || same)
          → (same ≡ true → x ≡ t)
          → (contains s.subsystem_subscriptions t && contains (set_add s.subsystem_events x) t)
            ≡ false
      apart t true e eq =
          let e' : contains s.subsystem_subscriptions t ≡ false =
            ap (λ (u : Text). contains s.subsystem_subscriptions u) (sym (eq refl)) ∙ h in
          rw e' refl
      apart t false e eq = ground (arith, quiet t, e)

  -- An event that the client has asked for ends idle mode: exactly that subsystem is sent as
  -- changed, then OK, and no event stays pending, where none was that the client has asked for.
  pub handle_idle-delivers :
      Quiet s
      → contains s.subsystem_subscriptions x ≡ true
      → (active : List Text) × ((t : Text) → contains active t ≡ text_eq x t)
        × (handle_idle x s ≡ record s {
          subsystem_events = [];
          subsystem_subscriptions = [];
          effects = s.effects ++ send_lines (changed_lines active ++ codes "OK" ∷ []) ∷ [];
        })
  unfolding notify
  handle_idle-delivers quiet h =
      let events = set_add s.subsystem_events x in
      let added = contains-set_add s.subsystem_events x in
      let (y, rest, e) =
        intersection_cons s.subsystem_subscriptions events x h
          (added x ∙ ground (arith, text_eq_refl x)) in
      (
        y ∷ rest,
        (λ t.
            ap (λ (l : List Text). contains l t) (sym e)
            ∙ contains-set_intersection s.subsystem_subscriptions events t
            ∙ only t (text_eq x t) (added t) (text_eq_iff x t).0),
        handle_idle_lem x s ∙ rw e,
      )
    where
      only :
          (t : Text) (same : Bool)
          → contains (set_add s.subsystem_events x) t ≡ (contains s.subsystem_events t || same)
          → (same ≡ true → x ≡ t)
          → (contains s.subsystem_subscriptions t && contains (set_add s.subsystem_events x) t)
            ≡ same
      only t true e eq =
          let e' : contains s.subsystem_subscriptions t ≡ true =
            ap (λ (u : Text). contains s.subsystem_subscriptions u) (sym (eq refl)) ∙ h in
          ground (arith, e, e')
      only t false e eq = ground (arith, quiet t, e)

module _ {W : Type 0} (arguments : List Arg) where
  -- Behind `idle` no event is pending that the client has asked for.
  pub idle-Quiet : (s : Session W) → Quiet (idle arguments s).1
  unfolding report
  idle-Quiet s t =
      let subscriptions = set_update s.subsystem_subscriptions (or_all (texts_of arguments)) in
      elim (List-cases (set_intersection subscriptions s.subsystem_events)) [
        | inl e ↦
            rw (idle_lem arguments s, e, report) (nil_apart subscriptions s.subsystem_events t e)
        | inr (y, rest, e) ↦ rw (idle_lem arguments s, e, report) (rw (contains_nil t) refl)
      ]
