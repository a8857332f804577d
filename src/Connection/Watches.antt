-- ===== src/Connection/Watches.antt =====
-- The identifiers that a `Connection` of src/mopidy_mpd/network.py keeps, and the sources that they
-- are of.
use mopidy_mpd.Prelude.{
  ℕ, ◌+◌, ◌<◌, ◌≡◌, ◌≢◌, refl, sym, ap, ◌∙◌, subst, true, false, Option, none, some, List, [], ◌∷◌,
  ◌==◌, ◌⊎◌, inl, inr, Bool-cases, arith,
}
use mopidy_mpd.Connection.{
  Watch, on_recv, on_send, on_timeout, Connection, remove_source, set_id, id_of, drop_watch,
  add_watch, shut, stop, after_call,
}
use mopidy_mpd.Connection.Sources.{apart, id_of-set_id, sources-set_id, id_of-sources, id_of-new}
use mopidy_mpd.Connection.Events.{IsKept}
use mopidy_mpd.Connection.Stop.{shut-ids, shut-stopping, stop_off, stop_on}

-- GLib holds the source, for that watch.
abbrev pub IsHeld : ℕ → Watch → List (ℕ × Watch) → Type 0
IsHeld i w [] = ⊥
IsHeld i w ((j, v) ∷ sources) = ((j ≡ i) × (v ≡ w)) ⊎ IsHeld i w sources

-- No two watches share an identifier, none is one that GLib is still to give, and each is of a
-- source that GLib holds for its watch, unless the connection is stopping.
pub record Watched (c : Connection) : Type 0 where
  pub given : (w : Watch) (i : ℕ) → id_of w c ≡ some i → i < c.next_id
  pub own : (w v : Watch) (i : ℕ) → id_of w c ≡ some i → id_of v c ≡ some i → w ≡ v
  pub held : c.stopping ≡ false → (w : Watch) (i : ℕ) → id_of w c ≡ some i → IsHeld i w c.sources

Watched-of :
    (c d : Connection)
    → ((w : Watch) → id_of w d ≡ id_of w c)
    → d.sources ≡ c.sources
    → d.next_id ≡ c.next_id
    → d.stopping ≡ c.stopping
    → Watched c
    → Watched d
Watched-of c d ids sources next stopping h = record {
  given = λ w i e. subst (λ (n : ℕ). i < n) (sym next) (h.given w i (sym (ids w) ∙ e));
  own = λ w v i e e'. h.own w v i (sym (ids w) ∙ e) (sym (ids v) ∙ e');
  held = λ live w i e.
      subst (IsHeld i w) (sym sources) (h.held (sym stopping ∙ live) w i (sym (ids w) ∙ e));
}

-- A connection without identifiers.
pub Watched-off : (c : Connection) → ((w : Watch) → id_of w c ≡ none) → Watched c
Watched-off c off = record {
  given = λ w i e. absurd (cc (off w, e));
  own = λ w v i e e'. absurd (cc (off w, e));
  held = λ live w i e. absurd (cc (off w, e));
}

IsHeld-remove :
    (i j : ℕ) (w : Watch) (l : List (ℕ × Watch))
    → i ≢ j
    → IsHeld j w l
    → IsHeld j w (remove_source i l)
unfolding remove_source
IsHeld-remove i j w [] ne h = h
IsHeld-remove i j w ((k, v) ∷ l) ne (inl (e, e')) =
    let stays : (k == i) ≡ false = ground (arith, ne, e) in rw stays (inl (e, e'))
IsHeld-remove i j w ((k, v) ∷ l) ne (inr h) = elim (Bool-cases (k == i)) [
  | inl gone ↦ rw gone (IsHeld-remove i j w l ne h)
  | inr stays ↦ rw stays (inr (IsHeld-remove i j w l ne h))
]

module _ (w : Watch) (o : Option ℕ) (l : List (ℕ × Watch)) (n : ℕ) (c : Connection) where
  abbrev set_watch : Connection
  set_watch = set_id w o (record c { sources = l; next_id = n })

  set_watch-next : set_watch.next_id ≡ n
  set_watch-next = on w
    where
      on : (v : Watch) → (set_id v o (record c { sources = l; next_id = n })).next_id ≡ n
      on on_recv = refl
      on on_send = refl
      on on_timeout = refl

  set_watch-stopping : set_watch.stopping ≡ c.stopping
  set_watch-stopping = on w
    where
      on : (v : Watch) → (set_id v o (record c { sources = l; next_id = n })).stopping ≡ c.stopping
      on on_recv = refl
      on on_send = refl
      on on_timeout = refl

  -- An identifier is the new one, or it was there, for another watch.
  set_watch-id :
      (v : Watch) (i : ℕ)
      → id_of v set_watch ≡ some i
      → ((w ≡ v) × (o ≡ some i)) ⊎ (id_of v c ≡ some i)
  set_watch-id v i e = elim (apart w v) [
    | inl same ↦ inl (
      same,
      sym (id_of-set_id w o (record c { sources = l; next_id = n }))
          ∙ ap (λ (x : Watch). id_of x set_watch) same
          ∙ e,
    )
    | inr far ↦
        inr (sym (id_of-new v l n c) ∙ sym (far o (record c { sources = l; next_id = n })) ∙ e)
  ]

drop_watch-Watched :
    (w : Watch) (o : Option ℕ) (c : Connection)
    → id_of w c ≡ o
    → Watched c
    → Watched (drop_watch w o c)
unfolding drop_watch
drop_watch-Watched w none c off h = h
drop_watch-Watched w (some i) c has h = record {
  given = λ v j e.
      subst (λ (n : ℕ). j < n) (sym (set_watch-next w none l c.next_id c))
        (h.given v j (before v j e));
  own = λ v u j e e'. h.own v u j (before v j e) (before u j e');
  held = λ live v j e. subst (IsHeld j v) (sym (sources-set_id w none (record c { sources = l }))) (
      IsHeld-remove i j v c.sources (other v j e)
        (h.held (sym (set_watch-stopping w none l c.next_id c) ∙ live) v j (before v j e)));
}
  where
    l : List (ℕ × Watch)
    l = remove_source i c.sources

    before :
        (v : Watch) (j : ℕ) → id_of v (set_watch w none l c.next_id c) ≡ some j → id_of v c ≡ some j
    before v j e = elim (set_watch-id w none l c.next_id c v j e) [
      | inl (same, e') ↦ absurd (cc e')
      | inr e' ↦ e'
    ]

    other : (v : Watch) (j : ℕ) → id_of v (set_watch w none l c.next_id c) ≡ some j → i ≢ j
    other v j e eq =
        let same = h.own w v j (has ∙ ap some eq) (before v j e) in
        absurd (
          cc (
            sym (ap (λ (x : Watch). id_of x (set_watch w none l c.next_id c)) same)
                ∙ id_of-set_id w none (record c { sources = l }),
            e,
          ))

add_watch-Watched :
    (w : Watch) (c : Connection) → id_of w c ≡ none → Watched c → Watched (add_watch w c)
unfolding add_watch
add_watch-Watched w c off h = record {
  given = λ v j e.
      subst (λ (n : ℕ). j < n) (sym (set_watch-next w (some c.next_id) l (c.next_id + 1) c))
        (elim (set_watch-id w (some c.next_id) l (c.next_id + 1) c v j e) [
          | inl (same, e') ↦ omega (arith, same_number j e')
          | inr e' ↦ omega (arith, h.given v j e')
        ]);
  own = λ v u j e e'. elim (set_watch-id w (some c.next_id) l (c.next_id + 1) c v j e) [
    | inl (same, new) ↦ elim (set_watch-id w (some c.next_id) l (c.next_id + 1) c u j e') [
      | inl (same', new') ↦ sym same ∙ same'
      | inr old ↦ absurd (omega (arith, same_number j new, h.given u j old))
    ]
    | inr old ↦ elim (set_watch-id w (some c.next_id) l (c.next_id + 1) c u j e') [
      | inl (same', new') ↦ absurd (omega (arith, same_number j new', h.given v j old))
      | inr old' ↦ h.own v u j old old'
    ]
  ];
  held = λ live v j e.
      subst (IsHeld j v)
        (sym
          (sources-set_id w (some c.next_id) (record c { sources = l; next_id = c.next_id + 1 })))
        (elim (set_watch-id w (some c.next_id) l (c.next_id + 1) c v j e) [
          | inl (same, new) ↦ inl (same_number j new, same)
          | inr old ↦ inr (
              h.held (sym (set_watch-stopping w (some c.next_id) l (c.next_id + 1) c) ∙ live) v j
                old)
        ]);
}
  where
    l : List (ℕ × Watch)
    l = (c.next_id, w) ∷ c.sources

    same_number : (j : ℕ) → some c.next_id ≡ some j → c.next_id ≡ j
    same_number j e = cc

stop-Watched : (c : Connection) → Watched c → Watched (stop c)
stop-Watched c h = elim (Bool-cases c.stopping) [
  | inl e ↦ subst Watched (sym (stop_on c e)) h
  | inr e ↦ subst Watched (sym (stop_off c e)) (Watched-off (shut c) (λ w. shut-ids w c))
]

stop-stopping : (c : Connection) → (stop c).stopping ≡ true
stop-stopping c = elim (Bool-cases c.stopping) [
  | inl e ↦ ap (λ (d : Connection). d.stopping) (stop_on c e) ∙ e
  | inr e ↦ ap (λ (d : Connection). d.stopping) (stop_off c e) ∙ shut-stopping c
]

-- What GLib removes when the timeout has run out was of a connection that is stopping.
gone-Watched :
    (i : Option ℕ) (c : Connection) → c.stopping ≡ true → Watched c → Watched (after_call false i c)
unfolding after_call
gone-Watched none c e h = h
gone-Watched (some i) c e h = record {
  given = λ w j e'. h.given w j (sym (id_of-sources w (remove_source i c.sources) c) ∙ e');
  own = λ w v j e' e''.
      h.own w v j (sym (id_of-sources w (remove_source i c.sources) c) ∙ e')
        (sym (id_of-sources v (remove_source i c.sources) c) ∙ e'');
  held = λ live. absurd (cc (e, live));
}

pub Watched-IsKept : IsKept Watched
Watched-IsKept = record {
  same = Watched-of;
  disabled = λ w c h. drop_watch-Watched w (id_of w c) c refl h;
  added = add_watch-Watched;
  ended = stop-Watched;
  gone = λ i c h. gone-Watched i (stop c) (stop-stopping c) h;
}
