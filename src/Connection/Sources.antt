-- ===== src/Connection/Sources.antt =====
-- The sources that GLib holds for a `Connection` of src/mopidy_mpd/network.py, and the identifiers
-- that the connection keeps.
use mopidy_mpd.Prelude.{
  ℕ, ◌+◌, ◌≡◌, ◌≢◌, refl, sym, ap, ◌∙◌, subst, false, Option, none, some, List, [], ◌∷◌, ◌==◌, ◌⊎◌,
  inl, inr, All, Bool-cases, arith,
}
use mopidy_mpd.Connection.{
  Watch, on_recv, on_send, on_timeout, Connection, remove_source, set_id, id_of, drop_watch,
  disable, add_watch,
}

-- The connection has the identifier of every source.
abbrev pub KnownIn : Connection → List (ℕ × Watch) → Type 0
KnownIn c = All (λ (e : ℕ × Watch). id_of e.1 c ≡ some e.0)

abbrev pub Known : Connection → Type 0
Known c = KnownIn c c.sources

pub KnownIn-of :
    (c d : Connection) (l : List (ℕ × Watch))
    → ((w : Watch) → id_of w d ≡ id_of w c)
    → KnownIn c l
    → KnownIn d l
KnownIn-of c d [] same_ids _ = tt
KnownIn-of c d ((i, w) ∷ l) same_ids (e, es) = (same_ids w ∙ e, KnownIn-of c d l same_ids es)

-- Setting one identifier leaves the others.
abbrev pub Apart : Watch → Watch → Type 0
Apart w v = (w ≡ v) ⊎ ((i : Option ℕ) (c : Connection) → id_of v (set_id w i c) ≡ id_of v c)

pub apart : (w v : Watch) → Apart w v
apart on_recv on_recv = inl refl
apart on_recv on_send = inr (λ i c. refl)
apart on_recv on_timeout = inr (λ i c. refl)
apart on_send on_recv = inr (λ i c. refl)
apart on_send on_send = inl refl
apart on_send on_timeout = inr (λ i c. refl)
apart on_timeout on_recv = inr (λ i c. refl)
apart on_timeout on_send = inr (λ i c. refl)
apart on_timeout on_timeout = inl refl

pub id_of-set_id : (w : Watch) (i : Option ℕ) (c : Connection) → id_of w (set_id w i c) ≡ i
id_of-set_id on_recv i c = refl
id_of-set_id on_send i c = refl
id_of-set_id on_timeout i c = refl

pub sources-set_id :
    (w : Watch) (i : Option ℕ) (c : Connection) → (set_id w i c).sources ≡ c.sources
sources-set_id on_recv i c = refl
sources-set_id on_send i c = refl
sources-set_id on_timeout i c = refl

pub id_of-sources :
    (w : Watch) (l : List (ℕ × Watch)) (c : Connection)
    → id_of w (record c { sources = l }) ≡ id_of w c
id_of-sources on_recv l c = refl
id_of-sources on_send l c = refl
id_of-sources on_timeout l c = refl

pub id_of-new :
    (w : Watch) (l : List (ℕ × Watch)) (n : ℕ) (c : Connection)
    → id_of w (record c { sources = l; next_id = n }) ≡ id_of w c
id_of-new on_recv l n c = refl
id_of-new on_send l n c = refl
id_of-new on_timeout l n c = refl

some_ne : (i j : ℕ) → (j == i) ≡ false → some i ≢ some j
some_ne i j h e = let same : i ≡ j = cc e in ground (arith, h, same)

KnownIn-remove :
    (w : Watch) (i : ℕ) (l rest : List (ℕ × Watch)) (c : Connection)
    → id_of w c ≡ some i
    → KnownIn c l
    → KnownIn (set_id w none (record c { sources = rest })) (remove_source i l)
unfolding remove_source
KnownIn-remove w i [] rest c h _ = tt
KnownIn-remove w i ((j, v) ∷ l) rest c h (e, es) = elim (Bool-cases (j == i)) [
  | inl gone ↦ rw gone (KnownIn-remove w i l rest c h es)
  | inr stays ↦ rw stays (
    elim (apart w v) [
      | inl eq ↦ absurd (some_ne i j stays (sym h ∙ ap (λ (x : Watch). id_of x c) eq ∙ e))
      | inr far ↦ far none (record c { sources = rest }) ∙ id_of-sources v rest c ∙ e
    ],
    KnownIn-remove w i l rest c h es,
  )
]

pub drop_watch-Known :
    (w : Watch) (o : Option ℕ) (c : Connection) → id_of w c ≡ o → Known c → Known (drop_watch w o c)
unfolding drop_watch
drop_watch-Known w none c h k = k
drop_watch-Known w (some i) c h k =
    rw (sources-set_id w none (record c { sources = remove_source i c.sources }))
      (KnownIn-remove w i c.sources (remove_source i c.sources) c h k)

pub disable-Known : (w : Watch) (c : Connection) → Known c → Known (disable w c)
disable-Known w c k = drop_watch-Known w (id_of w c) c refl k

-- A watch that is off is off behind a call that turns off any watch.
pub drop_watch-none :
    (w v : Watch) (o : Option ℕ) (c : Connection)
    → id_of v c ≡ none
    → id_of v (drop_watch w o c) ≡ none
unfolding drop_watch
drop_watch-none w v none c h = h
drop_watch-none w v (some i) c h = elim (apart w v) [
  | inl eq ↦
      subst
        (λ (x : Watch).
          id_of x (set_id w none (record c { sources = remove_source i c.sources })) ≡ none)
        eq (id_of-set_id w none (record c { sources = remove_source i c.sources }))
  | inr far ↦
      far none (record c { sources = remove_source i c.sources })
      ∙ id_of-sources v (remove_source i c.sources) c
      ∙ h
]

pub drop_watch-off :
    (w : Watch) (o : Option ℕ) (c : Connection) → id_of w c ≡ o → id_of w (drop_watch w o c) ≡ none
unfolding drop_watch
drop_watch-off w none c h = h
drop_watch-off w (some i) c h =
    id_of-set_id w none (record c { sources = remove_source i c.sources })

KnownIn-keep :
    (w : Watch) (l rest : List (ℕ × Watch)) (n : ℕ) (c : Connection)
    → id_of w c ≡ none
    → KnownIn c l
    → KnownIn (set_id w (some c.next_id) (record c { sources = rest; next_id = n })) l
KnownIn-keep w [] rest n c h _ = tt
KnownIn-keep w ((j, v) ∷ l) rest n c h (e, es) = (
  elim (apart w v) [
    | inl eq ↦ absurd (cc (h, ap (λ (x : Watch). id_of x c) eq, e))
    | inr far ↦
        far (some c.next_id) (record c { sources = rest; next_id = n }) ∙ id_of-new v rest n c ∙ e
  ],
  KnownIn-keep w l rest n c h es,
)

pub add_watch-Known :
    (w : Watch) (c : Connection) → id_of w c ≡ none → Known c → Known (add_watch w c)
unfolding add_watch
add_watch-Known w c h k =
    let l = (c.next_id, w) ∷ c.sources in
    rw (sources-set_id w (some c.next_id) (record c { sources = l; next_id = c.next_id + 1 })) (
      id_of-set_id w (some c.next_id) (record c { sources = l; next_id = c.next_id + 1 }),
      KnownIn-keep w c.sources l (c.next_id + 1) c h k,
    )
