-- ===== src/Connection/Stop.antt =====
-- `Connection.stop` of src/mopidy_mpd/network.py.
use mopidy_mpd.Prelude.{
  ℕ, ◌≡◌, refl, ap, ◌∙◌, true, false, Option, none, some, List, [], ◌∷◌, inl, inr, Bool-cases,
}
use mopidy_mpd.Connection.{
  Watch, on_recv, on_send, on_timeout, Connection, id_of, drop_watch, disable, tell, shut, stop,
  stop_actor,
}
use mopidy_mpd.Connection.Sources.{
  Known, KnownIn, KnownIn-of, disable-Known, drop_watch-none, drop_watch-off,
}

-- The connection of `shut` before its socket is closed.
abbrev all_off : Connection → Connection
all_off c = disable on_send (disable on_recv (disable on_timeout c))

all_off-Known : (c : Connection) → Known c → Known (all_off c)
all_off-Known c k =
    disable-Known on_send (disable on_recv (disable on_timeout c))
      (disable-Known on_recv (disable on_timeout c) (disable-Known on_timeout c k))

all_off-none : (w : Watch) (c : Connection) → id_of w (all_off c) ≡ none
all_off-none on_timeout c =
    let a = disable on_timeout c in
    let b = disable on_recv a in
    drop_watch-none on_send on_timeout b.send_id b (
      drop_watch-none on_recv on_timeout a.recv_id a
        (drop_watch-off on_timeout c.timeout_id c refl))
all_off-none on_recv c =
    let a = disable on_timeout c in
    let b = disable on_recv a in
    drop_watch-none on_send on_recv b.send_id b (drop_watch-off on_recv a.recv_id a refl)
all_off-none on_send c =
    let b = disable on_recv (disable on_timeout c) in drop_watch-off on_send b.send_id b refl

no_source :
    (c : Connection) (l : List (ℕ × Watch))
    → ((w : Watch) → id_of w c ≡ none)
    → KnownIn c l
    → l ≡ []
no_source c [] off _ = refl
no_source c ((i, w) ∷ l) off (e, es) = absurd (cc (off w, e))

-- The fields that no watch changes.
pub record Same (c d : Connection) : Type 0 where
  pub same_stopping : d.stopping ≡ c.stopping
  pub same_closed : d.closed ≡ c.closed
  pub same_buffer : d.send_buffer ≡ c.send_buffer
  pub same_sent : d.sent ≡ c.sent

Same-refl : (c : Connection) → Same c c
Same-refl c = record {
  same_stopping = refl;
  same_closed = refl;
  same_buffer = refl;
  same_sent = refl;
}

pub drop_watch-Same : (w : Watch) (o : Option ℕ) (c : Connection) → Same c (drop_watch w o c)
unfolding drop_watch
drop_watch-Same w none c = Same-refl c
drop_watch-Same on_recv (some i) c = record {
  same_stopping = refl;
  same_closed = refl;
  same_buffer = refl;
  same_sent = refl;
}
drop_watch-Same on_send (some i) c = record {
  same_stopping = refl;
  same_closed = refl;
  same_buffer = refl;
  same_sent = refl;
}
drop_watch-Same on_timeout (some i) c = record {
  same_stopping = refl;
  same_closed = refl;
  same_buffer = refl;
  same_sent = refl;
}

Same-trans : (a b c : Connection) → Same a b → Same b c → Same a c
Same-trans a b c p q = record {
  same_stopping = q.same_stopping ∙ p.same_stopping;
  same_closed = q.same_closed ∙ p.same_closed;
  same_buffer = q.same_buffer ∙ p.same_buffer;
  same_sent = q.same_sent ∙ p.same_sent;
}

all_off-Same : (c : Connection) → Same c (all_off c)
all_off-Same c =
    let a = disable on_timeout c in
    let b = disable on_recv a in
    Same-trans c a (all_off c) (drop_watch-Same on_timeout c.timeout_id c) (
      Same-trans a b (all_off c) (drop_watch-Same on_recv a.recv_id a)
        (drop_watch-Same on_send b.send_id b))

begun : Connection → Connection
begun c = tell stop_actor (record c { stopping = true })

shut_lem : (c : Connection) → shut c ≡ record (all_off (begun c)) { closed = true }
unfolding shut begun
shut_lem c = refl

closed-id : (w : Watch) (c : Connection) → id_of w (record c { closed = true }) ≡ id_of w c
closed-id on_recv c = refl
closed-id on_send c = refl
closed-id on_timeout c = refl

begun-id : (w : Watch) (c : Connection) → id_of w (begun c) ≡ id_of w c
unfolding begun
begun-id on_recv c = refl
begun-id on_send c = refl
begun-id on_timeout c = refl

begun-Known : (c : Connection) → Known c → Known (begun c)
unfolding begun
begun-Known c k = KnownIn-of c (begun c) c.sources (λ w. begun-id w c) k

begun-Same : (c : Connection) → Same (record c { stopping = true }) (begun c)
unfolding begun
begun-Same c = record {
  same_stopping = refl;
  same_closed = refl;
  same_buffer = refl;
  same_sent = refl;
}

pub shut-ids : (w : Watch) (c : Connection) → id_of w (shut c) ≡ none
shut-ids w c =
    ap (id_of w) (shut_lem c) ∙ closed-id w (all_off (begun c)) ∙ all_off-none w (begun c)

pub shut-sources : (c : Connection) → Known c → (shut c).sources ≡ []
shut-sources c k =
    ap (λ (d : Connection). d.sources) (shut_lem c)
    ∙ no_source (all_off (begun c)) (all_off (begun c)).sources (λ w. all_off-none w (begun c))
        (all_off-Known (begun c) (begun-Known c k))

-- What `shut` leaves of the fields that no watch changes.
pub shut-stopping : (c : Connection) → (shut c).stopping ≡ true
shut-stopping c =
    ap (λ (d : Connection). d.stopping) (shut_lem c)
    ∙ (all_off-Same (begun c)).same_stopping
    ∙ (begun-Same c).same_stopping

pub shut-closed : (c : Connection) → (shut c).closed ≡ true
shut-closed c = ap (λ (d : Connection). d.closed) (shut_lem c)

pub shut-sent : (c : Connection) → (shut c).sent ≡ c.sent
shut-sent c =
    ap (λ (d : Connection). d.sent) (shut_lem c)
    ∙ (all_off-Same (begun c)).same_sent
    ∙ (begun-Same c).same_sent

pub stop_off : (c : Connection) → c.stopping ≡ false → stop c ≡ shut c
unfolding stop
stop_off c h = rw (h, stop)

pub stop_on : (c : Connection) → c.stopping ≡ true → stop c ≡ c
unfolding stop
stop_on c h = rw (h, stop)

-- A connection that stops is marked so, has closed its socket, and has no source left in GLib nor
-- an identifier of one, where it had the identifiers of all its sources.
pub stop-releases :
    (c : Connection)
    → Known c
    → c.stopping ≡ false
    → ((stop c).stopping ≡ true)
      × ((stop c).closed ≡ true)
      × ((stop c).sources ≡ [])
      × ((w : Watch) → id_of w (stop c) ≡ none)
stop-releases c k h =
    rw (stop_off c h) (shut-stopping c, shut-closed c, shut-sources c k, λ w. shut-ids w c)

-- To stop a connection twice is to stop it once.
pub stop-stop : (c : Connection) → stop (stop c) ≡ stop c
stop-stop c = elim (Bool-cases c.stopping) [
  | inl e ↦ ap stop (stop_on c e)
  | inr e ↦ stop_on (stop c) (ap (λ (d : Connection). d.stopping) (stop_off c e) ∙ shut-stopping c)
]
