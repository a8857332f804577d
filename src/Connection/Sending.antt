-- ===== src/Connection/Sending.antt =====
-- `send` of `Connection` in src/mopidy_mpd/network.py: the data that was queued, taken and kept.
use mopidy_mpd.Prelude.{
  ◌≡◌, ◌≢◌, refl, sym, ap, ◌∙◌, subst, Bool, true, false, none, ◌++◌, inl, inr, if◌then◌else◌,
  is_empty, take, drop, take-append-drop, append_assoc, Bool-cases,
}
use mopidy_mpd.Utf8.{Bytes}
use mopidy_mpd.Connection.{
  Connection, shut, stop, Send, took, would_block, send_error, send_with, refill,
}
use mopidy_mpd.Connection.Stop.{shut-stopping, shut-closed, shut-sent, stop_off, stop_on}

-- `data` is all that was queued. What the socket took is its beginning, and the rest is the buffer,
-- unless the connection is stopping. While there is data in the buffer, GLib watches the socket.
pub record Ordered (data_queued : Bytes) (c : Connection) : Type 0 where
  pub rest : Bytes
  pub in_order : c.sent ++ rest ≡ data_queued
  pub buffered : c.stopping ≡ false → rest ≡ c.send_buffer
  pub shut_down : c.closed ≡ c.stopping
  pub watched : c.stopping ≡ false → is_empty c.send_buffer ≡ false → c.send_id ≢ none

-- The part that does not ask for the watch.
pub record InOrder (data_queued : Bytes) (c : Connection) : Type 0 where
  pub left : Bytes
  pub order : c.sent ++ left ≡ data_queued
  pub in_buffer : c.stopping ≡ false → left ≡ c.send_buffer
  pub closed_eq : c.closed ≡ c.stopping

pub InOrder-Ordered : (q : Bytes) (c : Connection) → Ordered q c → InOrder q c
InOrder-Ordered q c o = record {
  left = o.rest;
  order = o.in_order;
  in_buffer = o.buffered;
  closed_eq = o.shut_down;
}

pub Ordered-InOrder :
    (q : Bytes) (c : Connection)
    → InOrder q c
    → (c.stopping ≡ false → is_empty c.send_buffer ≡ false → c.send_id ≢ none)
    → Ordered q c
Ordered-InOrder q c o w = record {
  rest = o.left;
  in_order = o.order;
  buffered = o.in_buffer;
  shut_down = o.closed_eq;
  watched = w;
}

-- A stopping connection keeps what the socket took.
Ordered-stopping :
    (q : Bytes) (c d : Connection)
    → InOrder q c
    → d.sent ≡ c.sent
    → d.stopping ≡ true
    → d.closed ≡ true
    → Ordered q d
Ordered-stopping q c d o sent_eq stopping closed = record {
  rest = o.left;
  in_order = ap (λ (s : Bytes). s ++ o.left) sent_eq ∙ o.order;
  buffered = λ e. absurd (cc (e, stopping));
  shut_down = closed ∙ sym stopping;
  watched = λ e. absurd (cc (e, stopping));
}

pub Ordered-stop : (q : Bytes) (c : Connection) → InOrder q c → Ordered q (stop c)
Ordered-stop q c o = elim (Bool-cases c.stopping) [
  | inl e ↦
      subst (Ordered q) (sym (stop_on c e)) (Ordered-stopping q c c o refl e (o.closed_eq ∙ e))
  | inr e ↦
      subst (Ordered q) (sym (stop_off c e))
        (Ordered-stopping q c (shut c) o (shut-sent c) (shut-stopping c) (shut-closed c))
]

pub InOrder-more :
    (q bytes : Bytes) (c : Connection)
    → Ordered q c
    → InOrder (q ++ bytes) (record c { send_buffer = c.send_buffer ++ bytes })
InOrder-more q bytes c o = record {
  left = o.rest ++ bytes;
  order = sym (append_assoc c.sent o.rest bytes) ∙ ap (λ (s : Bytes). s ++ bytes) o.in_order;
  in_buffer = λ e. ap (λ (s : Bytes). s ++ bytes) (o.buffered e);
  closed_eq = o.shut_down;
}

-- The connection behind a call of `send` with all of the data, and its rest in the buffer.
abbrev pub after_send : Send → Bytes → Connection → Connection
after_send answer bytes c = record (send_with answer bytes c).1 {
  send_buffer = (send_with answer bytes c).0;
}

stop-stopping : (c : Connection) → (stop c).stopping ≡ true
stop-stopping c = elim (Bool-cases c.stopping) [
  | inl e ↦ ap (λ (d : Connection). d.stopping) (stop_on c e) ∙ e
  | inr e ↦ ap (λ (d : Connection). d.stopping) (stop_off c e) ∙ shut-stopping c
]

stop-sent : (c : Connection) → (stop c).sent ≡ c.sent
stop-sent c = elim (Bool-cases c.stopping) [
  | inl e ↦ ap (λ (d : Connection). d.sent) (stop_on c e)
  | inr e ↦ ap (λ (d : Connection). d.sent) (stop_off c e) ∙ shut-sent c
]

stop-closed : (c : Connection) → c.closed ≡ c.stopping → (stop c).closed ≡ true
stop-closed c h = elim (Bool-cases c.stopping) [
  | inl e ↦ ap (λ (d : Connection). d.closed) (stop_on c e) ∙ h ∙ e
  | inr e ↦ ap (λ (d : Connection). d.closed) (stop_off c e) ∙ shut-closed c
]

InOrder-after_send :
    (q bytes : Bytes) (answer : Send) (c : Connection)
    → (answer ≢ send_error → c.stopping ≡ false)
    → InOrder q (record c { send_buffer = bytes })
    → InOrder q (after_send answer bytes c)
unfolding send_with
InOrder-after_send q bytes would_block c live o = o
InOrder-after_send q bytes send_error c live o = record {
  left = o.left;
  order = ap (λ (s : Bytes). s ++ o.left) (stop-sent c) ∙ o.order;
  in_buffer = λ e. absurd (cc (e, stop-stopping c));
  closed_eq = stop-closed c o.closed_eq ∙ sym (stop-stopping c);
}
InOrder-after_send q bytes (took n) c live o = record {
  left = drop n bytes;
  order =
      append_assoc c.sent (take n bytes) (drop n bytes)
      ∙ ap (λ (s : Bytes). c.sent ++ s)
          (take-append-drop n bytes ∙ sym (o.in_buffer (live (λ e. cc))))
      ∙ o.order;
  in_buffer = λ e. refl;
  closed_eq = o.closed_eq;
}

pub InOrder-refill :
    (q bytes : Bytes) (answer : Send) (c : Connection)
    → InOrder q (record c { send_buffer = bytes })
    → InOrder q (refill answer bytes c)
InOrder-refill q bytes answer c o = elim (Bool-cases c.closed) [
  | inl e ↦
      subst (λ (b : Bool). InOrder q (after_send (if b then send_error else answer) bytes c))
        (sym e) (InOrder-after_send q bytes send_error c (λ ne. absurd (ne refl)) o)
  | inr e ↦
      subst (λ (b : Bool). InOrder q (after_send (if b then send_error else answer) bytes c))
        (sym e) (InOrder-after_send q bytes answer c (λ _. sym o.closed_eq ∙ e) o)
]
