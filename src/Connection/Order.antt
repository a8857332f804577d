-- ===== src/Connection/Order.antt =====
-- The data of a `Connection` of src/mopidy_mpd/network.py, event by event.
use mopidy_mpd.Prelude.{
  ℕ, zero, suc, ◌≡◌, ◌≢◌, refl, sym, ap, ◌∙◌, Bool, true, false, Option, none, some, [], ◌∷◌, ◌++◌,
  inl, inr, if◌then◌else◌, is_empty, drop, append-nil, if_both, Bool-cases, lt_int, pos,
}
use mopidy_mpd.Utf8.{Bytes}
use mopidy_mpd.Connection.{
  Watch, on_recv, on_send, on_timeout, Connection, drop_watch, disable, add_watch, tell,
  enable_timeout, enable_io, Send, took, would_block, send_error, send_with, refill, watch_rest,
  unwatch_empty, queue_send, send_callback, Recv, data_read, recv_retry, recv_error, receive,
  recv_callback, timeout_callback, after_call, stop, Event, step, queued, writable, readable,
  timed_out, timeout_on, timeout_off, stopped, received, close,
}
use mopidy_mpd.Connection.Sending.{
  Ordered, InOrder, InOrder-Ordered, Ordered-InOrder, Ordered-stop, InOrder-more, after_send,
  InOrder-refill,
}
use mopidy_mpd.Outcome.{Outcome}

enable_send-Ordered :
    (q : Bytes) (i : Option ℕ) (added : Bool) (c : Connection)
    → c.send_id ≡ i
    → InOrder q c
    → Ordered q (enable_io on_send i added c)
unfolding enable_io add_watch
enable_send-Ordered q (some i) added c h o = Ordered-InOrder q c o (λ _ _ e. cc (h, e))
enable_send-Ordered q none true c h o = record {
  rest = o.left;
  in_order = o.order;
  buffered = o.in_buffer;
  shut_down = o.closed_eq;
  watched = λ _ _ e. cc;
}
enable_send-Ordered q none false c h o = Ordered-stop q c o

watch_rest-Ordered :
    (q : Bytes) (added : Bool) (c : Connection) → InOrder q c → Ordered q (watch_rest added c)
unfolding watch_rest
watch_rest-Ordered q added c o = elim (Bool-cases (is_empty c.send_buffer)) [
  | inl e ↦ rw e (Ordered-InOrder q c o (λ _ e'. absurd (cc (e, e'))))
  | inr e ↦ rw e (enable_send-Ordered q c.send_id added c refl o)
]

drop_watch-InOrder :
    (q : Bytes) (w : Watch) (i : Option ℕ) (c : Connection)
    → InOrder q c
    → InOrder q (drop_watch w i c)
unfolding drop_watch
drop_watch-InOrder q w none c o = o
drop_watch-InOrder q on_recv (some i) c o = record {
  left = o.left;
  order = o.order;
  in_buffer = o.in_buffer;
  closed_eq = o.closed_eq;
}
drop_watch-InOrder q on_send (some i) c o = record {
  left = o.left;
  order = o.order;
  in_buffer = o.in_buffer;
  closed_eq = o.closed_eq;
}
drop_watch-InOrder q on_timeout (some i) c o = record {
  left = o.left;
  order = o.order;
  in_buffer = o.in_buffer;
  closed_eq = o.closed_eq;
}

drop_watch-buffer :
    (w : Watch) (i : Option ℕ) (c : Connection) → (drop_watch w i c).send_buffer ≡ c.send_buffer
unfolding drop_watch
drop_watch-buffer w none c = refl
drop_watch-buffer on_recv (some i) c = refl
drop_watch-buffer on_send (some i) c = refl
drop_watch-buffer on_timeout (some i) c = refl

-- To be watched while there is data to send.
abbrev Watches : Connection → Type 0
Watches c = c.stopping ≡ false → is_empty c.send_buffer ≡ false → c.send_id ≢ none

unwatch_empty-Ordered :
    (q : Bytes) (c : Connection) → InOrder q c → Watches c → Ordered q (unwatch_empty c)
unfolding unwatch_empty
unwatch_empty-Ordered q c o w = elim (Bool-cases (is_empty c.send_buffer)) [
  | inl e ↦ rw e (
      Ordered-InOrder q (disable on_send c) (drop_watch-InOrder q on_send c.send_id c o)
        (λ _ e'. absurd (cc (e, e', ap is_empty (drop_watch-buffer on_send c.send_id c)))))
  | inr e ↦ rw e (Ordered-InOrder q c o w)
]

drop_nil : (n : ℕ) → drop {A = ℕ} n [] ≡ []
drop_nil zero = refl
drop_nil (suc n) = refl

empty_rest : (n : ℕ) (bytes : Bytes) → is_empty (drop n bytes) ≡ false → is_empty bytes ≡ false
empty_rest n [] h = ap is_empty (sym (drop_nil n)) ∙ h
empty_rest n (b ∷ bytes) h = refl

Watches-after_send :
    (answer : Send) (c : Connection) → Watches c → Watches (after_send answer c.send_buffer c)
unfolding send_with
Watches-after_send (took n) c w = λ s e. w s (empty_rest n c.send_buffer e)
Watches-after_send would_block c w = w
Watches-after_send send_error c w = λ s e. absurd (cc e)

Watches-refill :
    (answer : Send) (c : Connection) → Watches c → Watches (refill answer c.send_buffer c)
Watches-refill answer c w = Watches-after_send (if c.closed then send_error else answer) c w

queue_send-Ordered :
    (q bytes : Bytes) (answer : Send) (added : Bool) (c : Connection)
    → Ordered q c
    → Ordered (q ++ bytes) (queue_send answer added bytes c)
unfolding queue_send
queue_send-Ordered q bytes answer added c o =
    watch_rest-Ordered (q ++ bytes) added (refill answer (c.send_buffer ++ bytes) c)
      (InOrder-refill (q ++ bytes) (c.send_buffer ++ bytes) answer c (InOrder-more q bytes c o))

send_callback-Ordered :
    (q : Bytes) (bad locked : Bool) (answer : Send) (c : Connection)
    → Ordered q c
    → Ordered q (send_callback bad locked answer c).1
unfolding send_callback
send_callback-Ordered q true locked answer c o = Ordered-stop q c (InOrder-Ordered q c o)
send_callback-Ordered q false true answer c o = o
send_callback-Ordered q false false answer c o =
    unwatch_empty-Ordered q (refill answer c.send_buffer c)
      (InOrder-refill q c.send_buffer answer c (InOrder-Ordered q c o))
      (Watches-refill answer c o.watched)

-- A change that the data and the watch for it do not see.
Ordered-of :
    (q : Bytes) (c d : Connection)
    → d.sent ≡ c.sent
    → d.stopping ≡ c.stopping
    → d.closed ≡ c.closed
    → d.send_buffer ≡ c.send_buffer
    → d.send_id ≡ c.send_id
    → Ordered q c
    → Ordered q d
Ordered-of q c d sent_eq stopping_eq closed_eq buffer_eq id_eq o = record {
  rest = o.rest;
  in_order = ap (λ (s : Bytes). s ++ o.rest) sent_eq ∙ o.in_order;
  buffered = λ e. o.buffered (sym stopping_eq ∙ e) ∙ sym buffer_eq;
  shut_down = closed_eq ∙ o.shut_down ∙ sym stopping_eq;
  watched =
      λ s e i. o.watched (sym stopping_eq ∙ s) (ap is_empty (sym buffer_eq) ∙ e) (sym id_eq ∙ i);
}

drop_watch-Ordered :
    (q : Bytes) (w : Watch) (i : Option ℕ) (c : Connection)
    → w ≢ on_send
    → Ordered q c
    → Ordered q (drop_watch w i c)
unfolding drop_watch
drop_watch-Ordered q w none c ne o = o
drop_watch-Ordered q on_recv (some i) c ne o =
    Ordered-of q c (drop_watch on_recv (some i) c) refl refl refl refl refl o
drop_watch-Ordered q on_send (some i) c ne o = absurd (ne refl)
drop_watch-Ordered q on_timeout (some i) c ne o =
    Ordered-of q c (drop_watch on_timeout (some i) c) refl refl refl refl refl o

receive-Ordered :
    (q : Bytes) (answer : Recv) (c : Connection) → Ordered q c → Ordered q (receive answer c).1
unfolding receive
receive-Ordered q recv_retry c o = o
receive-Ordered q recv_error c o = Ordered-stop q c (InOrder-Ordered q c o)
receive-Ordered q (data_read []) c o =
    let d = disable on_recv c in
    let off = drop_watch-Ordered q on_recv c.recv_id c (λ e. cc) o in
    if_both (λ (r : Outcome Bool × Connection). Ordered q r.1) c.actor_alive
      (Ordered-of q d (tell close d) refl refl refl refl refl off) off
receive-Ordered q (data_read (b ∷ bs)) c o =
    if_both (λ (r : Outcome Bool × Connection). Ordered q r.1) c.actor_alive
      (Ordered-of q c (tell (received (b ∷ bs)) c) refl refl refl refl refl o)
      (Ordered-stop q c (InOrder-Ordered q c o))

recv_callback-Ordered :
    (q : Bytes) (bad : Bool) (answer : Recv) (c : Connection)
    → Ordered q c
    → Ordered q (recv_callback bad answer c).1
unfolding recv_callback
recv_callback-Ordered q true answer c o = Ordered-stop q c (InOrder-Ordered q c o)
recv_callback-Ordered q false answer c o = receive-Ordered q answer c o

enable_timeout-Ordered : (q : Bytes) (c : Connection) → Ordered q c → Ordered q (enable_timeout c)
unfolding enable_timeout add_watch
enable_timeout-Ordered q c o = elim (Bool-cases (lt_int (pos 0) c.timeout)) [
  | inr e ↦ rw e o
  | inl e ↦
      let d = disable on_timeout c in
      rw e (
        Ordered-of q d (add_watch on_timeout d) refl refl refl refl refl
          (drop_watch-Ordered q on_timeout c.timeout_id c (λ e'. cc) o))
]

after_call-Ordered :
    (q : Bytes) (stays : Bool) (i : Option ℕ) (c : Connection)
    → Ordered q c
    → Ordered q (after_call stays i c)
unfolding after_call
after_call-Ordered q true i c o = o
after_call-Ordered q false none c o = o
after_call-Ordered q false (some i) c o = Ordered-of q c _ refl refl refl refl refl o

-- The data that an event queues.
abbrev pub queues : Event → Bytes
queues (queued answer added bytes) = bytes
queues _ = []

-- Whatever happens to a connection, what its socket took is the beginning of what was queued, in
-- order and with nothing twice; the rest is in the buffer, and the socket is watched while there is
-- a rest, unless the connection is stopping.
pub step-Ordered :
    (q : Bytes) (e : Event) (c : Connection) → Ordered q c → Ordered (q ++ queues e) (step e c)
unfolding step timeout_callback
step-Ordered q (queued answer added bytes) c o = queue_send-Ordered q bytes answer added c o
step-Ordered q (writable bad locked answer) c o =
    rw (append-nil q) (send_callback-Ordered q bad locked answer c o)
step-Ordered q (readable bad answer) c o =
    rw (append-nil q) (recv_callback-Ordered q bad answer c o)
step-Ordered q timed_out c o =
    rw (append-nil q)
      (after_call-Ordered q false c.timeout_id (stop c) (Ordered-stop q c (InOrder-Ordered q c o)))
step-Ordered q timeout_on c o = rw (append-nil q) (enable_timeout-Ordered q c o)
step-Ordered q timeout_off c o =
    rw (append-nil q) (drop_watch-Ordered q on_timeout c.timeout_id c (λ e. cc) o)
step-Ordered q stopped c o = rw (append-nil q) (Ordered-stop q c (InOrder-Ordered q c o))
