-- ===== src/Connection/Events.antt =====
-- The events of a `Connection` of src/mopidy_mpd/network.py, and what they leave of its watches.
use mopidy_mpd.Prelude.{
  ℕ, ◌≡◌, refl, Bool, true, false, Option, none, some, [], ◌∷◌, ◌++◌, if◌then◌else◌, if_both,
  is_empty, lt_int, pos,
}
use mopidy_mpd.Outcome.{Outcome}
use mopidy_mpd.Utf8.{Bytes}
use mopidy_mpd.Connection.{
  Watch, on_recv, on_send, on_timeout, Connection, id_of, disable, add_watch, tell, Message, stop,
  enable_timeout, enable_io, Send, took, would_block, send_error, send_with, refill, watch_rest,
  unwatch_empty, queue_send, send_callback, Recv, data_read, recv_retry, recv_error, receive,
  recv_callback, timeout_callback, after_call, Event, step, queued, writable, readable, timed_out,
  timeout_on, timeout_off, stopped, received, close,
}
use mopidy_mpd.Connection.Sources.{drop_watch-off}

-- A property of the watches is kept by the calls that change one, by a stop, and by all that
-- changes neither watches nor identifiers.
pub record IsKept (P : Connection → Type 0) : Type 0 where
  pub same :
      (c d : Connection)
      → ((w : Watch) → id_of w d ≡ id_of w c)
      → d.sources ≡ c.sources
      → d.next_id ≡ c.next_id
      → d.stopping ≡ c.stopping
      → P c
      → P d
  pub disabled : (w : Watch) (c : Connection) → P c → P (disable w c)
  pub added : (w : Watch) (c : Connection) → id_of w c ≡ none → P c → P (add_watch w c)
  pub ended : (c : Connection) → P c → P (stop c)
  pub gone : (i : Option ℕ) (c : Connection) → P (stop c) → P (after_call false i (stop c))

-- The identifiers where the data and the actor have changed.
id-taken :
    (w : Watch) (b s : Bytes) (c : Connection)
    → id_of w (record c { send_buffer = b; sent = s }) ≡ id_of w c
id-taken on_recv b s c = refl
id-taken on_send b s c = refl
id-taken on_timeout b s c = refl

id-told : (w : Watch) (m : Message) (c : Connection) → id_of w (tell m c) ≡ id_of w c
id-told on_recv m c = refl
id-told on_send m c = refl
id-told on_timeout m c = refl

module _ (P : Connection → Type 0) (kept : IsKept P) where
  tell-Kept : (m : Message) (c : Connection) → P c → P (tell m c)
  tell-Kept m c h = kept.same c (tell m c) (λ w. id-told w m c) refl refl refl h

  taken-Kept : (b s : Bytes) (c : Connection) → P c → P (record c { send_buffer = b; sent = s })
  taken-Kept b s c h =
      kept.same c (record c { send_buffer = b; sent = s }) (λ w. id-taken w b s c) refl refl refl h

  sent-Kept :
      (answer : Send) (bytes : Bytes) (c : Connection)
      → P c
      → P (record (send_with answer bytes c).1 { send_buffer = (send_with answer bytes c).0 })
  unfolding send_with
  sent-Kept (took n) bytes c h = taken-Kept _ _ c h
  sent-Kept would_block bytes c h = taken-Kept bytes c.sent c h
  sent-Kept send_error bytes c h = taken-Kept [] (stop c).sent (stop c) (kept.ended c h)

  refill-Kept : (answer : Send) (bytes : Bytes) (c : Connection) → P c → P (refill answer bytes c)
  refill-Kept answer bytes c h = sent-Kept (if c.closed then send_error else answer) bytes c h

  pub enable_io-Kept :
      (w : Watch) (i : Option ℕ) (added : Bool) (c : Connection)
      → id_of w c ≡ i
      → P c
      → P (enable_io w i added c)
  unfolding enable_io
  enable_io-Kept w (some i) added c e h = h
  enable_io-Kept w none true c e h = kept.added w c e h
  enable_io-Kept w none false c e h = kept.ended c h

  pub enable_timeout-Kept : (c : Connection) → P c → P (enable_timeout c)
  unfolding enable_timeout
  enable_timeout-Kept c h =
      if_both P (lt_int (pos 0) c.timeout)
        (kept.added on_timeout (disable on_timeout c)
          (drop_watch-off on_timeout c.timeout_id c refl) (kept.disabled on_timeout c h))
        h

  receive-Kept : (answer : Recv) (c : Connection) → P c → P (receive answer c).1
  unfolding receive
  receive-Kept recv_retry c h = h
  receive-Kept recv_error c h = kept.ended c h
  receive-Kept (data_read []) c h =
      if_both (λ (r : Outcome Bool × Connection). P r.1) c.actor_alive
        (tell-Kept close (disable on_recv c) (kept.disabled on_recv c h))
        (kept.disabled on_recv c h)
  receive-Kept (data_read (b ∷ bs)) c h =
      if_both (λ (r : Outcome Bool × Connection). P r.1) c.actor_alive
        (tell-Kept (received (b ∷ bs)) c h) (kept.ended c h)

  pub step-Kept : (e : Event) (c : Connection) → P c → P (step e c)
  unfolding step queue_send watch_rest send_callback unwatch_empty recv_callback timeout_callback
  step-Kept (queued answer added bytes) c h =
      let d = refill answer (c.send_buffer ++ bytes) c in
      let filled = refill-Kept answer (c.send_buffer ++ bytes) c h in
      if_both P (is_empty d.send_buffer) filled
        (enable_io-Kept on_send d.send_id added d refl filled)
  step-Kept (writable true locked answer) c h = kept.ended c h
  step-Kept (writable false true answer) c h = h
  step-Kept (writable false false answer) c h =
      let d = refill answer c.send_buffer c in
      let filled = refill-Kept answer c.send_buffer c h in
      if_both P (is_empty d.send_buffer) (kept.disabled on_send d filled) filled
  step-Kept (readable true answer) c h = kept.ended c h
  step-Kept (readable false answer) c h = receive-Kept answer c h
  step-Kept timed_out c h = kept.gone c.timeout_id c (kept.ended c h)
  step-Kept timeout_on c h = enable_timeout-Kept c h
  step-Kept timeout_off c h = kept.disabled on_timeout c h
  step-Kept stopped c h = kept.ended c h
