-- ===== src/Connection/Drain.antt =====
-- `send_callback` of `Connection` in src/mopidy_mpd/network.py, until the buffer is empty.
use mopidy_mpd.Prelude.{
  ℕ, ◌+◌, ◌≤◌, ◌≡◌, ◌≢◌, All, refl, sym, ap, ◌∙◌, subst, Bool, true, false, Option, none, some,
  List, [], ◌∷◌, ◌++◌, inl, inr, if◌then◌else◌, is_empty, length, length-drop, take, drop,
  take-append-drop, append_assoc, append-nil, Bool-cases, arith,
}
use mopidy_mpd.Utf8.{Bytes}
use mopidy_mpd.Connection.{
  Watch, on_recv, on_send, on_timeout, Connection, drop_watch, Send, took, would_block, send_error,
  send_with, unwatch_empty, send_callback, Event, step, writable,
}
use mopidy_mpd.Connection.Sending.{after_send}
use mopidy_mpd.Connection.Sources.{Known, KnownIn}
use mopidy_mpd.Connection.Runs.{run, run-Kept, Known-IsKept}

-- One callback: whether the lock was taken, and how much the socket took, if it did not block.
abbrev pub Turn : Type 0
Turn = Bool × Option ℕ

abbrev answer_of : Option ℕ → Send
answer_of none = would_block
answer_of (some n) = took n

abbrev pub turns : List Turn → List Event
turns [] = []
turns ((locked, n) ∷ rest) = writable false locked (answer_of n) ∷ turns rest

-- How much the socket takes in all.
abbrev pub taken : List Turn → ℕ
taken [] = 0
taken ((true, n) ∷ rest) = taken rest
taken ((false, none) ∷ rest) = taken rest
taken ((false, some n) ∷ rest) = n + taken rest

-- A connection whose socket is open, and is watched only while there is data to send.
pub record Open (c : Connection) : Type 0 where
  pub is_open : c.closed ≡ false
  pub idle : is_empty c.send_buffer ≡ true → c.send_id ≡ none

-- What a turn leaves of the data.
record Sends (n : ℕ) (c d : Connection) : Type 0 where
  buffer_eq : d.send_buffer ≡ drop n c.send_buffer
  sent_eq : d.sent ≡ c.sent ++ take n c.send_buffer
  open_after : Open d

dropped :
    (i : Option ℕ) (c : Connection)
    → c.send_id ≡ i
    → ((drop_watch on_send i c).send_buffer ≡ c.send_buffer)
      × (((drop_watch on_send i c).sent ≡ c.sent)
          × (((drop_watch on_send i c).closed ≡ c.closed)
              × ((drop_watch on_send i c).send_id ≡ none)))
unfolding drop_watch
dropped none c h = (refl, (refl, (refl, h)))
dropped (some i) c h = (refl, (refl, (refl, refl)))

unwatch_empty-Sends :
    (n : ℕ) (c d : Connection)
    → d.send_buffer ≡ drop n c.send_buffer
    → d.sent ≡ c.sent ++ take n c.send_buffer
    → d.closed ≡ false
    → Sends n c (unwatch_empty d)
unfolding unwatch_empty
unwatch_empty-Sends n c d buffer sent closed = elim (Bool-cases (is_empty d.send_buffer)) [
  | inl e ↦
      let (b, (s, (k, i))) = dropped d.send_id d refl in
      rw e (record {
        buffer_eq = b ∙ buffer;
        sent_eq = s ∙ sent;
        open_after = record { is_open = k ∙ closed; idle = λ _. i };
      })
  | inr e ↦ rw e (record {
    buffer_eq = buffer;
    sent_eq = sent;
    open_after = record { is_open = closed; idle = λ e'. absurd (cc (e, e')) };
  })
]

abbrev amount : Bool → Option ℕ → ℕ
amount true n = 0
amount false none = 0
amount false (some n) = n

nothing_taken : (c : Connection) → c.sent ≡ c.sent ++ take 0 c.send_buffer
nothing_taken c = sym (append-nil c.sent)

after_send-Sends :
    (n : Option ℕ) (c : Connection)
    → Open c
    → Sends (amount false n) c (unwatch_empty (after_send (answer_of n) c.send_buffer c))
unfolding send_with
after_send-Sends none c o =
    unwatch_empty-Sends 0 c (after_send would_block c.send_buffer c) refl (nothing_taken c)
      o.is_open
after_send-Sends (some n) c o =
    unwatch_empty-Sends n c (after_send (took n) c.send_buffer c) refl refl o.is_open

step-Sends :
    (locked : Bool) (n : Option ℕ) (c : Connection)
    → Open c
    → Sends (amount locked n) c (step (writable false locked (answer_of n)) c)
unfolding step send_callback
step-Sends true n c o = record { buffer_eq = refl; sent_eq = nothing_taken c; open_after = o }
step-Sends false n c o =
    subst
      (λ (b : Bool).
        Sends (amount false n) c
          (unwatch_empty (after_send (if b then send_error else answer_of n) c.send_buffer c)))
      (sym o.is_open) (after_send-Sends n c o)

taken-step :
    (locked : Bool) (n : Option ℕ) (rest : List Turn)
    → taken ((locked, n) ∷ rest) ≡ amount locked n + taken rest
taken-step true n rest = omega arith
taken-step false none rest = omega arith
taken-step false (some n) rest = refl

no_bytes : (bytes : Bytes) → length bytes ≤ 0 → bytes ≡ []
no_bytes [] h = refl
no_bytes (b ∷ bytes) h = absurd (omega (arith, h))

run-sends :
    (ts : List Turn) (c : Connection)
    → Open c
    → length c.send_buffer ≤ taken ts
    → ((run (turns ts) c).sent ≡ c.sent ++ c.send_buffer)
      × (((run (turns ts) c).send_buffer ≡ []) × ((run (turns ts) c).send_id ≡ none))
run-sends [] c o h =
    let none_left = no_bytes c.send_buffer h in
    (
      sym (append-nil c.sent) ∙ ap (λ (b : Bytes). c.sent ++ b) (sym none_left),
      (none_left, o.idle (ap (λ (b : Bytes). is_empty b) none_left)),
    )
run-sends ((locked, n) ∷ rest) c o h =
    let d = step (writable false locked (answer_of n)) c in
    let s = step-Sends locked n c o in
    let m = amount locked n in
    let smaller : length d.send_buffer ≤ taken rest =
      omega
        (arith, h, ap length s.buffer_eq, length-drop m c.send_buffer, taken-step locked n rest) in
    let (sent, after) = run-sends rest d s.open_after smaller in
    (
      sent
          ∙ ap (λ (b : Bytes). d.sent ++ b) s.buffer_eq
          ∙ ap (λ (b : Bytes). b ++ drop m c.send_buffer) s.sent_eq
          ∙ append_assoc c.sent (take m c.send_buffer) (drop m c.send_buffer)
          ∙ ap (λ (b : Bytes). c.sent ++ b) (take-append-drop m c.send_buffer),
      after,
    )

unwatched :
    (c : Connection) (l : List (ℕ × Watch))
    → c.send_id ≡ none
    → KnownIn c l
    → All (λ (e : ℕ × Watch). e.1 ≢ on_send) l
unwatched c [] off k = tt
unwatched c ((i, on_recv) ∷ l) off (e, k) = ((λ e'. cc), unwatched c l off k)
unwatched c ((i, on_send) ∷ l) off (e, k) = absurd (cc (off, e))
unwatched c ((i, on_timeout) ∷ l) off (e, k) = ((λ e'. cc), unwatched c l off k)

-- All that waits in the buffer of an open connection is sent, in order, and then GLib holds no source
-- that watches the socket for it, nor has the connection an identifier of one, once the socket has
-- taken as many bytes as wait there: over any number of callbacks without error, in which it may
-- also block, take part of what it is given, or find the lock taken. This holds where the
-- connection has the identifiers of all its sources, and none of a watch for data while there is
-- none to send.
pub run-drains :
    (ts : List Turn) (c : Connection)
    → Open c
    → Known c
    → length c.send_buffer ≤ taken ts
    → ((run (turns ts) c).sent ≡ c.sent ++ c.send_buffer)
      × ((run (turns ts) c).send_buffer ≡ [])
      × ((run (turns ts) c).send_id ≡ none)
      × All (λ (e : ℕ × Watch). e.1 ≢ on_send) (run (turns ts) c).sources
run-drains ts c o k h =
    let (sent, (empty, off)) = run-sends ts c o h in
    let d = run (turns ts) c in
    (sent, empty, off, unwatched d d.sources off (run-Kept Known Known-IsKept (turns ts) c k))
