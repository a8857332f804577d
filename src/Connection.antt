-- ===== src/Connection.antt =====
-- `Connection` of src/mopidy_mpd/network.py: one client's socket, its watches in GLib's loop, and
-- the data that waits to be sent.
-- What the socket and GLib answer is an argument of the operation that asks: how much `send` took,
-- what `recv` gave, whether a watch could be added. A call on a closed socket fails. An operation is
-- one step: the lock keeps two calls of `send` apart.
pub mod Sources
pub mod Watches
pub mod Events
pub mod Stop
pub mod Sending
pub mod Order
pub mod Runs
pub mod Drain
use mopidy_mpd.Prelude.{
  ℕ, suc, ◌+◌, Bool, true, false, not, ◌||◌, Option, none, some, List, [], ◌∷◌, ◌++◌, ◌==◌,
  if◌then◌else◌, is_empty, take, drop, ℤ, pos, lt_int,
}
use mopidy_mpd.Outcome.{Outcome, ok, raised, actor_dead}
use mopidy_mpd.Utf8.{Bytes}

pub data Watch : Type 0 where
  on_recv on_send on_timeout : Watch

-- What the session's actor is told.
pub data Message : Type 0 where
  received : Bytes → Message
  close : Message
  stop_actor : Message

pub record Connection : Type 0 where
  pub timeout : ℤ
  pub send_buffer : Bytes
  pub stopping : Bool
  pub recv_id : Option ℕ
  pub send_id : Option ℕ
  pub timeout_id : Option ℕ
  -- of the actor: whether it lives, and its messages so far
  pub actor_alive : Bool
  pub told : List Message
  -- of GLib: the active sources, and the next identifier
  pub sources : List (ℕ × Watch)
  pub next_id : ℕ
  -- of the socket: whether it is closed, and the data that it took
  pub closed : Bool
  pub sent : Bytes

-- `socket.send`: the bytes that it took, or an error that asks to try again, or another one.
pub data Send : Type 0 where
  took : ℕ → Send
  would_block : Send
  send_error : Send

-- `socket.recv`: an empty text of bytes says that the client has gone.
pub data Recv : Type 0 where
  data_read : Bytes → Recv
  recv_retry : Recv
  recv_error : Recv

-- `GLib.source_remove`
unfoldable pub remove_source : ℕ → List (ℕ × Watch) → List (ℕ × Watch)
remove_source i [] = []
remove_source i ((j, w) ∷ sources) =
    let rest = remove_source i sources in if j == i then rest else (j, w) ∷ rest

abbrev pub set_id : Watch → Option ℕ → Connection → Connection
set_id on_recv i c = record c { recv_id = i }
set_id on_send i c = record c { send_id = i }
set_id on_timeout i c = record c { timeout_id = i }

abbrev pub id_of : Watch → Connection → Option ℕ
id_of on_recv c = c.recv_id
id_of on_send c = c.send_id
id_of on_timeout c = c.timeout_id

-- `disable_recv`, `disable_send`, `disable_timeout`
unfoldable pub drop_watch : Watch → Option ℕ → Connection → Connection
unfolding remove_source
drop_watch w none c = c
drop_watch w (some i) c = set_id w none (record c { sources = remove_source i c.sources })

abbrev pub disable : Watch → Connection → Connection
disable w c = drop_watch w (id_of w c) c

-- A source that GLib adds, with its identifier kept.
unfoldable pub add_watch : Watch → Connection → Connection
add_watch w c =
    set_id w (some c.next_id)
      (record c { sources = (c.next_id, w) ∷ c.sources; next_id = c.next_id + 1 })

-- `actor_ref.tell`; nothing where the actor is dead
abbrev pub tell : Message → Connection → Connection
tell message c = record c { told = if c.actor_alive then c.told ++ message ∷ [] else c.told }

-- `stop`
unfoldable pub shut : Connection → Connection
unfolding drop_watch
shut c =
    record (disable on_send
      (disable on_recv (disable on_timeout (tell stop_actor (record c { stopping = true }))))) {
        closed = true;
      }

unfoldable pub stop : Connection → Connection
unfolding shut
stop c = if c.stopping then c else shut c

-- `enable_timeout`
unfoldable pub enable_timeout : Connection → Connection
unfolding drop_watch add_watch
enable_timeout c =
    if lt_int (pos 0) c.timeout then add_watch on_timeout (disable on_timeout c) else c

-- `enable_recv` and `enable_send`; the flag says whether GLib could add the watch
unfoldable pub enable_io : Watch → Option ℕ → Bool → Connection → Connection
unfolding add_watch stop
enable_io w (some i) added c = c
enable_io w none true c = add_watch w c
enable_io w none false c = stop c

abbrev pub enable_recv : Bool → Connection → Connection
enable_recv added c = enable_io on_recv c.recv_id added c

abbrev pub enable_send : Bool → Connection → Connection
enable_send added c = enable_io on_send c.send_id added c

-- `send`: what was not sent, and the connection behind it
unfoldable pub send_with : Send → Bytes → Connection → Bytes × Connection
unfolding stop
send_with (took n) bytes c = (drop n bytes, record c { sent = c.sent ++ take n bytes })
send_with would_block bytes c = (bytes, c)
send_with send_error bytes c = ([], stop c)

abbrev pub send : Send → Bytes → Connection → Bytes × Connection
send answer bytes c = send_with (if c.closed then send_error else answer) bytes c

-- `self.send_buffer = self.send(bytes)`
abbrev pub refill : Send → Bytes → Connection → Connection
refill answer bytes c = let (rest, c') = send answer bytes c in record c' { send_buffer = rest }

-- `if self.send_buffer: self.enable_send()`
unfoldable pub watch_rest : Bool → Connection → Connection
unfolding enable_io
watch_rest added c = if is_empty c.send_buffer then c else enable_send added c

-- `queue_send`
unfoldable pub queue_send : Send → Bool → Bytes → Connection → Connection
unfolding send_with watch_rest
queue_send answer added bytes c = watch_rest added (refill answer (c.send_buffer ++ bytes) c)

-- `if not self.send_buffer: self.disable_send()`
unfoldable pub unwatch_empty : Connection → Connection
unfolding drop_watch
unwatch_empty c = if is_empty c.send_buffer then disable on_send c else c

-- `send_callback`: `bad` for an error or a hang-up in the flags, `locked` where another thread holds
-- the lock. It answers that its source stays.
unfoldable pub send_callback : Bool → Bool → Send → Connection → Bool × Connection
unfolding send_with stop unwatch_empty
send_callback bad locked answer c =
    if bad
    then (true, stop c)
    else if locked
    then (true, c)
    else (true, unwatch_empty (refill answer c.send_buffer c))

-- Where the client has gone the actor is told outside any `try`: a dead one raises.
unfoldable pub receive : Recv → Connection → Outcome Bool × Connection
unfolding stop drop_watch
receive (data_read []) c =
    if c.actor_alive
    then (ok true, tell close (disable on_recv c))
    else (raised (actor_dead []), disable on_recv c)
receive (data_read (b ∷ bs)) c =
    if c.actor_alive then (ok true, tell (received (b ∷ bs)) c) else (ok true, stop c)
receive recv_retry c = (ok true, c)
receive recv_error c = (ok true, stop c)

-- `recv_callback`: it answers that its source stays
unfoldable pub recv_callback : Bool → Recv → Connection → Outcome Bool × Connection
unfolding receive
recv_callback bad answer c = if bad then (ok true, stop c) else receive answer c

-- `timeout_callback`: its source goes
unfoldable pub timeout_callback : Connection → Bool × Connection
unfolding stop
timeout_callback c = (false, stop c)

-- The fields that `__init__` sets: a socket that is not blocking, and an actor that has been started
abbrev pub opened : ℤ → Connection
opened timeout = record {
  timeout = timeout;
  send_buffer = [];
  stopping = false;
  recv_id = none;
  send_id = none;
  timeout_id = none;
  actor_alive = true;
  told = [];
  sources = [];
  next_id = 1;
  closed = false;
  sent = [];
}

-- `__init__`
unfoldable pub connect : ℤ → Bool → Connection
unfolding enable_io enable_timeout
connect timeout added = enable_timeout (enable_recv added (opened timeout))

-- What can happen to a connection: the session queues data or switches the timeout, GLib calls
-- back, or anybody stops it.
pub data Event : Type 0 where
  queued : Send → Bool → Bytes → Event
  writable : Bool → Bool → Send → Event
  readable : Bool → Recv → Event
  timed_out timeout_on timeout_off stopped : Event

-- GLib removes the source of a callback that answers that it goes.
unfoldable pub after_call : Bool → Option ℕ → Connection → Connection
unfolding remove_source
after_call false (some i) c = record c { sources = remove_source i c.sources }
after_call false none c = c
after_call true i c = c

unfoldable pub step : Event → Connection → Connection
unfolding queue_send send_callback recv_callback timeout_callback enable_timeout drop_watch stop
    after_call
step (queued answer added bytes) c = queue_send answer added bytes c
step (writable bad locked answer) c = (send_callback bad locked answer c).1
step (readable bad answer) c = (recv_callback bad answer c).1
step timed_out c = let (stays, d) = timeout_callback c in after_call stays c.timeout_id d
step timeout_on c = enable_timeout c
step timeout_off c = disable on_timeout c
step stopped c = stop c
