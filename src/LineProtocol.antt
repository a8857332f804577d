-- ===== src/LineProtocol.antt =====
-- `LineProtocol` of src/mopidy_mpd/network.py and `MpdSession` of src/mopidy_mpd/session.py: bytes to
-- lines, lines to requests, and responses to bytes.
pub mod Chunks
pub mod Wire
pub mod Malformed
use mathlib.Core.Option
use mopidy_mpd.Prelude.{
  ℕ, zero, suc, Text, codes, Bool, true, false, not, ◌&&◌, Option, none, some, List, [], ◌∷◌, ◌++◌,
  ltb, leb, ◌==◌, if◌then◌else◌, length, is_empty, join, map, ◌≡◌, refl,
}
use mopidy_mpd.Outcome.{Outcome, ok, raised, diverged, Raised}
use mopidy_mpd.Utf8.{Bytes, decode_utf8, encode_utf8}
use mopidy_mpd.Session.{
  Session, Effect, send_lines, stop_actor, stop_connection, enable_timeout, disable_timeout, M,
  pure, modify, emit, ◌>>=◌, ◌>>◌,
}
use mopidy_mpd.Dispatcher.{Config, Response, handle_idle}
use mopidy_mpd.Commands.Connection.{tagtype_list}
use mopidy_mpd.Requests.{CoreHandler, handle_request}

-- `delimiter.split(buffer, 1)` at the first `\r?\n`, or nothing where no line ends in the buffer
pub break_line : Bytes → Option (Bytes × Bytes)
break_line [] = none
break_line (c ∷ []) = if c == 10 then some ([], []) else none
break_line (c ∷ d ∷ s) =
    let rest = break_line (d ∷ s) in
    if c == 10
    then some ([], d ∷ s)
    else if (c == 13) && (d == 10)
    then some ([], s)
    else Option.map (λ (l, r). (c ∷ l, r)) rest

abbrev pub cons_line : Bytes → List Bytes × Bytes → List Bytes × Bytes
cons_line l (ls, r) = (l ∷ ls, r)

-- The loop of `parse_lines`, with a bound on the lines: those found, and the buffer that is left.
pub parse_lines_within : ℕ → Bytes → List Bytes × Bytes
parse_lines_within zero buffer = ([], buffer)
parse_lines_within (suc fuel) buffer = elim (break_line buffer) [
  | none ↦ ([], buffer)
  | some (line, rest) ↦ cons_line line (parse_lines_within fuel rest)
]

-- `parse_lines`: a line takes its end at least from the buffer.
unfoldable pub parse_lines : Bytes → List Bytes × Bytes
unfolding parse_lines_within break_line
parse_lines buffer = parse_lines_within (length buffer) buffer

pub parse_lines_lem :
    (buffer : Bytes) → parse_lines buffer ≡ parse_lines_within (length buffer) buffer
unfolding parse_lines
parse_lines_lem buffer = refl

-- `line.translate(CONTROL_CHARS)`
pub strip_control : Text → Text
strip_control [] = []
strip_control (c ∷ s) = let rest = strip_control s in if ltb c 32 then rest else c ∷ rest

-- `join_lines`
pub join_lines : List Text → Text
join_lines [] = []
join_lines (l ∷ ls) = join (10 ∷ []) (l ∷ ls) ++ 10 ∷ []

-- The data that `send_lines` hands to `connection.queue_send`; `none` where `encode` stops the
-- actor and sends nothing.
unfoldable pub wire : List Text → Option Bytes
unfolding strip_control join_lines join
wire lines = encode_utf8 (join_lines (map strip_control lines))

module _ {W : Type 0} where
  -- `MpdDispatcher.__init__` and `LineProtocol.__init__`: the session of a client that has just come.
  abbrev pub new_session : W → Session W
  new_session core = record {
    authenticated = false;
    command_list_receiving = false;
    command_list_ok = false;
    command_list = [];
    command_list_index = none;
    subsystem_events = [];
    subsystem_subscriptions = [];
    tagtypes = tagtype_list;
    prevent_timeout = false;
    recv_buffer = [];
    effects = [];
    core = core;
  }

  -- `on_start`
  unfoldable pub on_start : M W (Unit {0})
  on_start = emit (send_lines (codes "OK MPD 0.19.0" ∷ []))

  -- `decode`: a line that is no UTF-8 stops the actor, and is handled as an empty one
  pub decode_line : Bytes → M W Text
  unfolding decode_utf8
  decode_line line s = elim (decode_utf8 line) [
    | some text ↦ (ok text, s)
    | none ↦ (ok [], record s { effects = s.effects ++ stop_actor ∷ [] })
  ]

  pub reply : Response → M W (Unit {0})
  reply [] = pure tt
  reply (l ∷ ls) = emit (send_lines (l ∷ ls))

  -- `on_event`
  unfoldable pub on_event : Text → Session W → Session W
  unfolding handle_idle
  on_event subsystem s = handle_idle subsystem s

-- `lower_letter` is what Unicode says past ASCII of a letter that is in lower case.
module _ {W : Type 0} (lower_letter : ℕ → Bool) (config : Config)
    (cores : List (CoreHandler W)) where
  -- `line[0].islower() and line[0].isalpha()`
  unfoldable pub starts_request : Text → Bool
  starts_request [] = false
  starts_request (c ∷ s) = if ltb c 128 then leb b'a' c && leb c b'z' else lower_letter c

  -- `on_line_received`
  pub on_line_received : Text → M W (Unit {0})
  unfolding starts_request reply handle_request
  on_line_received line =
      if not (starts_request line)
      then emit (stop_connection (codes "Malformed command"))
      else (do response ← handle_request config cores line none; reply response)

  -- The loop over the lines of the buffer.
  unfoldable pub on_lines : List Bytes → M W (Unit {0})
  unfolding decode_line on_line_received
  on_lines [] = pure tt
  on_lines (line ∷ lines) = do text ← decode_line line; on_line_received text; on_lines lines

  pub resume_timeout : M W (Unit {0})
  resume_timeout s =
      if s.prevent_timeout
      then (ok tt, s)
      else (ok tt, record s { effects = s.effects ++ enable_timeout ∷ [] })

  -- `on_receive`, for a message with data and for one that says the client has gone. The source takes
  -- a line from the buffer when it comes to it; the buffer is not read in between.
  unfoldable pub on_received : Bytes → M W (Unit {0})
  unfolding on_lines parse_lines resume_timeout
  on_received bytes s =
      let (lines, rest) = parse_lines (s.recv_buffer ++ bytes) in
      (do on_lines lines; resume_timeout)
        (record s { effects = s.effects ++ disable_timeout ∷ []; recv_buffer = rest })

  unfoldable pub on_close : M W (Unit {0})
  on_close = emit (stop_connection (codes "Client most likely disconnected."))

  -- What the actor does with an exception that a message raised: `on_failure`.
  unfoldable pub on_failure : Outcome (Unit {0}) × Session W → Session W
  on_failure (ok a, s) = s
  on_failure (diverged, s) = s
  on_failure (raised e, s) = record s {
    effects = s.effects ++ stop_connection (codes "Actor failed.") ∷ [];
  }
