-- ===== src/Lib.antt =====
-- Mopidy-MPD: the MPD server front end of Mopidy (src/mopidy_mpd/).
--
-- A client's bytes pass through these parts. `LineProtocol` (network.py) collects them and cuts them
-- into lines; `MpdSession` (session.py) drops the connection at a line that cannot be a request, and
-- hands the others to `MpdDispatcher` (dispatcher.py), whose filters authenticate, collect command
-- lists, keep idle clients silent, turn errors into ACK lines and end a response with OK. The last
-- filter tokenizes the line (tokenize.py), finds the command in the registry (protocol/__init__.py),
-- converts its arguments and calls the function that a module of protocol/ registered. The result is
-- formatted as lines and goes back to the client.
--
-- Files, each with the source that it models:
--   Prelude: texts as lists of code points, sets of names as lists, decimal print.
--   Exceptions: exceptions.py, an ACK as a record of its class and fields.
--   Outcome: how a call ends: a result, an exception, or a loop that ran out of its bound.
--   Tokenize: tokenize.py `split`; each regular expression is the function that its match computes.
--   Convert: protocol/__init__.py `UINT`, `BOOL`, `RANGE`; Convert/Signed `INT`; Convert/Float `FLOAT`
--     and `UFLOAT`, whose results are double-precision numbers m * 2 ^ (e - 1074).
--   Protocol: protocol/__init__.py `Commands` and `Handler`; Protocol/Binding is about how
--     tokens become arguments.
--   Session: the fields of `MpdDispatcher` and `MpdSession`, and the monad of their methods: a call
--     takes the session, may raise, and keeps what it wrote before it raised. A call into the network
--     layer is recorded as an effect.
--   Dispatcher: dispatcher.py, a filter as a function of the rest of the chain.
--   Commands: protocol/connection.py, command_list.py, reflection.py, and `idle`, `noidle` of
--     status.py, as handlers of the session.
--   Requests: `handle_request`, tied to the table of commands. The commands of the core are an
--     argument, a list of `CoreHandler`: each reads the tag types of the session, its arguments and
--     the core, and changes the core only. Requests/Login and Requests/Lists run one after another.
--   Utf8: the codec that `encode` and `decode` of network.py call.
--   LineProtocol: `LineProtocol` of network.py and `MpdSession` of session.py.
--   UriMapper: uri_mapper.py; the loop of `_create_unique_name` with a bound on its rounds.
--   Connection: `Connection` of network.py; what the socket and GLib answer is an argument. An event is
--     a call of a method or a callback; GLib removes the source of a callback that answers that it goes.
--   Server: `Server` of network.py. Server/Listen makes, watches and closes the listening socket; in
--     Server/Sockets, what the process holds of the system is a record `Os`, and an `Environment` says
--     which calls fail.
--   Frontend: actor.py. The events of the core, as `on_event` passes them to the sessions, and in
--     Frontend/Lifecycle the start and the stop of the front end.
--   Url: the scheme that urllib's `urlparse` reads off a URI.
--   CoreCommands: the commands that reach Mopidy's core. CoreCommands/Core has the interfaces of the
--     core (tracklist, playback, mixer, library, playlists) and of the map of names, and the monad of
--     the handlers: a handler takes the core, returns or raises, and what it did stays done.
--     CoreCommands/Playback, CurrentPlaylist, StatusReport, StoredPlaylists and MusicDb are
--     protocol/playback.py, current_playlist.py, status.py, stored_playlists.py and music_db.py; the
--     children hold further commands and the proofs. CoreCommands/Context is `browse` of context.py,
--     and CoreCommands/NameMap puts `UriMapper` behind the interface of the map of names.
--     CoreCommands/Handlers is the registration of all of them, and CoreCommands/Registered ties them
--     to `handle_request`. CoreCommands/Outputs is protocol/audio_output.py, and Unimplemented has
--     mount.py, stickers.py and channels.py, whose commands are not implemented.
--   Translator: translator.py; Mopidy's models are records of the fields that the code reads.
--   Tests: runs at concrete inputs.
--
-- Bounds. `split` runs its loop at most as many rounds as the remainder is long, as a parameter takes
-- at least a character. `parse_lines` runs as many rounds as the buffer is long, as a line takes its
-- end. `handle_request` calls itself at most once, since a stored command is not the end of a list.
-- `_create_unique_name` tries one name more than there are, as its rounds try different names. Running
-- out of a bound is the outcome `diverged`.
--
-- `browse` lists at most as many directories as its caller allows, and a directory that weighs more
-- than all that it lists bounds them.
--
-- Outside the model: logging; Mopidy's core, its models and its actors, which are interfaces: a call
-- that only asks leaves the core alone, and a call whose future nobody waits for loses its exception;
-- `islower` past ASCII, an argument of `LineProtocol`; the network locations that `urlparse` refuses,
-- the order in which Python iterates a set, and the clock, which are parameters; for a set of names of
-- the session the list keeps the order of insertion; what zeroconf and pykka do, and which calls of the
-- system fail, which is an environment; a listening socket that Python frees is not followed.
pub mod Prelude
pub mod Exceptions
pub mod Outcome
pub mod Utf8
pub mod Tokenize
pub mod Convert
pub mod Session
pub mod Protocol
pub mod Dispatcher
pub mod Commands
pub mod Requests
pub mod LineProtocol
pub mod CoreCommands
pub mod Translator
pub mod UriMapper
pub mod Url
pub mod Connection
pub mod Server
pub mod Frontend
pub mod Tests
