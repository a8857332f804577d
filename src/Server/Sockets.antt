-- ===== src/Server/Sockets.antt =====
-- Sockets, and what the process holds of the system and asks of it, for
-- src/mopidy_mpd/network.py. What the system answers is an `Environment`; what the process holds of
-- it is an `Os`.
use mopidy_mpd.Prelude.{ℕ, Text, codes, Bool, Option, List}
use mopidy_mpd.Outcome.{Outcome, raised, other_error}
use mopidy_mpd.Server.{Address}

pub data Family : Type 0 where
  unix ipv4 ipv6 : Family

-- What `setsockopt` sets: `IPV6_V6ONLY` to 0, by its name or by its number on Windows, `SO_REUSEADDR`.
pub data SocketOption : Type 0 where
  both_versions both_versions_number reuse_address : SocketOption

pub record Socket : Type 0 where
  pub family : Family
  pub fileno : ℕ
  pub options : List SocketOption
  -- `getsockname()`
  pub bound : Option Address
  pub blocking : Bool
  pub listening : Bool

-- What the process holds: open listening sockets, sources of GLib with the descriptors that they
-- watch, the files of its Unix domain sockets, and the names that zeroconf has published.
pub record Os : Type 0 where
  pub sockets : List ℕ
  pub watches : List (ℕ × ℕ)
  pub files : List Text
  pub services : List Text
  pub next_fileno : ℕ
  pub next_source : ℕ

pub data SystemCall : Type 0 where
  open_socket : Family → SystemCall
  set_option : SocketOption → SystemCall
  bind_to : Address → SystemCall
  listen_on : SystemCall
  shut_down : SystemCall
  unlink_file : Text → SystemCall

pub record Environment : Type 0 where
  -- `os.environ["LISTEN_FDNAMES"]`, and the sockets that the process was started with
  pub listen_fdnames : Option Text
  pub inherited : ℕ → Outcome Socket
  -- `socket.has_ipv6`, `hasattr(socket, "IPPROTO_IPV6")`, `sys.platform == "win32"`
  pub knows_ipv6 : Bool
  pub names_ipv6 : Bool
  pub is_windows : Bool
  -- whether the call raises an `OSError`
  pub fails : SystemCall → Os → Bool

abbrev pub os_error : {A : Type 0} → Outcome A
os_error = raised (other_error (codes "OSError"))
