-- ===== src/CoreCommands/Unimplemented.antt =====
-- src/mopidy_mpd/protocol/mount.py, stickers.py and channels.py: commands that answer that they are
-- not implemented, once their arguments are bound.
use mopidy_mpd.Prelude.{Text, codes, Bool, true, false, none, some, List, [], ◌∷◌}
use mopidy_mpd.Exceptions.{mpd_not_implemented_error}
use mopidy_mpd.Outcome.{raised, ack}
use mopidy_mpd.Protocol.{none_arg, Param, positional}
use mopidy_mpd.Commands.Connection.{required}
use mopidy_mpd.Requests.{CoreHandler}

-- A parameter whose default is `None`.
abbrev pub optional : Param
optional = record { default = some none_arg; validator = none }

module _ {W : Type 0} where
  abbrev pub unimplemented : Text → List Param → Bool → CoreHandler W
  unimplemented name params listed = record {
    name = name;
    spec = positional params;
    func = λ tagtypes arguments w. (raised (ack mpd_not_implemented_error), w);
    auth_required = true;
    list_command = listed;
  }

  abbrev pub mount : CoreHandler W
  mount = unimplemented (codes "mount") (required ∷ required ∷ []) true

  abbrev pub unmount : CoreHandler W
  unmount = unimplemented (codes "unmount") (required ∷ []) true

  abbrev pub listmounts : CoreHandler W
  listmounts = unimplemented (codes "listmounts") [] true

  abbrev pub listneighbors : CoreHandler W
  listneighbors = unimplemented (codes "listneighbors") [] true

  abbrev pub sticker : CoreHandler W
  sticker =
      unimplemented (codes "sticker") (required ∷ required ∷ required ∷ optional ∷ optional ∷ [])
        false

  abbrev pub subscribe : CoreHandler W
  subscribe = unimplemented (codes "subscribe") (required ∷ []) true

  abbrev pub unsubscribe : CoreHandler W
  unsubscribe = unimplemented (codes "unsubscribe") (required ∷ []) true

  abbrev pub channels : CoreHandler W
  channels = unimplemented (codes "channels") [] true

  abbrev pub readmessages : CoreHandler W
  readmessages = unimplemented (codes "readmessages") [] true

  abbrev pub sendmessage : CoreHandler W
  sendmessage = unimplemented (codes "sendmessage") (required ∷ required ∷ []) true

  abbrev pub unimplemented_handlers : List (CoreHandler W)
  unimplemented_handlers =
      channels ∷ readmessages ∷ sendmessage ∷ subscribe ∷ unsubscribe ∷ listmounts ∷ listneighbors
      ∷ mount ∷ unmount ∷ sticker ∷ []
