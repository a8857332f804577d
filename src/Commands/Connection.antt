-- ===== src/Commands/Connection.antt =====
-- src/mopidy_mpd/protocol/connection.py and tagtype_list.py.
use mopidy_mpd.Prelude.{
  Text, codes, Bool, true, false, ◌&&◌, Option, none, some, List, [], ◌∷◌, leb, if◌then◌else◌,
  is_empty, map, text_eq, set_update, set_difference, is_subset, ◌+◌, not,
}
use mopidy_mpd.Exceptions.{mpd_error, arg_error, password_error, mpd_permission_error}
use mopidy_mpd.Outcome.{Outcome, ok, raised, ack, other_error}
use mopidy_mpd.Session.{stop_actor, M, pure, throw, lift, gets, modify, emit, ◌>>=◌, ◌>>◌}
use mopidy_mpd.Protocol.{
  str, Element, pair, Result, nothing, many, items, Arg, str_arg, Param, varargs, positional,
  Handler,
}

-- `TAGTYPE_LIST`
abbrev pub tagtype_list : List Text
tagtype_list =
    codes "Artist"
    ∷ codes "ArtistSort"
    ∷ codes "Album"
    ∷ codes "AlbumArtist"
    ∷ codes "AlbumArtistSort"
    ∷ codes "Title"
    ∷ codes "Track"
    ∷ codes "Name"
    ∷ codes "Genre"
    ∷ codes "Date"
    ∷ codes "Composer"
    ∷ codes "Performer"
    ∷ codes "Comment"
    ∷ codes "Disc"
    ∷ codes "MUSICBRAINZ_ARTISTID"
    ∷ codes "MUSICBRAINZ_ALBUMID"
    ∷ codes "MUSICBRAINZ_ALBUMARTISTID"
    ∷ codes "MUSICBRAINZ_TRACKID"
    ∷ codes "X-AlbumUri"
    ∷ []

-- A parameter that stays text and has no default.
abbrev pub required : Param
required = record { default = none; validator = none }

-- A call with arguments that `bind_args` never makes.
abbrev pub bad_call : {W : Type 0} → M W Result
bad_call = lift (raised (other_error (codes "TypeError")))

-- `str.lower`, on the letters that the sub commands have
unfoldable pub lower : Text → Text
lower = map (λ c. if leb b'A' c && leb c b'Z' then c + 32 else c)

-- `_validate_tagtypes`
unfoldable pub validate_tagtypes : List Text → Outcome (Unit {0})
unfolding is_subset
validate_tagtypes parameters =
    if is_empty parameters
    then raised (ack (mpd_error arg_error (codes "Not enough arguments") none))
    else if not (is_subset parameters tagtype_list)
    then raised (ack (mpd_error arg_error (codes "Unknown tag type") none))
    else ok tt

unfoldable pub texts_of : List Arg → List Text
texts_of [] = []
texts_of (str_arg t ∷ rest) = t ∷ texts_of rest
texts_of (_ ∷ rest) = texts_of rest

unfoldable pub tagtype_pairs : List Text → List Element
tagtype_pairs [] = []
tagtype_pairs (t ∷ ts) = pair (codes "tagtype") (str t) ∷ tagtype_pairs ts

-- `password == context.config["mpd"]["password"]`
unfoldable pub is_password : Option Text → Text → Bool
is_password none t = false
is_password (some p) t = text_eq t p

module _ {W : Type 0} where
  unfoldable pub close : List Arg → M W Result
  close args = do emit stop_actor; pure nothing

  unfoldable pub kill : List Arg → M W Result
  kill args = throw (mpd_permission_error (codes "kill"))

  unfoldable pub password : Option Text → List Arg → M W Result
  unfolding is_password
  password config_password (str_arg t ∷ []) =
      if is_password config_password t
      then (do modify (λ s. record s { authenticated = true }); pure nothing)
      else throw (mpd_error password_error (codes "incorrect password") none)
  password config_password _ = bad_call

  unfoldable pub ping : List Arg → M W Result
  ping args = pure nothing

  unfoldable pub set_tagtypes : (List Text → List Text) → M W Result
  set_tagtypes f = do modify (λ s. record s { tagtypes = f s.tagtypes }); pure nothing

  unfoldable pub tagtypes_with : Text → List Text → M W Result
  unfolding set_tagtypes validate_tagtypes set_update set_difference
  tagtypes_with subcommand parameters =
      if text_eq subcommand (codes "all")
      then set_tagtypes (λ ts. set_update ts tagtype_list)
      else if text_eq subcommand (codes "clear")
      then set_tagtypes (λ ts. [])
      else if text_eq subcommand (codes "disable")
      then (do
        lift (validate_tagtypes parameters)
        set_tagtypes (λ ts. set_difference ts parameters))
      else if text_eq subcommand (codes "enable")
      then (do lift (validate_tagtypes parameters); set_tagtypes (λ ts. set_update ts parameters))
      else throw (mpd_error arg_error (codes "Unknown sub command") none)

  unfoldable pub tagtypes_of : List Text → M W Result
  unfolding tagtypes_with lower tagtype_pairs
  tagtypes_of [] = do ts ← gets (λ s. s.tagtypes); pure (many (items (tagtype_pairs ts)))
  tagtypes_of (t ∷ parameters) = tagtypes_with (lower t) parameters

  unfoldable pub tagtypes : List Arg → M W Result
  unfolding tagtypes_of texts_of
  tagtypes args = tagtypes_of (texts_of args)

  unfoldable pub connection_handlers : Option Text → List (Handler W)
  unfolding close kill password ping tagtypes
  connection_handlers config_password =
      record {
        name = codes "close";
        spec = positional [];
        func = close;
        auth_required = false;
        list_command = true;
      }
      ∷ record {
        name = codes "kill";
        spec = positional [];
        func = kill;
        auth_required = true;
        list_command = false;
      }
      ∷ record {
        name = codes "password";
        spec = positional (required ∷ []);
        func = password config_password;
        auth_required = false;
        list_command = true;
      }
      ∷ record {
        name = codes "ping";
        spec = positional [];
        func = ping;
        auth_required = false;
        list_command = true;
      }
      ∷ record {
        name = codes "tagtypes";
        spec = varargs;
        func = tagtypes;
        auth_required = true;
        list_command = true;
      }
      ∷ []
