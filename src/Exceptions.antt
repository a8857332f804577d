-- ===== src/Exceptions.antt =====
-- src/mopidy_mpd/exceptions.py: the ACK errors of the protocol, and the line that reports one.
-- A subclass is a value of `AckClass`; its `__init__` is the function of its name.
use mopidy_mpd.Prelude.{ℕ, Text, codes, Option, none, some, [], ◌++◌, show_nat}

pub data AckClass : Type 0 where
  ack_error arg_error password_error permission_error unknown_error : AckClass
  unknown_command_error no_command_error no_exist_error exist_error system_error : AckClass
  invalid_playlist_name_error not_implemented_error invalid_track_for_playlist_error : AckClass
  failed_to_save_playlist_error disabled_error : AckClass

-- The numbers that the protocol gives to the kinds of error.
abbrev pub ack_error_arg : ℕ
ack_error_arg = 2

abbrev pub ack_error_password : ℕ
ack_error_password = 3

abbrev pub ack_error_permission : ℕ
ack_error_permission = 4

abbrev pub ack_error_unknown : ℕ
ack_error_unknown = 5

abbrev pub ack_error_no_exist : ℕ
ack_error_no_exist = 50

abbrev pub ack_error_system : ℕ
ack_error_system = 52

abbrev pub ack_error_exist : ℕ
ack_error_exist = 56

-- The class attribute `error_code`, inherited where a subclass does not set it.
unfoldable pub error_code : AckClass → ℕ
error_code ack_error = 0
error_code arg_error = ack_error_arg
error_code password_error = ack_error_password
error_code permission_error = ack_error_permission
error_code unknown_error = ack_error_unknown
error_code unknown_command_error = ack_error_unknown
error_code no_command_error = ack_error_unknown
error_code no_exist_error = ack_error_no_exist
error_code exist_error = ack_error_exist
error_code system_error = ack_error_system
error_code invalid_playlist_name_error = ack_error_arg
error_code not_implemented_error = 0
error_code invalid_track_for_playlist_error = 0
error_code failed_to_save_playlist_error = 0
error_code disabled_error = 0

-- `MpdAckError`: the fields of a raised error.
pub record Ack : Type 0 where
  pub class : AckClass
  pub message : Text
  pub index : ℕ
  pub command : Option Text

-- The f-string prints a missing command as `None`.
abbrev pub show_command : Option Text → Text
show_command none = codes "None"
show_command (some c) = c

unfoldable pub get_mpd_ack : Ack → Text
unfolding error_code
get_mpd_ack e =
    codes "ACK ["
    ++ show_nat (error_code e.class)
    ++ codes "@"
    ++ show_nat e.index
    ++ codes "] {"
    ++ show_command e.command
    ++ codes "} "
    ++ e.message

-- The base `__init__` for the classes that leave the message alone.
abbrev pub mpd_error : AckClass → Text → Option Text → Ack
mpd_error k message command = record { class = k; message = message; index = 0; command = command }

abbrev pub mpd_permission_error : Text → Ack
mpd_permission_error command =
    mpd_error permission_error (codes "you don't have permission for \"" ++ command ++ codes "\"")
      (some command)

-- The command is named in the message and then blanked in the field.
abbrev pub mpd_unknown_command_error : Text → Ack
mpd_unknown_command_error command =
    mpd_error unknown_command_error (codes "unknown command \"" ++ command ++ codes "\"") (some [])

abbrev pub mpd_no_command_error : Ack
mpd_no_command_error = mpd_error no_command_error (codes "No command given") (some [])

abbrev pub mpd_invalid_playlist_name_error : Ack
mpd_invalid_playlist_name_error =
    mpd_error invalid_playlist_name_error
      (codes "playlist name is invalid: playlist names may not "
        ++ codes "contain slashes, newlines or carriage returns")
      none

abbrev pub mpd_not_implemented_error : Ack
mpd_not_implemented_error = mpd_error not_implemented_error (codes "Not implemented") none

abbrev pub mpd_invalid_track_for_playlist_error : Text → Text → Ack
mpd_invalid_track_for_playlist_error playlist_scheme track_scheme =
    mpd_error invalid_track_for_playlist_error
      (codes "Playlist with scheme \""
        ++ playlist_scheme
        ++ codes "\" can't store track scheme \""
        ++ track_scheme
        ++ codes "\"")
      none

abbrev pub mpd_failed_to_save_playlist_error : Text → Ack
mpd_failed_to_save_playlist_error backend_scheme =
    mpd_error failed_to_save_playlist_error
      (codes "Backend with scheme \"" ++ backend_scheme ++ codes "\" failed to save playlist") none

abbrev pub mpd_disabled_error : Text → Ack
mpd_disabled_error command =
    mpd_error disabled_error (codes "\"" ++ command ++ codes "\" has been disabled in the server")
      (some command)
