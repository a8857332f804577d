-- ===== src/CoreCommands.antt =====
-- The commands that reach Mopidy's core, by the module of src/mopidy_mpd/protocol/ that has them.
pub mod Core
pub mod Params
pub mod Context
pub mod NameMap
pub mod Playback
pub mod CurrentPlaylist
pub mod StatusReport
pub mod StoredPlaylists
pub mod MusicDb
pub mod Outputs
pub mod Unimplemented
pub mod Access
pub mod Handlers
pub mod Registered
