-- ===== src/Commands.antt =====
-- src/mopidy_mpd/protocol/: the command modules, and what their registrations share.
pub mod Connection
pub mod CommandList
pub mod Status
pub mod Reflection
