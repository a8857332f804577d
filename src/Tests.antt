-- ===== src/Tests.antt =====
-- Runs of the model at concrete inputs.
mod Sessions
mod Parsing
mod Names
mod Network
mod Tracks
mod Player
mod Library
mod Saved
mod Registered
mod Status
mod NameMap
mod Lifetime
