-- ===== src/CoreCommands/Handlers.antt =====
-- The registered functions of src/mopidy_mpd/protocol/playback.py, current_playlist.py, status.py,
-- stored_playlists.py and music_db.py: their names, parameters and validators.
use mopidy_mpd.Outcome.{Outcome}
use mopidy_mpd.Prelude.{ℕ, Text, codes, true, none, some, List, [], ◌∷◌, ◌++◌}
use mopidy_mpd.Exceptions.{mpd_not_implemented_error}
use mopidy_mpd.Protocol.{Param, varargs, Result, str, pair, single, Arg, slice_arg}
use mopidy_mpd.Commands.Connection.{required}
use mopidy_mpd.Requests.{CoreHandler}
use mopidy_mpd.Translator.{Tag}
use mopidy_mpd.CoreCommands.CurrentPlaylist.{tags_result}
use mopidy_mpd.CoreCommands.Core.{
  Tracklist, Playback, Volume, Library, Searches, Playlists, UriMap, K, pure, throw, ask, bad_call,
  command, ◌>>=◌,
}
use mopidy_mpd.CoreCommands.Outputs.{Mixer, uint_param}
use mopidy_mpd.CoreCommands.Unimplemented.{optional, unimplemented}
use mopidy_mpd.CoreCommands.Access.{core_handlers}
use mopidy_mpd.CoreCommands.Params.{
  int_param, bool_param, range_param, ufloat_param, optional_int, optional_uint, optional_bool,
  optional_range, range_token,
}
use mopidy_mpd.CoreCommands.Playback as Player
use mopidy_mpd.CoreCommands.Playback.Volumes
use mopidy_mpd.CoreCommands.CurrentPlaylist
use mopidy_mpd.CoreCommands.CurrentPlaylist.Additions
use mopidy_mpd.CoreCommands.CurrentPlaylist.Listings
use mopidy_mpd.CoreCommands.StatusReport
use mopidy_mpd.CoreCommands.StoredPlaylists
use mopidy_mpd.CoreCommands.StoredPlaylists.Saving.{Setting}
use mopidy_mpd.CoreCommands.StoredPlaylists.Edits
use mopidy_mpd.CoreCommands.MusicDb.Finds
use mopidy_mpd.CoreCommands.MusicDb.Listings as DbListings

-- What the commands reach through the context: the parts of the core, the map of names, the clock in
-- seconds, and how many directories a browse lists at most.
pub record Services (W : Type 0) : Type 0 where
  pub tracklist : Tracklist W
  pub playback : Playback W
  pub outputs : Mixer W
  pub mixer : Volume W
  pub library : Library W
  pub searches : Searches W
  pub playlists : Playlists W
  pub uri_map : UriMap W
  pub setting : Setting
  pub get_uri_schemes : W → Outcome (List Text)
  pub clock : W → ℕ
  pub fuel : ℕ

-- A function with any number of parameters.
abbrev any_number : {W : Type 0} → Text → (List Text → List Arg → K W Result) → CoreHandler W
any_number name func = record {
  name = name;
  spec = varargs;
  func = func;
  auth_required = true;
  list_command = true;
}

-- The default `slice(0, None)` of `load`
abbrev playlist_slice : Param
playlist_slice = record {
  default = some (slice_arg (record { start = 0; stop = none }));
  validator = some range_token;
}

module _ {W : Type 0} where
  abbrev pub crossfade : CoreHandler W
  crossfade = unimplemented (codes "crossfade") (uint_param ∷ []) true

  abbrev pub mixrampdb : CoreHandler W
  mixrampdb = unimplemented (codes "mixrampdb") (required ∷ []) true

  abbrev pub mixrampdelay : CoreHandler W
  mixrampdelay = unimplemented (codes "mixrampdelay") (uint_param ∷ []) true

  abbrev pub replay_gain_mode : CoreHandler W
  replay_gain_mode = unimplemented (codes "replay_gain_mode") (required ∷ []) true

  abbrev pub show_replay_gain : List Arg → K W Result
  show_replay_gain [] = pure (single (pair (codes "replay_gain_mode") (str (codes "off"))))
  show_replay_gain _ = bad_call

  abbrev pub replay_gain_status : CoreHandler W
  replay_gain_status = command (codes "replay_gain_status") [] (λ _ a. show_replay_gain a)

  abbrev pub playlistsearch : CoreHandler W
  playlistsearch = unimplemented (codes "playlistsearch") (required ∷ required ∷ []) true

  abbrev pub prio : CoreHandler W
  prio = unimplemented (codes "prio") (uint_param ∷ range_param ∷ []) true

  abbrev pub prioid : CoreHandler W
  prioid = any_number (codes "prioid") (λ _ _. throw mpd_not_implemented_error)

  abbrev pub rangeid : CoreHandler W
  rangeid = unimplemented (codes "rangeid") (uint_param ∷ range_param ∷ []) true

  abbrev pub addtagid : CoreHandler W
  addtagid = unimplemented (codes "addtagid") (uint_param ∷ required ∷ required ∷ []) true

  abbrev pub cleartagid : CoreHandler W
  cleartagid = unimplemented (codes "cleartagid") (uint_param ∷ required ∷ []) true

  abbrev pub clearerror : CoreHandler W
  clearerror = unimplemented (codes "clearerror") [] true

  abbrev pub listfiles : CoreHandler W
  listfiles = unimplemented (codes "listfiles") (optional ∷ []) true

module _ {W : Type 0} (s : Services W) where
  abbrev pub playback_handlers : List (CoreHandler W)
  playback_handlers =
      let t = s.tracklist in
      let p = s.playback in
      command (codes "consume") (bool_param ∷ []) (λ _. Player.consume t p)
      ∷ crossfade
      ∷ mixrampdb
      ∷ mixrampdelay
      ∷ command (codes "next") [] (λ _. Player.next t p)
      ∷ command (codes "pause") (optional_bool ∷ []) (λ _. Player.pause t p)
      ∷ command (codes "play") (optional_int ∷ []) (λ _. Player.play t p)
      ∷ command (codes "playid") (int_param ∷ []) (λ _. Player.playid t p)
      ∷ command (codes "previous") [] (λ _. Player.previous t p)
      ∷ command (codes "random") (bool_param ∷ []) (λ _. Player.random t p)
      ∷ command (codes "repeat") (bool_param ∷ []) (λ _. Player.repeat t p)
      ∷ replay_gain_mode
      ∷ replay_gain_status
      ∷ command (codes "seek") (uint_param ∷ ufloat_param ∷ []) (λ _. Player.seek t p)
      ∷ command (codes "seekid") (uint_param ∷ ufloat_param ∷ []) (λ _. Player.seekid t p)
      ∷ command (codes "seekcur") (required ∷ []) (λ _. Player.seekcur t p)
      ∷ command (codes "setvol") (int_param ∷ []) (λ _. Volumes.setvol s.mixer)
      ∷ command (codes "single") (bool_param ∷ []) (λ _. Player.single_mode t p)
      ∷ command (codes "stop") [] (λ _. Player.stop t p)
      ∷ command (codes "volume") (int_param ∷ []) (λ _. Volumes.volume s.mixer)
      ∷ []

  abbrev pub current_playlist_handlers : List (CoreHandler W)
  current_playlist_handlers =
      let t = s.tracklist in
      let p = s.playback in
      command (codes "add") (required ∷ [])
        (λ _. Additions.add s.library s.uri_map t s.setting.bad_netloc s.fuel)
      ∷ command (codes "addid") (required ∷ optional_uint ∷ []) (λ _. CurrentPlaylist.addid t)
      ∷ command (codes "delete") (range_param ∷ []) (λ _. CurrentPlaylist.delete t)
      ∷ command (codes "deleteid") (uint_param ∷ []) (λ _. CurrentPlaylist.deleteid t)
      ∷ command (codes "clear") [] (λ _. CurrentPlaylist.clear t)
      ∷ command (codes "move") (range_param ∷ uint_param ∷ []) (λ _. CurrentPlaylist.move_range t)
      ∷ command (codes "moveid") (uint_param ∷ uint_param ∷ []) (λ _. CurrentPlaylist.moveid t)
      ∷ command (codes "playlist") [] (Listings.playlist t p)
      ∷ command (codes "playlistfind") (required ∷ required ∷ []) (Listings.playlistfind t p)
      ∷ command (codes "playlistid") (optional_uint ∷ []) (Listings.playlistid t p)
      ∷ command (codes "playlistinfo") (optional ∷ []) (Listings.playlistinfo t p)
      ∷ playlistsearch
      ∷ command (codes "plchanges") (int_param ∷ []) (Listings.plchanges t p)
      ∷ command (codes "plchangesposid") (int_param ∷ []) (Listings.plchangesposid t p)
      ∷ prio
      ∷ prioid
      ∷ rangeid
      ∷ command (codes "shuffle") (optional_range ∷ []) (λ _. CurrentPlaylist.shuffle t)
      ∷ command (codes "swap") (uint_param ∷ uint_param ∷ []) (λ _. CurrentPlaylist.swap t)
      ∷ command (codes "swapid") (uint_param ∷ uint_param ∷ []) (λ _. CurrentPlaylist.swapid t)
      ∷ addtagid
      ∷ cleartagid
      ∷ []

  abbrev pub status_handlers : List (CoreHandler W)
  status_handlers =
      clearerror
      ∷ command (codes "currentsong") [] (StatusReport.currentsong s.tracklist s.playback s.mixer)
      ∷ command (codes "stats") [] (StatusReport.stats s.tracklist s.playback s.mixer)
      ∷ command (codes "status") [] (StatusReport.status s.tracklist s.playback s.mixer)
      ∷ []

  abbrev pub stored_playlist_handlers : List (CoreHandler W)
  stored_playlist_handlers =
      let p = s.playlists in
      let u = s.uri_map in
      command (codes "listplaylist") (required ∷ []) (λ _. StoredPlaylists.listplaylist p u)
      ∷ command (codes "listplaylistinfo") (required ∷ [])
          (StoredPlaylists.listplaylistinfo p u s.library)
      ∷ command (codes "listplaylists") []
          (λ _ a w. StoredPlaylists.listplaylists p u (s.clock w) a w)
      ∷ command (codes "load") (required ∷ playlist_slice ∷ [])
          (λ _. StoredPlaylists.load p u s.tracklist)
      ∷ command (codes "playlistadd") (required ∷ required ∷ [])
          (λ _. Edits.playlistadd s.setting p u s.library)
      ∷ command (codes "playlistclear") (required ∷ []) (λ _. Edits.playlistclear s.setting p u)
      ∷ command (codes "playlistdelete") (required ∷ uint_param ∷ [])
          (λ _. Edits.playlistdelete s.setting p u)
      ∷ command (codes "playlistmove") (required ∷ uint_param ∷ uint_param ∷ [])
          (λ _. Edits.playlistmove s.setting p u)
      ∷ command (codes "rename") (required ∷ required ∷ []) (λ _. Edits.rename s.setting p u)
      ∷ command (codes "rm") (required ∷ []) (λ _. Edits.rm s.setting p u)
      ∷ command (codes "save") (required ∷ []) (λ _. Edits.save s.setting p u s.tracklist)
      ∷ []

  abbrev pub music_db_handlers : List (CoreHandler W)
  music_db_handlers =
      let l = s.library in
      let u = s.uri_map in
      any_number (codes "count") (λ _. Finds.count s.searches)
      ∷ any_number (codes "find") (Finds.find s.searches)
      ∷ any_number (codes "findadd") (λ _. Finds.findadd s.searches s.tracklist)
      ∷ any_number (codes "list") (λ _. Finds.list_ s.searches)
      ∷ command (codes "listall") (optional ∷ []) (λ _. DbListings.listall l u s.fuel)
      ∷ command (codes "listallinfo") (optional ∷ []) (DbListings.listallinfo l u s.fuel)
      ∷ listfiles
      ∷ command (codes "lsinfo") (optional ∷ [])
          (λ tagtypes a w. DbListings.lsinfo l u s.fuel s.playlists (s.clock w) tagtypes a w)
      ∷ command (codes "rescan") (optional ∷ []) (λ _. DbListings.rescan)
      ∷ any_number (codes "search") (Finds.search s.searches)
      ∷ any_number (codes "searchadd") (λ _. Finds.searchadd s.searches s.tracklist)
      ∷ any_number (codes "searchaddpl") (λ _. DbListings.searchaddpl s.searches s.playlists u)
      ∷ command (codes "update") (optional ∷ []) (λ _. DbListings.update)
      ∷ []

  abbrev handler_lines : List Text → List Tag
  handler_lines [] = []
  handler_lines (scheme ∷ rest) = (codes "handler", str scheme) ∷ handler_lines rest

  -- src/mopidy_mpd/protocol/reflection.py, the one command of it that asks the core.
  unfoldable pub urlhandlers : List Arg → K W Result
  urlhandlers [] = do schemes ← ask s.get_uri_schemes; pure (tags_result (handler_lines schemes))
  urlhandlers _ = bad_call

  -- Every registered command that reaches the core.
  unfoldable pub all_handlers : List (CoreHandler W)
  unfolding core_handlers
  all_handlers =
      core_handlers s.outputs
      ++ (current_playlist_handlers
          ++ (music_db_handlers
              ++ (playback_handlers
                  ++ (command (codes "urlhandlers") [] (λ _. urlhandlers) ∷ status_handlers
                      ++ stored_playlist_handlers))))
