-- ===== src/CoreCommands/CurrentPlaylist/Additions.antt =====
-- src/mopidy_mpd/protocol/current_playlist.py: `add`, over `MpdContext.browse`.
use mopidy_mpd.Prelude.{
  ℕ, Text, codes, Bool, true, false, ◌&&◌, Option, none, some, List, [], ◌∷◌, ◌++◌, ◌==◌,
  if◌then◌else◌, is_empty,
}
use mopidy_mpd.Exceptions.{AckClass, no_exist_error, mpd_error}
use mopidy_mpd.Outcome.{Outcome, raised, ack}
use mopidy_mpd.Protocol.{Result, nothing, Arg, str_arg}
use mopidy_mpd.Url.{url_scheme}
use mopidy_mpd.CoreCommands.Core.{
  TlTrack, Ref, Library, UriMap, Tracklist, K, pure, throw, lift, done, bad_call, ◌>>=◌,
}
use mopidy_mpd.CoreCommands.Context.{browse}

-- `not uri.strip("/")`
unfoldable pub only_slashes : Text → Bool
only_slashes [] = true
only_slashes (c ∷ s) = (c == b'/') && only_slashes s

abbrev directory_or_file_not_found : Text
directory_or_file_not_found = codes "directory or file not found"

is_no_exist : AckClass → Bool
is_no_exist no_exist_error = true
is_no_exist _ = false

-- `except MpdNoExistError as exc`, which gets another message and goes on.
unfoldable pub renamed : {A : Type 0} → Outcome A → Outcome A
unfolding is_no_exist
renamed (raised (ack e)) =
    if is_no_exist e.class
    then raised (ack (record e { message = directory_or_file_not_found }))
    else raised (ack e)
renamed r = r

module _ {W : Type 0} (library : Library W) (uri_map : UriMap W) (tracklist : Tracklist W)
    (bad_netloc : Text → Bool) (fuel : ℕ) where
  -- The body of the loop over what is browsed: the URIs of the tracks, in order.
  unfoldable pub collect : List (Option Text) → Text → Option Ref → K W (List (Option Text))
  collect uris path none = pure uris
  collect uris path (some ref) = pure (uris ++ (ref.uri ∷ []))

  unfoldable pub browse_tracks : Text → K W (List (Option Text))
  unfolding browse collect renamed
  browse_tracks uri w =
      let (r, w') = browse library uri_map true (λ _ ref _. ref) collect fuel uri [] w in
      (renamed r, w')

  abbrev present : List (Option Text) → List Text
  present [] = []
  present (none ∷ uris) = present uris
  present (some uri ∷ uris) = uri ∷ present uris

  unfoldable pub add_uris : List (Option Text) → K W Result
  add_uris [] = throw (mpd_error no_exist_error directory_or_file_not_found none)
  add_uris (uri ∷ uris) = done (tracklist.add (present (uri ∷ uris)) none)

  unfoldable pub add_browsed : Text → K W Result
  unfolding browse_tracks add_uris
  add_browsed uri = do uris ← browse_tracks uri; add_uris uris

  unfoldable pub unless_added : Text → List TlTrack → K W Result
  unfolding add_browsed
  unless_added uri [] = add_browsed uri
  unless_added uri (t ∷ ts) = pure nothing

  unfoldable pub add_uri : Text → K W Result
  unfolding url_scheme unless_added add_browsed
  add_uri uri = do
    scheme ← lift (url_scheme bad_netloc uri)
    if is_empty scheme
        then add_browsed uri
        else do added ← tracklist.add (uri ∷ []) none; unless_added uri added

  unfoldable pub add : List Arg → K W Result
  unfolding only_slashes add_uri
  add (str_arg uri ∷ []) = if only_slashes uri then pure nothing else add_uri uri
  add _ = bad_call
