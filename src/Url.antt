-- ===== src/Url.antt =====
-- `urllib.parse.urlparse(…).scheme`, which src/mopidy_mpd/protocol/current_playlist.py and
-- stored_playlists.py read.
use mopidy_mpd.Prelude.{
  ℕ, ◌+◌, Text, codes, Bool, false, ◌&&◌, ◌||◌, Option, none, some, [], ◌∷◌, ◌==◌, leb,
  if◌then◌else◌, map,
}
use mopidy_mpd.Outcome.{Outcome, ok, raised, value_error}

is_upper : ℕ → Bool
is_upper c = leb b'A' c && leb c b'Z'

is_letter : ℕ → Bool
unfolding is_upper
is_letter c = is_upper c || (leb b'a' c && leb c b'z')

is_scheme_char : ℕ → Bool
unfolding is_letter
is_scheme_char c =
    is_letter c || (leb b'0' c && leb c b'9') || (c == b'+') || (c == b'-') || (c == b'.')

lower_ascii : ℕ → ℕ
unfolding is_upper
lower_ascii c = if is_upper c then c + 32 else c

-- Control characters and spaces in front, and line ends and tabs anywhere, are dropped.
drop_controls : Text → Text
drop_controls [] = []
drop_controls (c ∷ s) = let rest = drop_controls s in if leb c 32 then rest else c ∷ s

drop_line_ends : Text → Text
drop_line_ends [] = []
drop_line_ends (c ∷ s) =
    let rest = drop_line_ends s in if (c == 9) || (c == 10) || (c == 13) then rest else c ∷ rest

-- The characters of a scheme up to a colon, and the text behind that colon.
scheme_chars : Text → Option (Text × Text)
unfolding is_scheme_char
scheme_chars [] = none
scheme_chars (c ∷ s) =
    let rest = scheme_chars s in
    if c == b':'
    then some ([], s)
    else if is_scheme_char c
    then elim rest [ none ↦ none | some (name, url) ↦ some (c ∷ name, url) ]
    else none

split_scheme : Text → Text × Text
unfolding scheme_chars is_letter lower_ascii
split_scheme [] = ([], [])
split_scheme (c ∷ s) =
    if is_letter c
    then elim (scheme_chars (c ∷ s)) [
      | none ↦ ([], c ∷ s)
      | some (name, url) ↦ (map lower_ascii name, url)
    ]
    else ([], c ∷ s)

-- Up to the path, the query or the fragment.
location : Text → Text
location [] = []
location (c ∷ s) =
    let rest = location s in if (c == b'/') || (c == b'?') || (c == b'#') then [] else c ∷ rest

-- The network location behind two slashes, where they are there.
netloc : Text → Option Text
unfolding location
netloc (c ∷ d ∷ s) = if (c == b'/') && (d == b'/') then some (location s) else none
netloc _ = none

refused_netloc : (Text → Bool) → Option Text → Bool
refused_netloc bad_netloc none = false
refused_netloc bad_netloc (some place) = bad_netloc place

-- `bad_netloc` says which network locations `urlparse` refuses with a `ValueError`: it looks at
-- brackets, IP addresses and the normal form of Unicode texts.
unfoldable pub url_scheme : (Text → Bool) → Text → Outcome Text
unfolding split_scheme netloc refused_netloc drop_controls drop_line_ends
url_scheme bad_netloc url =
    let (scheme, rest) = split_scheme (drop_line_ends (drop_controls url)) in
    if refused_netloc bad_netloc (netloc rest) then raised value_error else ok scheme

-- `str(urlparse(uri).scheme)` where there may be no URI: the scheme of `None` is a bytes object.
unfoldable pub str_scheme : (Text → Bool) → Option Text → Outcome Text
unfolding url_scheme
str_scheme bad_netloc none = ok (codes "b''")
str_scheme bad_netloc (some url) = url_scheme bad_netloc url
