-- ===== src/Tests/Parsing.antt =====
-- Lines, tokens, numbers and bytes at concrete inputs.
use mopidy_mpd.Prelude.{
  Text, codes, ◌≡◌, ◌≢◌, refl, true, none, some, [], ◌∷◌, ◌++◌, map, All, ◌&&◌, not,
}
use mopidy_mpd.Exceptions.{mpd_error, arg_error}
use mopidy_mpd.Outcome.{ok, diverged, ack}
use mopidy_mpd.Utf8.{encode_utf8, decode_utf8}
use mopidy_mpd.Tokenize.{split, is_lower, is_space, is_plain}
use mopidy_mpd.Tokenize.Total.{split-total}
use mopidy_mpd.Tokenize.RoundTrip.{write_request, split-write_request}
use mopidy_mpd.Tokenize.Written.{bare, in_quotes, IsCommand}
use mopidy_mpd.Tokenize.Commands.{FirstToken, split-FirstToken}
use mopidy_mpd.Convert.{range, uint}
use mopidy_mpd.LineProtocol.{parse_lines, break_line, wire, strip_control}
use mopidy_mpd.LineProtocol.Chunks.{parse_lines-append, parse_lines_rest}
use mopidy_mpd.LineProtocol.Wire.{parse_lines-wire}
use mopidy_mpd.Tests.Sessions.{louder_is_word}
use mopidy_mpd.Exceptions.{mpd_no_command_error, unknown_error}
use mopidy_mpd.Outcome.{raised, value_error}

louder_IsCommand : IsCommand (codes "louder")
unfolding is_lower
louder_IsCommand = (refl, louder_is_word.1)

a_param_is_bare : All (λ c. (is_plain c && not (is_space c)) ≡ true) (codes "a")
unfolding is_plain is_space
a_param_is_bare = (refl, tt)

split-write_request_example :
    split (write_request (codes "louder") (bare (codes "a") ∷ in_quotes (codes "b \"c") ∷ []))
    ≡ ok (codes "louder" ∷ codes "a" ∷ codes "b \"c" ∷ [])
split-write_request_example =
    split-write_request (codes "louder") (bare (codes "a") ∷ in_quotes (codes "b \"c") ∷ [])
      louder_IsCommand
      (((λ e. cc), a_param_is_bare), (((λ e. cc), ((λ e. cc), ((λ e. cc), ((λ e. cc), tt)))), tt))

split-FirstToken_example : FirstToken (codes "add b") (codes "add" ∷ codes "b" ∷ [])
unfolding split
split-FirstToken_example = split-FirstToken (codes "add b") (codes "add" ∷ codes "b" ∷ []) refl

split-total_example : split (codes "add \"a\" b") ≢ diverged
split-total_example = split-total (codes "add \"a\" b")

parse_lines-append_example : parse_lines (codes "pi" ++ codes "ng") ≡ (
  (parse_lines (codes "pi")).0 ++ (parse_lines ((parse_lines (codes "pi")).1 ++ codes "ng")).0,
  (parse_lines ((parse_lines (codes "pi")).1 ++ codes "ng")).1,
)
parse_lines-append_example = parse_lines-append (codes "pi") (codes "ng")

parse_lines_rest_example : break_line (parse_lines (98 ∷ 10 ∷ 99 ∷ [])).1 ≡ none
parse_lines_rest_example = parse_lines_rest (98 ∷ 10 ∷ 99 ∷ [])

parse_lines-wire_example :
    (text : Text) × (decode_utf8 (codes "OK" ++ 10 ∷ []) ≡ some text)
    × (parse_lines text ≡ (map strip_control ((9 ∷ codes "OK") ∷ []), []))
unfolding wire encode_utf8
parse_lines-wire_example = parse_lines-wire ((9 ∷ codes "OK") ∷ []) (codes "OK" ++ 10 ∷ []) refl

split_quoted :
    split (codes "add  \"a \\\"b\\\\\" c") ≡ ok (codes "add" ∷ codes "a \"b\\" ∷ codes "c" ∷ [])
unfolding split
split_quoted = refl

split_errors :
    (split (codes " \t") ≡ raised (ack mpd_no_command_error))
    × (split (codes "add \"a\"b")
        ≡ raised (
            ack (
              mpd_error arg_error
                (codes "Space expected after closing '\"'")
                (some (codes "add")))))
    × (split (codes "add \"a")
        ≡ raised (ack (mpd_error arg_error (codes "Missing closing '\"'") (some (codes "add")))))
    × (split (codes " add") ≡ raised (ack (mpd_error unknown_error (codes "Letter expected") none)))
unfolding split
split_errors = (refl, refl, refl, refl)

decode_tests :
    (decode_utf8 (0x68 ∷ 0xc3 ∷ 0xa9 ∷ 0xe2 ∷ 0x82 ∷ 0xac ∷ []) ≡ some (0x68 ∷ 0xe9 ∷ 0x20ac ∷ []))
    × (decode_utf8 (0xc0 ∷ 0x80 ∷ []) ≡ none)
    × (decode_utf8 (0xed ∷ 0xa0 ∷ 0x80 ∷ []) ≡ none)
    × (decode_utf8 (0xe2 ∷ 0x82 ∷ []) ≡ none)
unfolding decode_utf8
decode_tests = (refl, refl, refl, refl)

range_tests :
    (range (codes "7") ≡ ok (record { start = 7; stop = some 8 }))
    × (range (codes "7:") ≡ ok (record { start = 7; stop = none }))
    × (range (codes "2:4") ≡ ok (record { start = 2; stop = some 4 }))
    × (range (codes "4:4") ≡ raised value_error)
    × (range (codes "-1") ≡ raised value_error)
    × (range (codes ":4") ≡ raised value_error)
unfolding range uint
range_tests = (refl, refl, refl, refl, refl, refl)
