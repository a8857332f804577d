-- ===== src/LineProtocol/Wire.antt =====
-- `send_lines` of src/mopidy_mpd/network.py, and what its bytes say.
use mopidy_mpd.Prelude.{
  Text, ◌≡◌, ◌≤◌, refl, ap, ◌∙◌, some, List, [], ◌∷◌, ◌++◌, arith, append_assoc, map, join, All,
}
use mopidy_mpd.Utf8.{Bytes, decode_utf8}
use mopidy_mpd.Utf8.RoundTrip.{decode-encode}
use mopidy_mpd.LineProtocol.{break_line, parse_lines, strip_control, join_lines, wire, cons_line}
use mopidy_mpd.LineProtocol.Chunks.{parse_lines_step}

abbrev pub IsPrintable : Text → Type 0
IsPrintable = All (λ c. 32 ≤ c)

pub strip_control-IsPrintable : (s : Text) → IsPrintable (strip_control s)
unfolding strip_control
strip_control-IsPrintable [] = tt
strip_control-IsPrintable (c ∷ s) = ground (arith, strip_control-IsPrintable s)

-- A text with nothing to strip is sent as it is.
pub strip_control_same : (s : Text) → IsPrintable s → strip_control s ≡ s
unfolding strip_control
strip_control_same [] _ = refl
strip_control_same (c ∷ s) (hc, hs) = ground (arith, strip_control_same s hs)

break_line_printable :
    (l rest : Text) → IsPrintable l → break_line (l ++ 10 ∷ rest) ≡ some (l, rest)
unfolding break_line
break_line_printable [] [] _ = refl
break_line_printable [] (d ∷ rest) _ = refl
break_line_printable (c ∷ []) rest (hc, _) = ground (arith, break_line_printable [] rest tt)
break_line_printable (c ∷ d ∷ l) rest (hc, h) = ground (arith, break_line_printable (d ∷ l) rest h)

join_lines_cons : (l : Text) (ls : List Text) → join_lines (l ∷ ls) ≡ l ++ 10 ∷ join_lines ls
unfolding join_lines join
join_lines_cons l [] = refl
join_lines_cons l (m ∷ ls) = append_assoc l (10 ∷ join (10 ∷ []) (m ∷ ls)) (10 ∷ [])

parse_lines_nil : parse_lines [] ≡ ([], [])
unfolding parse_lines
parse_lines_nil = refl

parse-join_lines :
    (ls : List Text) → parse_lines (join_lines (map strip_control ls)) ≡ (map strip_control ls, [])
parse-join_lines [] = unfold join_lines in parse_lines_nil
parse-join_lines (l ∷ ls) =
    let stripped = strip_control l in
    let rest = map strip_control ls in
    ap parse_lines (join_lines_cons stripped rest)
    ∙ parse_lines_step (stripped ++ 10 ∷ join_lines rest) stripped (join_lines rest)
        (break_line_printable stripped (join_lines rest) (strip_control-IsPrintable l))
    ∙ ap (cons_line stripped) (parse-join_lines ls)

-- What send_lines puts on the wire, decoded and cut at the line ends, is exactly the lines of the
-- response, each without its control characters: no line smuggles in another.
pub parse_lines-wire :
    (lines : List Text) (bs : Bytes)
    → wire lines ≡ some bs
    → (text : Text) × (decode_utf8 bs ≡ some text)
      × (parse_lines text ≡ (map strip_control lines, []))
unfolding wire
parse_lines-wire lines bs h =
    (join_lines (map strip_control lines), decode-encode _ bs h, parse-join_lines lines)
