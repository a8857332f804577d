-- ===== src/Tokenize/RoundTrip.antt =====
-- Request lines as a client writes them, for `split` of src/mopidy_mpd/tokenize.py.
use mopidy_mpd.Prelude.{
  ℕ, zero, suc, ◌≤◌, ◌<◌, subst, Text, ◌≡◌, ◌≢◌, refl, sym, ap, ◌∙◌, Bool, true, false, not, ◌&&◌,
  none, some, List, [], ◌∷◌, ◌++◌, map, append_assoc, append-nil, length, All, arith,
}
use mopidy_mpd.Outcome.{ok}
use mopidy_mpd.Tokenize.{
  is_space, is_plain, is_lower, is_word, quote, match_unquoted, match_closed, match_param,
  match_command, match_word, split_params, split_match, split, split_lem,
}
use mopidy_mpd.Tokenize.Total.{Leaves, match_param-Leaves}
use mopidy_mpd.Tokenize.Spans.{AllTrue, Stops, take_while-append, drop_while-append}
use mopidy_mpd.Tokenize.Written.{
  Param, value, escape, write_param, write_params, IsParam, IsCommand, plain_ne_quote,
  scan_quoted-escape, unescape-escape, after, separator-write_params, after-ne-nil, bare, in_quotes,
}

write_params-Stops : (f : ℕ → Bool) (ps : List Param) → f 32 ≡ false → Stops f (write_params ps)
unfolding write_params
write_params-Stops f [] h = tt
write_params-Stops f (p ∷ ps) h = h

match_unquoted-write_params : (ps : List Param) → match_unquoted (write_params ps) ≡ none
unfolding match_unquoted write_params is_plain
match_unquoted-write_params [] = refl
match_unquoted-write_params (p ∷ ps) = refl

-- A bare parameter is the longest run.
match_unquoted-write :
    (c : ℕ) (w : Text) (ps : List Param)
    → AllTrue (λ d. is_plain d && not (is_space d)) (c ∷ w)
    → All IsParam ps
    → match_unquoted (c ∷ (w ++ write_params ps)) ≡ some (c ∷ w, after ps)
unfolding match_unquoted
match_unquoted-write c [] ps (hc, _) hps =
    ground (arith, match_unquoted-write_params ps, separator-write_params ps hps)
match_unquoted-write c (d ∷ w) ps (hc, hw) hps = ground (arith, match_unquoted-write d w ps hw hps)

match_param-write :
    (p : Param) (ps : List Param)
    → IsParam p
    → All IsParam ps
    → match_param (after (p ∷ ps)) ≡ some (value p, after ps)
unfolding match_param after write_param
match_param-write (bare []) ps hp hps = absurd (hp.0 refl)
match_param-write (bare (c ∷ w)) ps hp hps =
    rw (plain_ne_quote c hp.1.0) (match_unquoted-write c w ps hp.1 hps)
match_param-write (in_quotes w) ps hp hps =
    rw
      (
        append_assoc (escape w) (quote ∷ []) (write_params ps),
        scan_quoted-escape w (write_params ps) hp,
      )
      (unfold match_closed in rw (separator-write_params ps hps) (rw (unescape-escape w hp)))

split_params_step :
    (fuel : ℕ) (command : Text) (result : List Text) (s param r : Text)
    → s ≢ []
    → match_param s ≡ some (param, r)
    → split_params (suc fuel) command result s ≡ split_params fuel command (result ++ param ∷ []) r
unfolding split_params
split_params_step fuel command result [] param r h e = absurd (h refl)
split_params_step fuel command result (c ∷ s) param r h e = rw (e, split_params)

split_params-nil :
    (fuel : ℕ) (command : Text) (result : List Text)
    → split_params fuel command result [] ≡ ok result
unfolding split_params
split_params-nil zero command result = refl
split_params-nil (suc fuel) command result = refl

length-pos : (s : Text) → s ≢ [] → 0 < length s
length-pos [] h = absurd (h refl)
length-pos (c ∷ s) h = omega arith

after-shorter :
    (p : Param) (ps : List Param)
    → IsParam p
    → All IsParam ps
    → length (after ps) < length (after (p ∷ ps))
after-shorter p ps hp hps =
    subst (Leaves (length (after (p ∷ ps)))) (match_param-write p ps hp hps)
      (match_param-Leaves (after (p ∷ ps)))

split_params-after :
    (fuel : ℕ) (command : Text) (result : List Text) (ps : List Param)
    → length (after ps) ≤ fuel
    → All IsParam ps
    → split_params fuel command result (after ps) ≡ ok (result ++ map value ps)
split_params-after fuel command result [] h _ =
    unfold after in split_params-nil fuel command result ∙ ap ok (sym (append-nil result))
split_params-after zero command result (p ∷ ps) h (hp, hps) =
    absurd (omega (arith, length-pos (after (p ∷ ps)) (after-ne-nil p ps hp)))
split_params-after (suc fuel) command result (p ∷ ps) h (hp, hps) =
    split_params_step fuel command result (after (p ∷ ps)) (value p) (after ps)
      (after-ne-nil p ps hp) (match_param-write p ps hp hps)
    ∙ split_params-after fuel command (result ++ value p ∷ []) ps
        (omega (arith, after-shorter p ps hp hps)) hps
    ∙ ap ok (append_assoc result (value p ∷ []) (map value ps))

-- The line of a request.
pub write_request : Text → List Param → Text
write_request command ps = command ++ write_params ps

lower_not_space : (c : ℕ) → is_lower c ≡ true → is_space c ≡ false
unfolding is_lower is_space
lower_not_space c h = ground arith

match_word-write :
    (c : ℕ) (w : Text) (ps : List Param)
    → is_lower c ≡ true
    → AllTrue is_word w
    → All IsParam ps
    → match_word (c ∷ (w ++ write_params ps)) ≡ some ([], c ∷ w, after ps)
unfolding match_word match_command
match_word-write c w ps hc hw hps =
    let stop = write_params-Stops is_word ps (unfold is_word is_lower in refl) in
    let line = c ∷ (w ++ write_params ps) in
    rw (
      take_while-append is_space [] line tt (lower_not_space c hc),
      drop_while-append is_space [] line tt (lower_not_space c hc),
      hc,
      take_while-append is_word w (write_params ps) hw stop,
      drop_while-append is_word w (write_params ps) hw stop,
      separator-write_params ps hps,
    )

-- A line written from a command word and any parameters, bare or in quotes, is split into exactly
-- that command and the texts of the parameters, in order.
pub split-write_request :
    (command : Text) (ps : List Param)
    → IsCommand command
    → All IsParam ps
    → split (write_request command ps) ≡ ok (command ∷ map value ps)
unfolding write_request
split-write_request [] ps h hps = absurd h
split-write_request (c ∷ w) ps (hc, hw) hps =
    split_lem (c ∷ (w ++ write_params ps))
    ∙ rw
        (
          drop_while-append is_space [] (c ∷ (w ++ write_params ps)) tt (lower_not_space c hc),
          match_word-write c w ps hc hw hps,
        )
        (unfold split_match in
          split_params-after (length (after ps)) (c ∷ w) ((c ∷ w) ∷ []) ps (omega arith) hps)
