-- ===== src/LineProtocol/Malformed.antt =====
-- `on_line_received` of src/mopidy_mpd/session.py in the loop of `on_receive` of network.py, on lines
-- that cannot be requests.
use mopidy_mpd.Prelude.{
  ℕ, suc, ◌≤◌, Text, codes, ◌≡◌, refl, sym, ap, ◌∙◌, Bool, false, Option, none, some, List, [], ◌∷◌,
  ◌++◌, append_assoc, append-nil, subst, inl, inr, ◌⊎◌, ◌<◌, All, All-append, length, length-append,
  arith,
}
use mopidy_mpd.Outcome.{Outcome, ok}
use mopidy_mpd.Utf8.{Bytes, decode_utf8}
use mopidy_mpd.Session.{Session, Effect, stop_connection, stop_actor}
use mopidy_mpd.Dispatcher.{Config}
use mopidy_mpd.Requests.{CoreHandler}
use mopidy_mpd.LineProtocol.{decode_line, starts_request, on_line_received, on_lines}

-- The connection or its actor is stopped; nothing is sent.
abbrev pub IsStop : Effect → Type 0
IsStop (stop_connection reason) = Unit
IsStop stop_actor = Unit
IsStop _ = ⊥

module _ {W : Type 0} (lower_letter : ℕ → Bool) (config : Config)
    (cores : List (CoreHandler W)) where
  -- The text does not start with a letter in lower case, which past ASCII `lower_letter` knows.
  abbrev pub NoLetter : Text → Type 0
  NoLetter [] = Unit
  NoLetter (c ∷ text) =
      ((c < 128) × ((c < 97) ⊎ (122 < c))) ⊎ ((128 ≤ c) × (lower_letter c ≡ false))

  abbrev pub IsMalformed : Bytes → Type 0
  IsMalformed line = (text : Text) → decode_utf8 line ≡ some text → NoLetter text

  NoLetter-starts :
      (text : Text) → NoLetter text → starts_request lower_letter config cores text ≡ false
  unfolding starts_request
  NoLetter-starts [] h = refl
  NoLetter-starts (c ∷ text) (inl (ascii, outside)) = ground (arith)
  NoLetter-starts (c ∷ text) (inr (beyond, h)) = ground (arith)

  -- What a line, and what all lines, leave of the session.
  abbrev pub Stopped : ℕ → Outcome (Unit {0}) × Session W → Session W → Type 0
  Stopped n x s =
      (added : List Effect) × (x ≡ (ok tt, record s { effects = s.effects ++ added }))
      × All IsStop added
      × (n ≤ length added)

  stop_message : Effect
  stop_message = stop_connection (codes "Malformed command")

  after-Stopped :
      (x : Outcome (Unit {0}) × Session W) (n : ℕ) (s : Session W) (stops : List Effect)
      → All IsStop stops
      → 1 ≤ length stops
      → Stopped n x (record s { effects = s.effects ++ stops })
      → Stopped (suc n) x s
  after-Stopped x n s stops are_stops some_stop (added, e, all_stops, enough) = (
    stops ++ added,
    e
        ∙ ap (λ (l : List Effect). (ok tt, record s { effects = l }))
            (append_assoc s.effects stops added),
    All-append IsStop stops added are_stops all_stops,
    omega (arith, length-append stops added, some_stop, enough),
  )

  text-stops :
      (line : Bytes) (text : Text) (lines : List Bytes) (s : Session W)
      → decode_utf8 line ≡ some text
      → starts_request lower_letter config cores text ≡ false
      → on_lines lower_letter config cores (line ∷ lines) s
        ≡ on_lines lower_letter config cores lines
            (record s { effects = s.effects ++ stop_message ∷ [] })
  unfolding on_lines on_line_received decode_line stop_message
  text-stops line text lines s decoded malformed =
      rw (decoded, decode_line) (rw (malformed, on_line_received) refl)

  bytes-stop :
      (line : Bytes) (lines : List Bytes) (s : Session W)
      → decode_utf8 line ≡ none
      → on_lines lower_letter config cores (line ∷ lines) s
        ≡ on_lines lower_letter config cores lines
            (record s { effects = (s.effects ++ stop_actor ∷ []) ++ stop_message ∷ [] })
  unfolding on_lines on_line_received decode_line starts_request stop_message
  bytes-stop line lines s decoded = rw (decoded, decode_line) refl

  line-Stopped :
      (line : Bytes) (lines : List Bytes) (n : ℕ) (s : Session W)
      → IsMalformed line
      → ((s' : Session W) → Stopped n (on_lines lower_letter config cores lines s') s')
      → Stopped (suc n) (on_lines lower_letter config cores (line ∷ lines) s) s
  unfolding stop_message
  line-Stopped line lines n s h rest = at (decode_utf8 line) refl
    where
      at :
          (o : Option Text)
          → decode_utf8 line ≡ o
          → Stopped (suc n) (on_lines lower_letter config cores (line ∷ lines) s) s
      at (some text) e =
          subst (λ (x : Outcome (Unit {0}) × Session W). Stopped (suc n) x s)
            (sym (text-stops line text lines s e (NoLetter-starts text (h text e))))
            (after-Stopped _ n s (stop_message ∷ []) (tt, tt) (omega arith)
              (rest (record s { effects = s.effects ++ stop_message ∷ [] })))
      at none e =
          subst (λ (x : Outcome (Unit {0}) × Session W). Stopped (suc n) x s)
            (sym (
              bytes-stop line lines s e
              ∙ ap
                  (λ (l : List Effect).
                    on_lines lower_letter config cores lines (record s { effects = l }))
                  (append_assoc s.effects (stop_actor ∷ []) (stop_message ∷ []))))
            (after-Stopped _ n s (stop_actor ∷ stop_message ∷ []) (tt, (tt, tt)) (omega arith)
              (rest (record s { effects = s.effects ++ stop_actor ∷ stop_message ∷ [] })))

  -- Lines of which none can start a request, since each is no text or does not start with a
  -- letter in lower case, change nothing in the session, the core with it, and have nothing sent,
  -- however many they are: all that they add is stops of the connection or of its actor, at least
  -- as many as there are lines.
  pub on_lines-Stopped :
      (lines : List Bytes) (s : Session W)
      → All IsMalformed lines
      → (added : List Effect) × (on_lines lower_letter config cores lines s
          ≡ (ok tt, record s { effects = s.effects ++ added }))
        × All IsStop added
        × (length lines ≤ length added)
  unfolding on_lines
  on_lines-Stopped [] s _ = (
    [],
    ap (λ (l : List Effect). (ok tt, record s { effects = l })) (sym (append-nil s.effects)),
    tt,
    omega arith,
  )
  on_lines-Stopped (line ∷ lines) s (h, hs) =
      line-Stopped line lines (length lines) s h (λ s'. on_lines-Stopped lines s' hs)
