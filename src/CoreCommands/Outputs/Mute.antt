-- ===== src/CoreCommands/Outputs/Mute.antt =====
-- src/mopidy_mpd/protocol/audio_output.py: what `outputs` shows behind the other commands.
use mopidy_mpd.Prelude.{
  codes, ◌≡◌, pos, Bool, true, false, not, Option, some, none, [], ◌∷◌, ◌∙◌, ap,
}
use mopidy_mpd.Outcome.{Outcome, ok, ◌>>=◌}
use mopidy_mpd.Protocol.{int_arg, Result, str, int, many, items, pair}
use mopidy_mpd.CoreCommands.Outputs.{
  Mixer, enableoutput, disableoutput, toggle_from, toggleoutput, output_lines, outputs,
}

-- The answer of `outputs`: one output, which is enabled or not.
abbrev pub shown : Bool → Result
shown enabled = many (
    items (
      pair (codes "outputid") (int (pos 0))
      ∷ pair (codes "outputname") (str (codes "Mute"))
      ∷ pair (codes "outputenabled") (int (elim enabled [ true ↦ pos 1 | false ↦ pos 0 ]))
      ∷ []))

module _ {W : Type 0} (mixer : Mixer W) where
  shown-from :
      (b : Bool) (w : W) → mixer.get_mute w ≡ ok (some b) → (outputs mixer [] w).0 ≡ ok (shown b)
  unfolding outputs output_lines
  shown-from true w h =
      ap (λ (o : Outcome (Option Bool)). ◌>>=◌ {B = Result} o (λ m. ok (output_lines m))) h
  shown-from false w h =
      ap (λ (o : Outcome (Option Bool)). ◌>>=◌ {B = Result} o (λ m. ok (output_lines m))) h

  -- Where the mixer gives its status and keeps what set_mute sets, outputs shows the output as
  -- enabled behind enableoutput 0, as not enabled behind disableoutput 0, and behind toggleoutput 0 as
  -- enabled just where it was not, or where it had no status.
  pub outputs-shown :
      (mute : Option Bool) (w : W)
      → mixer.get_mute w ≡ ok mute
      → ((b : Bool) (v : W) → mixer.get_mute (mixer.set_mute b v).1 ≡ ok (some b))
      → ((outputs mixer [] (enableoutput mixer (int_arg (pos 0) ∷ []) w).1).0 ≡ ok (shown true))
        × ((outputs mixer [] (disableoutput mixer (int_arg (pos 0) ∷ []) w).1).0 ≡ ok (shown false))
        × ((outputs mixer [] (toggleoutput mixer (int_arg (pos 0) ∷ []) w).1).0
            ≡ ok (shown (elim mute [ none ↦ true | some b ↦ not b ])))
  unfolding enableoutput disableoutput toggleoutput
  outputs-shown mute w h keeps = (
    shown-from true (mixer.set_mute true w).1 (keeps true w),
    shown-from false (mixer.set_mute false w).1 (keeps false w),
    ap (λ (o : Outcome (Option Bool)). (outputs mixer [] (toggle_from mixer o w).1).0) h
        ∙ toggled mute,
  )
    where
      toggled :
          (m : Option Bool)
          → (outputs mixer [] (toggle_from mixer (ok m) w).1).0
            ≡ ok (shown (elim m [ none ↦ true | some b ↦ not b ]))
      toggled none = shown-from true (mixer.set_mute true w).1 (keeps true w)
      toggled (some b) = shown-from (not b) (mixer.set_mute (not b) w).1 (keeps (not b) w)
