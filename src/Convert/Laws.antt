-- ===== src/Convert/Laws.antt =====
-- `UINT` and `RANGE` of src/mopidy_mpd/protocol/__init__.py on what a client prints.
use mopidy_mpd.Prelude.{
  ℕ, if_both, is_empty, ◌||◌, ◌+◌, ◌-◌, ◌*◌, ◌≤◌, ◌<◌, Text, ◌≡◌, ◌≢◌, refl, false, Option, none,
  some, [], ◌∷◌, ◌++◌, ltb, length, All, show_nat, read_from, read_from-show_nat, show_nat-All,
  IsAsciiDigit, arith, is_empty-show_nat, sym, ◌∙◌,
}
use mopidy_mpd.Outcome.{Outcome, ok, diverged}
use mopidy_mpd.Tokenize.{is_space, drop_while}
use mopidy_mpd.Convert.{
  digit_in, decimal_value, decimals, max_str_digits, to_outcome, uint, uint_lem, range_lem, Slice,
  split_colon, bounded, range_parts, range,
}

leb_false : (n : ℕ) → n ≤ max_str_digits → ltb max_str_digits n ≡ false
leb_false n h = ground arith

decimal_value_ascii : (c : ℕ) → IsAsciiDigit c → decimal_value c ≡ some (c - 48)
unfolding decimal_value digit_in
decimal_value_ascii c h = ground arith

decimals-read_from : (n : ℕ) (s : Text) → All IsAsciiDigit s → decimals n s ≡ some (read_from n s)
unfolding decimals
decimals-read_from n [] _ = refl
decimals-read_from n (c ∷ s) (hc, hs) =
    rw (decimal_value_ascii c hc, decimals) (decimals-read_from (n * 10 + (c - 48)) s hs)

-- `UINT` reads the decimal print of every number that is not longer than `int` allows.
pub uint-show_nat : (n : ℕ) → length (show_nat n) ≤ max_str_digits → uint (show_nat n) ≡ ok n
uint-show_nat n h =
    uint_lem (show_nat n)
    ∙ rw
        (
          is_empty-show_nat n,
          leb_false (length (show_nat n)) h,
          decimals-read_from 0 (show_nat n) (show_nat-All n),
          read_from-show_nat n,
        )
        (unfold to_outcome in refl)

-- A text with no colon in it.
abbrev NoColon : Text → Type 0
NoColon = All (λ c. c ≢ b':')

ascii-NoColon : (s : Text) → All IsAsciiDigit s → NoColon s
ascii-NoColon [] _ = tt
ascii-NoColon (c ∷ s) (hc, hs) = (λ e. omega arith, ascii-NoColon s hs)

split_colon-append : (s t : Text) → NoColon s → split_colon (s ++ b':' ∷ t) ≡ some (s, t)
unfolding split_colon
split_colon-append [] t _ = refl
split_colon-append (c ∷ s) t (hc, hs) = ground (arith, split_colon-append s t hs)

split_colon-none : (s : Text) → NoColon s → split_colon s ≡ none
unfolding split_colon
split_colon-none [] _ = refl
split_colon-none (c ∷ s) (hc, hs) = ground (arith, split_colon-none s hs)

ascii_not_space : (c : ℕ) → IsAsciiDigit c → is_space c ≡ false
unfolding is_space
ascii_not_space c h = ground arith

drop_while-ascii : (s : Text) → All IsAsciiDigit s → drop_while is_space s ≡ s
unfolding drop_while
drop_while-ascii [] _ = refl
drop_while-ascii (c ∷ s) (hc, hs) = rw (ascii_not_space c hc)

module _ (a : ℕ) (short_a : length (show_nat a) ≤ max_str_digits) where
  -- `n` stands for the one position.
  pub range-show_nat : range (show_nat a) ≡ ok (record { start = a; stop = some (a + 1) })
  range-show_nat =
      range_lem (show_nat a)
      ∙ rw (split_colon-none (show_nat a) (ascii-NoColon (show_nat a) (show_nat-All a)))
          (unfold range_parts in rw (uint-show_nat a short_a))

  -- n:, in decimal no longer than int allows, is read as all positions from n on.
  pub range-open : range (show_nat a ++ b':' ∷ []) ≡ ok (record { start = a; stop = none })
  range-open =
      range_lem (show_nat a ++ b':' ∷ [])
      ∙ rw (split_colon-append (show_nat a) [] (ascii-NoColon (show_nat a) (show_nat-All a)))
          (unfold range_parts drop_while in rw (uint-show_nat a short_a))

  -- n:m, in decimal, is read as the two positions, and refused unless the first is below the
  -- second; both are no longer than int allows.
  pub range-closed :
      (b : ℕ)
      → length (show_nat b) ≤ max_str_digits
      → range (show_nat a ++ b':' ∷ show_nat b) ≡ bounded a b
  range-closed b short_b =
      range_lem (show_nat a ++ b':' ∷ show_nat b)
      ∙ rw
          (split_colon-append (show_nat a) (show_nat b)
            (ascii-NoColon (show_nat a) (show_nat-All a)))
          (unfold range_parts in
            rw (
              uint-show_nat a short_a,
              drop_while-ascii (show_nat b) (show_nat-All b),
              is_empty-show_nat b,
              uint-show_nat b short_b,
            ))

range_parts-lt :
    (m : Option (Text × Text)) (value : Text) (s : Slice) (b : ℕ)
    → range_parts m value ≡ ok s
    → s.stop ≡ some b
    → s.start < b
unfolding range_parts bounded
range_parts-lt none value s b h e = ground arith
range_parts-lt (some (first, second)) value s b h e = ground arith

-- A range that `RANGE` accepts is never empty: its end, where it has one, is above its start.
pub range-start-lt-stop :
    (value : Text) (s : Slice) (b : ℕ) → range value ≡ ok s → s.stop ≡ some b → s.start < b
range-start-lt-stop value s b h =
    range_parts-lt (split_colon value) value s b (sym (range_lem value) ∙ h)

to_outcome-total : (n : Option ℕ) → to_outcome n ≢ diverged
unfolding to_outcome
to_outcome-total none = λ e. cc
to_outcome-total (some n) = λ e. cc

-- `UINT` returns or raises.
pub uint-total : (value : Text) → uint value ≢ diverged
uint-total value = rw (uint_lem value) (
    if_both (λ (o : Outcome ℕ). o ≢ diverged) (is_empty value || ltb max_str_digits (length value))
      (λ e. cc) (to_outcome-total (decimals 0 value)))
