-- ===== src/LineProtocol/Chunks.antt =====
-- `parse_lines` of src/mopidy_mpd/network.py on a stream of bytes that comes in pieces.
use mopidy_mpd.Prelude.{
  ℕ, zero, suc, ◌≤◌, ◌<◌, ◌≡◌, refl, ap, subst, sym, ◌∙◌, Option, none, some, List, [], ◌∷◌, ◌++◌,
  length, arith, Option-cases, inl, inr,
}
use mopidy_mpd.Utf8.{Bytes}
use mopidy_mpd.LineProtocol.{
  break_line, cons_line, parse_lines_within, parse_lines, parse_lines_lem,
}

-- More bytes behind a line that has ended leave the line as it is.
abbrev Extended : Bytes → Option (Bytes × Bytes) → Option (Bytes × Bytes) → Type 0
Extended b none x = Unit
Extended b (some (l, r)) x = x ≡ some (l, r ++ b)

break_line-append : (a b : Bytes) → Extended b (break_line a) (break_line (a ++ b))
unfolding break_line
break_line-append [] b = tt
break_line-append (c ∷ []) [] = ground arith
break_line-append (c ∷ []) (d ∷ b) = ground arith
break_line-append (c ∷ d ∷ s) b = ground (arith, break_line-append (d ∷ s) b)

abbrev Shorter : ℕ → Option (Bytes × Bytes) → Type 0
Shorter n none = Unit
Shorter n (some (l, r)) = length r < n

break_line-Shorter : (a : Bytes) → Shorter (length a) (break_line a)
unfolding break_line
break_line-Shorter [] = tt
break_line-Shorter (c ∷ []) = ground arith
break_line-Shorter (c ∷ d ∷ s) = ground (arith, break_line-Shorter (d ∷ s))

-- One line, then the lines of the rest, whatever the bound.
parse_step :
    (fuel : ℕ) (a l r : Bytes)
    → break_line a ≡ some (l, r)
    → parse_lines_within (suc fuel) a ≡ cons_line l (parse_lines_within fuel r)
unfolding parse_lines_within
parse_step fuel a l r h = rw (h, parse_lines_within)

parse_done : (fuel : ℕ) (a : Bytes) → break_line a ≡ none → parse_lines_within fuel a ≡ ([], a)
unfolding parse_lines_within
parse_done zero a h = refl
parse_done (suc fuel) a h = rw (h, parse_lines_within)

shorter_of : (a l r : Bytes) → break_line a ≡ some (l, r) → length r < length a
shorter_of a l r h = subst (Shorter (length a)) h (break_line-Shorter a)

pub break_line-nil : break_line [] ≡ none
unfolding break_line
break_line-nil = refl

-- Any bound of at least the buffer's length gives the same lines.
parse_enough :
    (m n : ℕ) (a : Bytes)
    → length a ≤ m
    → length a ≤ n
    → parse_lines_within m a ≡ parse_lines_within n a
parse_enough zero n [] hm hn =
    parse_done zero [] break_line-nil ∙ sym (parse_done n [] break_line-nil)
parse_enough zero n (c ∷ a) hm hn = absurd (omega arith)
parse_enough (suc m) zero [] hm hn =
    parse_done (suc m) [] break_line-nil ∙ sym (parse_done zero [] break_line-nil)
parse_enough (suc m) zero (c ∷ a) hm hn = absurd (omega arith)
parse_enough (suc m) (suc n) a hm hn = elim (Option-cases (break_line a)) [
  | inl e ↦ parse_done (suc m) a e ∙ sym (parse_done (suc n) a e)
  | inr ((l, r), e) ↦
      parse_step m a l r e
      ∙ ap (cons_line l) (
          parse_enough m n r (omega (arith, shorter_of a l r e))
            (omega (arith, shorter_of a l r e)))
      ∙ sym (parse_step n a l r e)
]

-- No line is left in the buffer that `parse_lines` leaves.
parse_rest :
    (fuel : ℕ) (a : Bytes) → length a ≤ fuel → break_line (parse_lines_within fuel a).1 ≡ none
parse_rest zero [] h = rw (parse_done zero [] break_line-nil) break_line-nil
parse_rest zero (c ∷ a) h = absurd (omega arith)
parse_rest (suc fuel) a h = elim (Option-cases (break_line a)) [
  | inl e ↦ rw (parse_done (suc fuel) a e) e
  | inr ((l, r), e) ↦
      rw (parse_step fuel a l r e) (parse_rest fuel r (omega (arith, shorter_of a l r e)))
]

pub parse_lines_step :
    (a l r : Bytes) → break_line a ≡ some (l, r) → parse_lines a ≡ cons_line l (parse_lines r)
parse_lines_step a l r e =
    let shorter = shorter_of a l r e in
    parse_lines_lem a
    ∙ parse_enough (length a) (suc (length a)) a (omega arith) (omega arith)
    ∙ parse_step (length a) a l r e
    ∙ ap (cons_line l)
        (parse_enough (length a) (length r) r (omega arith) (omega arith) ∙ sym (parse_lines_lem r))

extended_of :
    (a b l r : Bytes) → break_line a ≡ some (l, r) → break_line (a ++ b) ≡ some (l, r ++ b)
extended_of a b l r e =
    subst (λ (m : Option (Bytes × Bytes)). Extended b m (break_line (a ++ b))) e
      (break_line-append a b)

-- The lines of `a ++ b`: those of `a`, then those of its rest with `b` behind it.
abbrev after_lines : List Bytes × Bytes → Bytes → List Bytes × Bytes
after_lines (ls, r) b = let (ms, t) = parse_lines (r ++ b) in (ls ++ ms, t)

parse-append :
    (fuel : ℕ) (a b : Bytes)
    → length a ≤ fuel
    → parse_lines (a ++ b) ≡ after_lines (parse_lines_within fuel a) b
parse-append zero [] b h = rw (parse_done zero [] break_line-nil)
parse-append zero (c ∷ a) b h = absurd (omega arith)
parse-append (suc fuel) a b h = elim (Option-cases (break_line a)) [
  | inl e ↦ rw (parse_done (suc fuel) a e)
  | inr ((l, r), e) ↦
      parse_lines_step (a ++ b) l (r ++ b) (extended_of a b l r e)
      ∙ ap (cons_line l) (parse-append fuel r b (omega (arith, shorter_of a l r e)))
      ∙ ap (λ (x : List Bytes × Bytes). after_lines x b) (sym (parse_step fuel a l r e))
]

-- Data that comes in two pieces gives the lines that it gives in one: those of the first piece,
-- then those of what it left in the buffer with the second piece behind it.
pub parse_lines-append :
    (a b : Bytes)
    → parse_lines (a ++ b) ≡ (
      (parse_lines a).0 ++ (parse_lines ((parse_lines a).1 ++ b)).0,
      (parse_lines ((parse_lines a).1 ++ b)).1,
    )
parse_lines-append a b =
    parse-append (length a) a b (omega arith)
    ∙ ap (λ (x : List Bytes × Bytes). after_lines x b) (sym (parse_lines_lem a))

-- The buffer that parse_lines leaves holds no further line, so the bound on its rounds is enough.
pub parse_lines_rest : (a : Bytes) → break_line (parse_lines a).1 ≡ none
parse_lines_rest a =
    subst (λ (x : List Bytes × Bytes). break_line x.1 ≡ none) (sym (parse_lines_lem a))
      (parse_rest (length a) a (omega arith))
