-- ===== src/Utf8.antt =====
-- Python's strict UTF-8 codec, which src/mopidy_mpd/network.py's `encode` and `decode` call.
pub mod RoundTrip
use mopidy_mpd.Prelude.{
  ℕ, zero, suc, ◌+◌, ◌-◌, ◌*◌, ◌/◌, ◌%◌, ◌≡◌, refl, Text, Bool, true, false, ◌&&◌, ◌||◌, not,
  Option, none, some, List, [], ◌∷◌, ◌++◌, ltb, leb, ◌==◌, if◌then◌else◌,
}
use mathlib.Core.Option

abbrev pub Bytes : Type 0
Bytes = List ℕ

-- A code point that is no surrogate and not past the end of Unicode.
abbrev pub is_scalar : ℕ → Bool
is_scalar c = ltb c 0xd800 || (leb 0xe000 c && leb c 0x10ffff)

-- What one byte does: it is refused, it ends a character, or `need` more bytes follow for a code
-- point of at least `least`, of which `bits` is the part so far.
pub data Step : Type 0 where
  refuse : Step
  char : ℕ → Step
  more : ℕ → ℕ → ℕ → Step

pub lead : ℕ → Step
lead b =
    if ltb b 0x80
    then char b
    else if ltb b 0xc0
    then refuse
    else if ltb b 0xe0
    then more 1 (b - 0xc0) 0x80
    else if ltb b 0xf0
    then more 2 (b - 0xe0) 0x800
    else if ltb b 0xf8
    then more 3 (b - 0xf0) 0x10000
    else refuse

pub follow : ℕ → ℕ → ℕ → ℕ → Step
follow need bits least b =
    let c = bits * 64 + (b - 0x80) in
    if not (leb 0x80 b && ltb b 0xc0)
    then refuse
    else if ltb 1 need
    then more (need - 1) c least
    else if leb least c && is_scalar c
    then char c
    else refuse

-- The state is `none` between characters.
pub decode_from : Option (ℕ × ℕ × ℕ) → Bytes → Option Text
decode_from none [] = some []
decode_from (some _) [] = none
decode_from none (b ∷ bs) = elim (lead b) [
  | refuse ↦ none
  | char c ↦ Option.map (λ s. c ∷ s) (decode_from none bs)
  | more n a l ↦ decode_from (some (n, a, l)) bs
]
decode_from (some (need, bits, least)) (b ∷ bs) = elim (follow need bits least b) [
  | refuse ↦ none
  | char c ↦ Option.map (λ s. c ∷ s) (decode_from none bs)
  | more n a l ↦ decode_from (some (n, a, l)) bs
]

-- `line.decode("utf-8")`; `none` for the `UnicodeError`
unfoldable pub decode_utf8 : Bytes → Option Text
unfolding decode_from lead follow
decode_utf8 = decode_from none

pub encode_char : ℕ → Bytes
encode_char c =
    if ltb c 0x80
    then c ∷ []
    else if ltb c 0x800
    then (0xc0 + c / 64) ∷ (0x80 + c % 64) ∷ []
    else if ltb c 0x10000
    then (0xe0 + c / 4096) ∷ (0x80 + c / 64 % 64) ∷ (0x80 + c % 64) ∷ []
    else (0xf0 + c / 262144) ∷ (0x80 + c / 4096 % 64) ∷ (0x80 + c / 64 % 64) ∷ (0x80 + c % 64) ∷ []

-- `line.encode("utf-8")`; `none` for the `UnicodeError` of a surrogate
unfoldable pub encode_utf8 : Text → Option Bytes
unfolding encode_char
encode_utf8 [] = some []
encode_utf8 (c ∷ s) =
    let rest = encode_utf8 s in
    if is_scalar c then Option.map (λ bs. encode_char c ++ bs) rest else none
