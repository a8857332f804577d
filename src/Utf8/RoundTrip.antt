-- ===== src/Utf8/RoundTrip.antt =====
-- The two directions of the codec of `encode` and `decode` in src/mopidy_mpd/network.py.
use mopidy_mpd.Prelude.{
  ℕ, suc, ◌+◌, ◌*◌, ◌/◌, ◌%◌, ◌≡◌, refl, ap, sym, subst, ◌∙◌, Text, true, Option, none, some, [],
  ◌∷◌, ◌++◌, ltb, arith, Bool-cases, inl, inr, ◌<◌, ◌≤◌,
}
use mathlib.Core.Option
use mopidy_mpd.Utf8.{
  Bytes, is_scalar, char, more, lead, follow, decode_from, decode_utf8, encode_char, encode_utf8,
}

abbrev emit : ℕ → Option Text → Option Text
emit c = Option.map (λ s. c ∷ s)

-- The bytes of each length, one lemma for a step.
lead_one : (c : ℕ) → ltb c 0x80 ≡ true → lead c ≡ char c
unfolding lead
lead_one c h = ground arith

lead_two : (q : ℕ) → q < 32 → lead (0xc0 + q) ≡ more 1 q 0x80
unfolding lead
lead_two q h = ground arith

lead_three : (q : ℕ) → q < 16 → lead (0xe0 + q) ≡ more 2 q 0x800
unfolding lead
lead_three q h = ground arith

lead_four : (q : ℕ) → q < 8 → lead (0xf0 + q) ≡ more 3 q 0x10000
unfolding lead
lead_four q h = ground arith

follow_more :
    (n q least r : ℕ)
    → r < 64
    → follow (suc (suc n)) q least (0x80 + r) ≡ more (suc n) (q * 64 + r) least
unfolding follow
follow_more n q least r h = ground arith

follow_last :
    (q least r : ℕ)
    → r < 64
    → least ≤ q * 64 + r
    → is_scalar (q * 64 + r) ≡ true
    → follow 1 q least (0x80 + r) ≡ char (q * 64 + r)
unfolding follow
follow_last q least r h l s = ground arith

module _ (bs : Bytes) where
  decode_lead_char :
      (b c : ℕ) → lead b ≡ char c → decode_from none (b ∷ bs) ≡ emit c (decode_from none bs)
  unfolding decode_from
  decode_lead_char b c h = rw (h, decode_from)

  decode_lead_more :
      (b n a l : ℕ)
      → lead b ≡ more n a l
      → decode_from none (b ∷ bs) ≡ decode_from (some (n, a, l)) bs
  unfolding decode_from
  decode_lead_more b n a l h = rw (h, decode_from)

  decode_follow_more :
      (b need a l n a' : ℕ)
      → follow need a l b ≡ more n a' l
      → decode_from (some (need, a, l)) (b ∷ bs) ≡ decode_from (some (n, a', l)) bs
  unfolding decode_from
  decode_follow_more b need a l n a' h = rw (h, decode_from)

  decode_follow_char :
      (b need a l c : ℕ)
      → follow need a l b ≡ char c
      → decode_from (some (need, a, l)) (b ∷ bs) ≡ emit c (decode_from none bs)
  unfolding decode_from
  decode_follow_char b need a l c h = rw (h, decode_from)

-- The last two bytes of a code point, behind a state with its upper part.
decode_last :
    (c least : ℕ) (bs : Bytes)
    → least ≤ c
    → is_scalar c ≡ true
    → decode_from (some (1, c / 64, least)) ((0x80 + c % 64) ∷ bs) ≡ emit c (decode_from none bs)
decode_last c least bs h s =
    let whole : c / 64 * 64 + c % 64 ≡ c = omega arith in
    decode_follow_char bs (0x80 + c % 64) 1 (c / 64) least c (
      subst (λ (k : ℕ). follow 1 (c / 64) least (0x80 + c % 64) ≡ char k) whole
        (follow_last (c / 64) least (c % 64) (omega arith) (rw whole h) (rw whole s)))

decode_middle :
    (n q least : ℕ) (bs : Bytes)
    → decode_from (some (suc (suc n), q / 64, least)) ((0x80 + q % 64) ∷ bs)
      ≡ decode_from (some (suc n, q, least)) bs
decode_middle n q least bs =
    let whole : q / 64 * 64 + q % 64 ≡ q = omega arith in
    decode_follow_more bs (0x80 + q % 64) (suc (suc n)) (q / 64) least (suc n) q (
      subst (λ (k : ℕ). follow (suc (suc n)) (q / 64) least (0x80 + q % 64) ≡ more (suc n) k least)
        whole (follow_more n (q / 64) least (q % 64) (omega arith)))

decode_two :
    (c : ℕ) (bs : Bytes)
    → 0x80 ≤ c
    → c < 0x800
    → is_scalar c ≡ true
    → decode_from none ((0xc0 + c / 64) ∷ (0x80 + c % 64) ∷ bs) ≡ emit c (decode_from none bs)
decode_two c bs low high s =
    decode_lead_more ((0x80 + c % 64) ∷ bs) (0xc0 + c / 64) 1 (c / 64) 0x80
      (lead_two (c / 64) (omega arith))
    ∙ decode_last c 0x80 bs low s

decode_three :
    (c : ℕ) (bs : Bytes)
    → 0x800 ≤ c
    → c < 0x10000
    → is_scalar c ≡ true
    → decode_from none ((0xe0 + c / 4096) ∷ (0x80 + c / 64 % 64) ∷ (0x80 + c % 64) ∷ bs)
      ≡ emit c (decode_from none bs)
decode_three c bs low high s =
    let q : c / 4096 ≡ c / 64 / 64 = omega arith in
    decode_lead_more ((0x80 + c / 64 % 64) ∷ (0x80 + c % 64) ∷ bs) (0xe0 + c / 4096) 2 (c / 4096)
      0x800 (lead_three (c / 4096) (omega arith))
    ∙ subst
        (λ (k : ℕ).
          decode_from (some (2, k, 0x800)) ((0x80 + c / 64 % 64) ∷ (0x80 + c % 64) ∷ bs)
          ≡ decode_from (some (1, c / 64, 0x800)) ((0x80 + c % 64) ∷ bs))
        (sym q) (decode_middle 0 (c / 64) 0x800 ((0x80 + c % 64) ∷ bs))
    ∙ decode_last c 0x800 bs low s

decode_four :
    (c : ℕ) (bs : Bytes)
    → 0x10000 ≤ c
    → is_scalar c ≡ true
    → decode_from none
        ((0xf0 + c / 262144) ∷ (0x80 + c / 4096 % 64) ∷ (0x80 + c / 64 % 64) ∷ (0x80 + c % 64) ∷ bs)
      ≡ emit c (decode_from none bs)
decode_four c bs low s =
    let q : c / 262144 ≡ c / 4096 / 64 = omega arith in
    let r : c / 4096 ≡ c / 64 / 64 = omega arith in
    let top : c ≤ 0x10ffff = ground arith in
    let tail : Bytes = (0x80 + c / 64 % 64) ∷ (0x80 + c % 64) ∷ bs in
    decode_lead_more ((0x80 + c / 4096 % 64) ∷ (0x80 + c / 64 % 64) ∷ (0x80 + c % 64) ∷ bs)
      (0xf0 + c / 262144) 3 (c / 262144) 0x10000 (lead_four (c / 262144) (omega arith))
    ∙ subst
        (λ (k : ℕ).
          decode_from (some (3, k, 0x10000)) ((0x80 + c / 4096 % 64) ∷ tail)
          ≡ decode_from (some (2, c / 4096, 0x10000)) tail)
        (sym q) (decode_middle 1 (c / 4096) 0x10000 tail)
    ∙ subst
        (λ (k : ℕ).
          decode_from (some (2, k, 0x10000)) tail
          ≡ decode_from (some (1, c / 64, 0x10000)) ((0x80 + c % 64) ∷ bs))
        (sym r) (decode_middle 0 (c / 64) 0x10000 ((0x80 + c % 64) ∷ bs))
    ∙ decode_last c 0x10000 bs low s

decode-encode_char :
    (c : ℕ) (bs : Bytes)
    → is_scalar c ≡ true
    → decode_from none (encode_char c ++ bs) ≡ emit c (decode_from none bs)
unfolding encode_char
decode-encode_char c bs s = elim (Bool-cases (ltb c 0x80)) [
  | inl one ↦ rw one (decode_lead_char bs c c (lead_one c one))
  | inr a ↦ elim (Bool-cases (ltb c 0x800)) [
    | inl two ↦ rw (a, two) (decode_two c bs (ground arith) (ground arith) s)
    | inr b ↦ elim (Bool-cases (ltb c 0x10000)) [
      | inl three ↦ rw (a, b, three) (decode_three c bs (ground arith) (ground arith) s)
      | inr four ↦ rw (a, b, four) (decode_four c bs (ground arith) s)
    ]
  ]
]

encode-cons :
    (c : ℕ) (s : Text) (bs : Bytes)
    → encode_utf8 (c ∷ s) ≡ some bs
    → (rest : Bytes) × (encode_utf8 s ≡ some rest)
      × (is_scalar c ≡ true)
      × (encode_char c ++ rest ≡ bs)
unfolding encode_utf8
encode-cons c s bs h = ground arith

decode_from-nil : decode_from none [] ≡ some []
unfolding decode_from
decode_from-nil = refl

decode_from-encode :
    (s : Text) (bs : Bytes) → encode_utf8 s ≡ some bs → decode_from none bs ≡ some s
decode_from-encode [] bs h =
    let e : [] ≡ bs = unfold encode_utf8 in cc h in
    subst (λ (b : Bytes). decode_from none b ≡ some []) e decode_from-nil
decode_from-encode (c ∷ s) bs h =
    let (rest, encoded, scalar, e) = encode-cons c s bs h in
    subst (λ (b : Bytes). decode_from none b ≡ some (c ∷ s)) e
      (decode-encode_char c rest scalar ∙ ap (emit c) (decode_from-encode s rest encoded))

-- A text that can be encoded is decoded from its bytes.
pub decode-encode : (s : Text) (bs : Bytes) → encode_utf8 s ≡ some bs → decode_utf8 bs ≡ some s
decode-encode s bs h = unfold decode_utf8 in decode_from-encode s bs h
