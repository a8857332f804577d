-- ===== src/Translator/Windows.antt =====
-- Windows of a list of tracks, and enabled tags, in src/mopidy_mpd/translator.py.
use mopidy_mpd.Prelude.{
  not, ◌||◌, ◌&&◌, ℕ, zero, suc, ◌+◌, ◌-◌, ◌≤◌, Text, ◌≡◌, refl, sym, ap, ◌∙◌, Bool, true, false,
  Option, none, some, List, [], ◌∷◌, ◌++◌, ◌==◌, if◌then◌else◌, if_both, is_empty, length, take,
  drop, append_assoc, append-nil, length-append, arith, length-drop, length-take, contains, All,
  Bool-cases, inl, inr,
}
use mopidy_mpd.Outcome.{ok}
use mopidy_mpd.Commands.Connection.{tagtype_list}
use mopidy_mpd.Translator.{
  Obj, Tag, all_tags, truthy, has_value, enabled, tags_of, track_to_mpd_format, format_from,
  tracks_to_mpd_format,
}

suc_add : (m n : ℕ) → suc m + n ≡ suc (m + n)
suc_add m n = omega arith

module _ {ℓ} {A : Type ℓ} where
  take_nil : (n : ℕ) → take {A = A} n [] ≡ []
  take_nil zero = refl
  take_nil (suc n) = refl

  drop_nil : (n : ℕ) → drop {A = A} n [] ≡ []
  drop_nil zero = refl
  drop_nil (suc n) = refl

  take_add : (m n : ℕ) (xs : List A) → take (m + n) xs ≡ take m xs ++ take n (drop m xs)
  take_add zero n xs = ap (λ (k : ℕ). take k xs) (omega arith)
  take_add (suc m) n [] = take_nil (suc m + n) ∙ sym (take_nil n)
  take_add (suc m) n (x ∷ xs) =
      ap (λ (k : ℕ). take k (x ∷ xs)) (suc_add m n) ∙ ap (λ (r : List A). x ∷ r) (take_add m n xs)

  drop_add : (m n : ℕ) (xs : List A) → drop (m + n) xs ≡ drop n (drop m xs)
  drop_add zero n xs = ap (λ (k : ℕ). drop k xs) (omega arith)
  drop_add (suc m) n [] = drop_nil (suc m + n) ∙ sym (drop_nil n)
  drop_add (suc m) n (x ∷ xs) = ap (λ (k : ℕ). drop k (x ∷ xs)) (suc_add m n) ∙ drop_add m n xs

  window : ℕ → ℕ → List A → List A
  window start stop xs = take (stop - start) (drop start xs)

  length-window :
      (start stop : ℕ) (xs : List A)
      → start ≤ stop
      → stop ≤ length xs
      → length (window start stop xs) ≡ stop - start
  unfolding window
  length-window start stop xs h h' =
      length-take (stop - start) (drop start xs) (omega (arith, length-drop start xs))

  window-append :
      (start mid stop : ℕ) (xs : List A)
      → start ≤ mid
      → mid ≤ stop
      → window start stop xs ≡ window start mid xs ++ window mid stop xs
  unfolding window
  window-append start mid stop xs h h' =
      ap (λ (k : ℕ). take k (drop start xs)) (the_sum start mid stop h h')
      ∙ take_add (mid - start) (stop - mid) (drop start xs)
      ∙ ap (λ (d : List A). take (mid - start) (drop start xs) ++ take (stop - mid) d)
          (sym (drop_add start (mid - start) xs) ∙ ap (λ (k : ℕ). drop k xs) (the_mid start mid h))
    where
      the_sum : (a b c : ℕ) → a ≤ b → b ≤ c → c - a ≡ (b - a) + (c - b)
      the_sum a b c p q = omega arith

      the_mid : (a b : ℕ) → a ≤ b → a + (b - a) ≡ b
      the_mid a b p = omega arith

  window-one :
      (front : List A) (x : A) (back : List A)
      → window (length front) (length front + 1) (front ++ x ∷ back) ≡ x ∷ []
  unfolding window
  window-one [] x back = refl
  window-one (y ∷ front) x back =
      ap (λ (k : ℕ). take k (drop (length front) (front ++ x ∷ back))) (same (length front))
      ∙ window-one front x back
    where
      same : (n : ℕ) → (suc n + 1) - suc n ≡ (n + 1) - n
      same n = omega arith

module _ (tagtypes : List Text) where
  format_from-append :
      (n : ℕ) (xs ys : List Obj)
      → format_from n (xs ++ ys) tagtypes
        ≡ format_from n xs tagtypes ++ format_from (n + length xs) ys tagtypes
  unfolding format_from
  format_from-append n [] ys = ap (λ (k : ℕ). format_from k ys tagtypes) (omega arith)
  format_from-append n (x ∷ xs) ys =
      let first = track_to_mpd_format x tagtypes (some n) none in
      ap (λ (r : List Tag). first ++ r) (format_from-append (n + 1) xs ys)
      ∙ ap (λ (k : ℕ). first ++ (format_from (n + 1) xs tagtypes ++ format_from k ys tagtypes))
          (shift n (length xs))
      ∙ sym (
          append_assoc first (format_from (n + 1) xs tagtypes)
            (format_from (n + suc (length xs)) ys tagtypes))
    where
      shift : (a b : ℕ) → (a + 1) + b ≡ a + suc b
      shift a b = omega arith

  window_formats :
      (tracks : List Obj) (start stop : ℕ)
      → start ≤ stop
      → stop ≤ length tracks
      → tracks_to_mpd_format tracks tagtypes start (some stop)
        ≡ ok (format_from start (window start stop tracks) tagtypes)
  unfolding tracks_to_mpd_format window
  window_formats tracks start stop h h' = rw (
      same_number (length (window start stop tracks)) (stop - start)
        (length-window start stop tracks h h'))
    where
      same_number : (a b : ℕ) → a ≡ b → (a == b) ≡ true
      same_number a b e = ground (arith, e)

  -- The window of one track is that track, with its number among the tracks as its position.
  window_of_one :
      (front : List Obj) (track : Obj) (back : List Obj)
      → tracks_to_mpd_format
          (front ++ track ∷ back)
          tagtypes
          (length front)
          (some (length front + 1))
        ≡ ok (track_to_mpd_format track tagtypes (some (length front)) none)
  window_of_one front track back =
      window_formats (front ++ track ∷ back) (length front) (length front + 1) (omega arith)
        (omega (arith, length-append front (track ∷ back)))
      ∙ ap (λ (l : List Obj). ok (format_from (length front) l tagtypes))
          (window-one front track back)
      ∙ ap ok (
          unfold format_from in
          append-nil (track_to_mpd_format track tagtypes (some (length front)) none))

  -- The window of one track is that track, with the number of tracks in front of it as its position;
  -- and any window of the tracks that ends within them is formatted, and is what any two windows give
  -- that it is cut into, one behind the other.
  pub tracks_to_mpd_format-append :
      (tracks : List Obj) (start mid stop : ℕ)
      → start ≤ mid
      → mid ≤ stop
      → stop ≤ length tracks
      → ((before : List Obj) (track : Obj) (behind : List Obj)
          → tracks ≡ before ++ track ∷ behind
          → tracks_to_mpd_format tracks tagtypes (length before) (some (length before + 1))
            ≡ ok (track_to_mpd_format track tagtypes (some (length before)) none))
        × (front back : List Tag) × (tracks_to_mpd_format tracks tagtypes start (some mid)
            ≡ ok front)
        × (tracks_to_mpd_format tracks tagtypes mid (some stop) ≡ ok back)
        × (tracks_to_mpd_format tracks tagtypes start (some stop) ≡ ok (front ++ back))
  tracks_to_mpd_format-append tracks start mid stop h h' h'' = (
    (λ before track behind e.
        ap
          (λ (l : List Obj).
            tracks_to_mpd_format l tagtypes (length before) (some (length before + 1)))
          e
        ∙ window_of_one before track behind),
    format_from start (window start mid tracks) tagtypes,
    format_from mid (window mid stop tracks) tagtypes,
    window_formats tracks start mid h (omega arith),
    window_formats tracks mid stop h' h'',
    window_formats tracks start stop (omega arith) h''
        ∙ ap ok (
            ap (λ (w : List Obj). format_from start w tagtypes)
              (window-append start mid stop tracks h h')
            ∙ format_from-append start (window start mid tracks) (window mid stop tracks)
            ∙ ap
                (λ (k : ℕ).
                  format_from start (window start mid tracks) tagtypes
                  ++ format_from k (window mid stop tracks) tagtypes)
                (ap (λ (k : ℕ). start + k) (length-window start mid tracks h (omega arith))
                  ∙ the_mid start mid h)),
  )
    where
      the_mid : (a b : ℕ) → a ≤ b → a + (b - a) ≡ b
      the_mid a b p = omega arith

  -- The tag is no tag type, or it is one that the client has enabled and has a value.
  abbrev pub IsAllowed : Tag → Type 0
  IsAllowed (tag, value) =
      (not (contains tagtype_list tag) || (contains tagtypes tag && truthy value)) ≡ true

  has_value-IsAllowed : (t : Tag) → has_value tagtypes t ≡ true → IsAllowed t
  unfolding has_value
  has_value-IsAllowed (tag, value) h =
      split_tests (contains tagtype_list tag) (contains tagtypes tag) (truthy value) h
    where
      split_tests :
          (a b c : Bool)
          → (if a then (if b then c else false) else true) ≡ true
          → (not a || (b && c)) ≡ true
      split_tests true true true h = refl
      split_tests true true false h = cc
      split_tests true false c h = cc
      split_tests false b c h = refl

  enabled-IsAllowed : (ts : List Tag) → All IsAllowed (enabled tagtypes ts)
  unfolding enabled
  enabled-IsAllowed [] = tt
  enabled-IsAllowed (t ∷ ts) = elim (Bool-cases (has_value tagtypes t)) [
    | inl e ↦ rw e (has_value-IsAllowed t e, enabled-IsAllowed ts)
    | inr e ↦ rw e (enabled-IsAllowed ts)
  ]

  -- A track is shown with no tag type that the client has not enabled, and with none that has no
  -- value, whatever its tags are.
  pub track_to_mpd_format-IsAllowed :
      (obj : Obj) (position : Option ℕ) (stream_title : Option Text)
      → All IsAllowed (track_to_mpd_format obj tagtypes position stream_title)
  unfolding track_to_mpd_format tags_of
  track_to_mpd_format-IsAllowed obj position stream_title = step obj.track.uri
    where
      step : (u : Option Text) → All IsAllowed (tags_of u obj tagtypes position stream_title)
      step none = tt
      step (some u) =
          if_both (All IsAllowed) (is_empty u) tt
            (enabled-IsAllowed (all_tags u obj position stream_title))
