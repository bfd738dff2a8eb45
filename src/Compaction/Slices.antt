-- ===== src/Compaction/Slices.antt =====
-- Slices of a text: what they keep to.
use lisptc.Prelude.{
  ℕ, zero, suc, ◌+◌, ◌-◌, ◌≤◌, ◌<◌, ◌≡◌, refl, Option, none, some, List, [], ◌∷◌, length as size,
  take, drop, get_elem?, ltb, if◌then◌else◌, arith,
}
use lisptc.Compaction.{
  Text, Span, Slice, min, text_between, extend, slice_of, slice_at, slice_words,
}

module _ (start length budget : ℕ) where
  pub extend-more :
      (taken end : ℕ) (ss : List Span) → taken ≤ (extend start length budget taken end ss).0
  unfolding extend
  extend-more taken end [] = omega arith
  extend-more taken end (s ∷ ss) = ground (arith, extend-more (suc taken) s.1 ss)

  extend-inside :
      (taken end : ℕ) (ss : List Span)
      → (extend start length budget taken end ss).0 ≤ taken + size ss
  unfolding extend
  extend-inside taken end [] = omega arith
  extend-inside taken end (s ∷ ss) = ground (arith, extend-inside (suc taken) s.1 ss)

  extend-short :
      (taken end : ℕ) (ss : List Span)
      → taken ≤ length
      → (extend start length budget taken end ss).0 ≤ length
  unfolding extend
  extend-short taken end [] le = le
  extend-short taken end (s ∷ ss) le = ground (arith, extend-short (suc taken) s.1 ss, le)

  extend-first :
      (end : ℕ) (s : Span) (ss : List Span)
      → 1 ≤ length
      → 1 ≤ (extend start length budget 0 end (s ∷ ss)).0
  unfolding extend
  extend-first end s ss h = ground (arith, extend-more 1 s.1 ss, h)

pub size-take : {A : Type 0} (n : ℕ) (xs : List A) → size (take n xs) ≤ n
size-take zero xs = omega arith
size-take (suc n) [] = omega arith
size-take (suc n) (x ∷ xs) = omega (arith, size-take n xs)

size-drop : {A : Type 0} (n : ℕ) (xs : List A) → size (drop n xs) ≡ size xs - n
size-drop zero xs = omega arith
size-drop (suc n) [] = omega arith
size-drop (suc n) (x ∷ xs) = omega (arith, size-drop n xs)

kept-inside :
    (budget : ℕ) (out : Text)
    → size (if ltb budget (size out) then take budget out else out) ≤ budget
kept-inside budget out = ground (arith, size-take budget out)

-- what a slice from an offset keeps to
pub record IsPage (spans : List Span) (offset length budget : ℕ) (s : Slice) : Type 0 where
  pub from : s.above ≡ min offset (size spans)
  pub whole : s.above + s.shown + s.below ≡ size spans
  pub short : s.shown ≤ length
  pub light : s.chars ≤ budget
  pub moves : offset < size spans → 1 ≤ length → 1 ≤ s.shown

pub get-drop :
    (i : ℕ) (ss : List Span) (s : Span)
    → get_elem? ss i ≡ some s
    → (more : List Span) × (drop i ss ≡ s ∷ more)
get-drop i [] s e = absurd cc
get-drop zero (t ∷ ss) s e = (ss, cc)
get-drop (suc i) (t ∷ ss) s e = get-drop i ss s e

pub get-none : (i : ℕ) (ss : List Span) → get_elem? ss i ≡ none → size ss ≤ i
get-none i [] e = omega arith
get-none zero (t ∷ ss) e = absurd cc
get-none (suc i) (t ∷ ss) e = omega (arith, get-none i ss e)

begins : (i : ℕ) (ss : List Span) (s : Span) → get_elem? ss i ≡ some s → i < size ss
begins i [] s e = absurd cc
begins zero (t ∷ ss) s e = omega arith
begins (suc i) (t ∷ ss) s e = omega (arith, begins i ss s e)

pub min_inside : (m n : ℕ) → m < n → min m n ≡ m
min_inside m n h = ground (arith, h)

min_large : (m n : ℕ) → n ≤ min m n → (n ≡ min m n) × (n ≤ m)
min_large m n h = ground (arith, h)

slice_of-IsPage :
    (text : Text) (spans : List Span) (offset length budget start : ℕ) (r : ℕ × ℕ)
    → min offset (size spans) + r.0 ≤ size spans
    → r.0 ≤ length
    → (1 ≤ length → 1 ≤ r.0)
    → IsPage spans offset length budget
        (slice_of text (size spans) (min offset (size spans)) start budget r)
slice_of-IsPage text spans offset length budget start (taken, end) inside short first = record {
  from = refl;
  whole = omega (arith, inside);
  short = short;
  light = kept-inside budget (text_between text start end);
  moves = λ h k. first k;
}

slice_at-IsPage :
    (text : Text) (spans : List Span) (offset length budget : ℕ) (o : Option Span)
    → get_elem? spans (min offset (size spans)) ≡ o
    → IsPage spans offset length budget
        (slice_at text spans (min offset (size spans)) length budget o)
slice_at-IsPage text spans offset length budget none e =
    let (same, past) = min_large offset (size spans) (get-none (min offset (size spans)) spans e) in
    record {
      from = same;
      whole = omega arith;
      short = omega arith;
      light = omega arith;
      moves = λ h k. absurd (omega (arith, past, h));
    }
slice_at-IsPage text spans offset length budget (some first) e =
    let at : ℕ = min offset (size spans) in
    let (more, d) = get-drop at spans first e in
    let fits = extend-inside first.0 length budget 0 first.1 (drop at spans) in
    slice_of-IsPage text spans offset length budget first.0
      (extend first.0 length budget 0 first.1 (drop at spans))
      (omega (arith, fits, size-drop at spans, begins at spans first e))
      (extend-short first.0 length budget 0 first.1 (drop at spans) (omega arith))
      (λ h. rw d (extend-first first.0 length budget first.1 first more h))

pub slice_words-IsPage :
    (text : Text) (spans : List Span) (offset length budget : ℕ)
    → IsPage spans offset length budget (slice_words text spans offset length budget)
unfolding slice_words
slice_words-IsPage text spans offset length budget =
    slice_at-IsPage text spans offset length budget _ refl
