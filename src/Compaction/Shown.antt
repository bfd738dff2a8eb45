-- ===== src/Compaction/Shown.antt =====
-- The text of a slice is that of the words it counts, cut at the budget.
use mathlib.Core.Path.{subst}
use lisptc.Prelude.{
  take, ℕ, zero, suc, ◌+◌, ◌-◌, ◌≤◌, ◌<◌, ◌≡◌, refl, ap, sym, ◌∙◌, true, false, Option, none, some,
  List, [], ◌∷◌, All, length as size, drop, get_elem?, ltb, ◌&&◌, arith, Bool-cases, inl, inr,
  if◌then◌else◌, ◌⊎◌, ◌==◌,
}
use lisptc.Compaction.{
  Text, Span, Slice, min, text_between, extend, slice_of, slice_at, slice_words,
}
use lisptc.Compaction.Slices.{
  IsPage, slice_words-IsPage, size-take, get-drop, get-none, extend-more, min_inside,
}

-- the text from the beginning of the first word that a slice counts as shown to the end of the last
abbrev pub IsShowing : Text → List Span → Slice → Type 0
IsShowing text spans s =
    (first last : Span) × (get_elem? spans s.above ≡ some first)
    × (get_elem? spans (s.above + s.shown - 1) ≡ some last)
    × (s.text ≡ text_between text first.0 last.1)

abbrev pub IsWithin : ℕ → Span → Type 0
IsWithin budget word = word.1 - word.0 ≤ budget

get-All :
    (P : Span → Type 0) (i : ℕ) (ss : List Span) (s : Span)
    → get_elem? ss i ≡ some s
    → All P ss
    → P s
get-All P i [] s e h = absurd cc
get-All P zero (t ∷ ss) s e (h, hs) = let same : t ≡ s = cc in subst P same h
get-All P (suc i) (t ∷ ss) s e (h, hs) = get-All P i ss s e hs

get-after : (n k : ℕ) (ss : List Span) → get_elem? (drop n ss) k ≡ get_elem? ss (n + k)
get-after zero k ss = let same : 0 + k ≡ k = omega arith in rw same refl
get-after (suc n) k [] = refl
get-after (suc n) k (s ∷ ss) =
    let same : suc n + k ≡ suc (n + k) = omega arith in rw same (get-after n k ss)

module _ (start length budget : ℕ) where
  -- the end of the last word that is taken
  extend-last :
      (taken : ℕ) (word : Span) (ss : List Span)
      → (last : Span) × (get_elem?
            (word ∷ ss)
            ((extend start length budget taken word.1 ss).0 - taken)
          ≡ some last)
        × ((extend start length budget taken word.1 ss).1 ≡ last.1)
  unfolding extend
  extend-last taken word [] =
      let none_more : taken - taken ≡ 0 = omega arith in (word, rw none_more refl, refl)
  extend-last taken word (s ∷ ss) =
      let none_more : taken - taken ≡ 0 = omega arith in
      let (last, at, ends) = extend-last (suc taken) s ss in
      let r = extend start length budget (suc taken) s.1 ss in
      let more = extend-more start length budget (suc taken) s.1 ss in
      let next : r.0 - taken ≡ suc (r.0 - suc taken) = omega (arith, more) in
      elim (Bool-cases (ltb taken length)) [
        | inr full ↦ (word, rw (full, none_more) refl, rw full refl)
        | inl room ↦ elim (Bool-cases (ltb 0 taken && ltb budget (s.1 - start))) [
          | inl heavy ↦ (word, rw (room, heavy, none_more) refl, rw (room, heavy) refl)
          | inr light ↦ (last, rw (room, light, next) at, rw (room, light) ends)
        ]
      ]

  extend-light :
      (taken end : ℕ) (ss : List Span)
      → 1 ≤ taken
      → end - start ≤ budget
      → (extend start length budget taken end ss).1 - start ≤ budget
  unfolding extend
  extend-light taken end [] one h = h
  extend-light taken end (s ∷ ss) one h =
      let begun : ltb 0 taken ≡ true = ground (arith, one) in
      elim (Bool-cases (ltb taken length)) [
        | inr full ↦ rw full h
        | inl room ↦ elim (Bool-cases (ltb budget (s.1 - start))) [
          | inl heavy ↦ rw (room, begun, heavy) h
          | inr light ↦
              let fits : s.1 - start ≤ budget = ground (arith, light) in
              rw (room, begun, light) (extend-light (suc taken) s.1 ss (omega arith) fits)
        ]
      ]

  extend-once :
      (first : Span) (ss : List Span)
      → 1 ≤ length
      → extend start length budget 0 first.1 (first ∷ ss) ≡ extend start length budget 1 first.1 ss
  unfolding extend
  extend-once first ss one = let room : ltb 0 length ≡ true = ground (arith, one) in rw room refl

-- the text from the beginning of one word to the end of another, cut at the budget
abbrev pub IsCut : Text → List Span → ℕ → Slice → Span → Span → Type 0
IsCut text spans budget s first last =
    let whole = text_between text first.0 last.1 in
    (get_elem? spans s.above ≡ some first)
    × (get_elem? spans (s.above + s.shown - 1) ≡ some last)
    × (s.cut ≡ ltb budget (size whole))
    × (s.text ≡ (if ltb budget (size whole) then take budget whole else whole))

slice_of-IsCut :
    (text : Text) (spans : List Span) (total from budget : ℕ) (first last : Span) (r : ℕ × ℕ)
    → get_elem? spans from ≡ some first
    → get_elem? spans (from + r.0 - 1) ≡ some last
    → r.1 ≡ last.1
    → IsCut text spans budget (slice_of text total from first.0 budget r) first last
slice_of-IsCut text spans total from budget first last (taken, end) begins ends same =
    let out = λ (e : ℕ). text_between text first.0 e in
    (
      begins,
      ends,
      ap (λ e. ltb budget (size (out e))) same,
      ap (λ e. if ltb budget (size (out e)) then take budget (out e) else out e) same,
    )

-- the words that a slice shows, which are no longer than the budget together if each is not
abbrev Shows : Text → List Span → ℕ → Slice → Type 0
Shows text spans budget s =
    (first last : Span) × IsCut text spans budget s first last
    × (All (IsWithin budget) spans → last.1 - first.0 ≤ budget)

slice_at-Shows :
    (text : Text) (spans : List Span) (from length budget : ℕ) (o : Option Span)
    → 1 ≤ length
    → from < size spans
    → get_elem? spans from ≡ o
    → Shows text spans budget (slice_at text spans from length budget o)
slice_at-Shows text spans from length budget none one inside e =
    absurd (omega (arith, inside, get-none from spans e))
slice_at-Shows text spans from length budget (some first) one inside e =
    let (more, d) = get-drop from spans first e in
    let r = extend first.0 length budget 1 first.1 more in
    let run : extend first.0 length budget 0 first.1 (drop from spans) ≡ r =
      rw d (extend-once first.0 length budget first more one) in
    let (last, at, ends) = extend-last first.0 length budget 1 first more in
    let many = extend-more first.0 length budget 1 first.1 more in
    let place : from + r.0 - 1 ≡ from + (r.0 - 1) = omega (arith, many) in
    let found : get_elem? spans (from + r.0 - 1) ≡ some last =
      rw place (sym (get-after from (r.0 - 1) spans) ∙ rw d at) in
    rw run (
      first,
      last,
      slice_of-IsCut text spans (size spans) from budget first last r e found ends,
      λ fit.
          subst (λ end. end - first.0 ≤ budget) ends
            (extend-light first.0 length budget 1 first.1 more (omega arith)
              (get-All (IsWithin budget) from spans first e fit)),
    )

slice_words-Shows :
    (text : Text) (spans : List Span) (offset length budget : ℕ)
    → 1 ≤ length
    → offset < size spans
    → Shows text spans budget (slice_words text spans offset length budget)
unfolding slice_words
slice_words-Shows text spans offset length budget one inside =
    let at : min offset (size spans) ≡ offset = min_inside offset (size spans) inside in
    rw at (slice_at-Shows text spans offset length budget _ one inside refl)

pub slice_words-IsShowing :
    (text : Text) (spans : List Span) (offset length budget : ℕ)
    → 1 ≤ length
    → offset < size spans
    → All (IsWithin budget) spans
    → ((slice_words text spans offset length budget).cut ≡ false)
      × IsShowing text spans (slice_words text spans offset length budget)
slice_words-IsShowing text spans offset length budget one inside fit =
    let (first, last, (begins, ends, cut, shown), light) =
      slice_words-Shows text spans offset length budget one inside in
    let whole : ltb budget (size (text_between text first.0 last.1)) ≡ false =
      ground (arith, light fit, size-take (last.1 - first.0) (drop first.0 text)) in
    (cut ∙ whole, (first, last, begins, ends, rw whole at shown))

-- A slice from an offset shows at most as many words as are asked for and at most as many characters as the
-- budget has, begins at the offset or behind the last word, and accounts for every word as above, shown or
-- below. If the offset is a word's and one word or more is asked for, it shows one at least, and its text
-- is that from the beginning of the first word shown to the end of the last, cut at the budget just where
-- the slice says so.
pub slice_words_lem :
    (text : Text) (spans : List Span) (offset length budget : ℕ)
    → IsPage spans offset length budget (slice_words text spans offset length budget)
      × ((length ≡ 0)
          ⊎ (size spans ≤ offset)
          ⊎ ((first last : Span) × IsCut text spans budget
                (slice_words text spans offset length budget)
                first
                last))
slice_words_lem text spans offset length budget =
    let page = slice_words-IsPage text spans offset length budget in
    elim (Bool-cases (length == 0)) [
      | inl none_asked ↦ (page, inl (ground (arith, none_asked)))
      | inr asked ↦ elim (Bool-cases (ltb offset (size spans))) [
        | inr past ↦ (page, inr (inl (ground (arith, past))))
        | inl inside ↦
            let (first, last, cut, light) =
              slice_words-Shows text spans offset length budget (ground (arith, asked))
                (ground (arith, inside)) in
            (page, inr (inr (first, last, cut)))
      ]
    ]
