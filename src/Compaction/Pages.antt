-- ===== src/Compaction/Pages.antt =====
-- Reading on where the marker of each slice says shows every word once.
use lisptc.Prelude.{
  ℕ, zero, suc, ◌+◌, ◌-◌, ◌≤◌, ◌<◌, ◌≡◌, refl, ap, sym, ◌∙◌, true, false, List, [], ◌∷◌, ◌++◌,
  append-nil, All, length as size, ◌==◌, if◌then◌else◌, arith, Bool-cases, inl, inr,
}
use lisptc.Compaction.{
  Text, Span, Slice, slice_words, Marker, no_marker, by_character, by_offset, echo_marker,
}
use lisptc.Compaction.Slices.{slice_words-IsPage, min_inside}
use lisptc.Compaction.Shown.{IsShowing, IsWithin, slice_words-IsShowing}

-- the numbers of the words from one on
abbrev pub count_from : ℕ → ℕ → List ℕ
count_from n zero = []
count_from n (suc k) = n ∷ count_from (suc n) k

-- a reader follows a marker that names a word
abbrev pub follow : (ℕ → List Slice) → Marker → List Slice
follow later no_marker = []
follow later (by_character at) = []
follow later (by_offset at) = later at

-- the slices that a reader sees who reads on where the marker says, until no word is below
unfoldable pub pages : ℕ → Text → List Span → ℕ → ℕ → ℕ → List Slice
pages zero text spans offset length budget = []
pages (suc fuel) text spans offset length budget =
    let s = slice_words text spans offset length budget in
    let later = follow (λ at. pages fuel text spans at length budget) (echo_marker s) in
    s ∷ (if s.below == 0 then [] else later)

unfoldable pub words_of : List Slice → List ℕ
words_of [] = []
words_of (s ∷ ss) = count_from s.above s.shown ++ words_of ss

count_from-add : (n j k : ℕ) → count_from n (j + k) ≡ count_from n j ++ count_from (n + j) k
count_from-add n zero k =
    let left : 0 + k ≡ k = omega arith in
    let right : n + 0 ≡ n = omega arith in rw (left, right) refl
count_from-add n (suc j) k =
    let left : suc j + k ≡ suc (j + k) = omega arith in
    let right : n + suc j ≡ suc n + j = omega arith in
    rw (left, right) (ap (λ xs. n ∷ xs) (count_from-add (suc n) j k))

-- the marker of a slice that is not cut and has words below
echo_marker-below :
    (s : Slice) → s.cut ≡ false → 1 ≤ s.below → echo_marker s ≡ by_offset (s.above + s.shown)
unfolding echo_marker
echo_marker-below s whole h =
    let more : (s.below == 0) ≡ false = ground (arith, h) in
    elim (Bool-cases (s.above == 0)) [
      | inl top ↦ rw (top, more, whole) refl
      | inr under ↦ rw (under, more, whole) refl
    ]

-- the pages from a place on are that of the place and those from its end on
pages-step :
    (fuel : ℕ) (text : Text) (spans : List Span) (offset length budget : ℕ)
    → (s : Slice) → slice_words text spans offset length budget ≡ s
    → s.cut ≡ false
    → (s.below ≡ 0 → pages (suc fuel) text spans offset length budget ≡ s ∷ [])
      × (1 ≤ s.below
          → pages (suc fuel) text spans offset length budget
            ≡ s ∷ pages fuel text spans (s.above + s.shown) length budget)
unfolding pages
pages-step fuel text spans offset length budget s e whole = (
  λ h. let done : (s.below == 0) ≡ true = ground (arith, h) in rw (e, done) refl,
  λ h.
      let on : (s.below == 0) ≡ false = ground (arith, h) in
      rw (e, on, echo_marker-below s whole h) refl,
)

words_of-page :
    (s : Slice) (ss : List Slice) → words_of (s ∷ ss) ≡ count_from s.above s.shown ++ words_of ss
unfolding words_of
words_of-page s ss = refl

words_of-last : (s : Slice) → words_of (s ∷ []) ≡ count_from s.above s.shown
unfolding words_of
words_of-last s = append-nil (count_from s.above s.shown)

-- In a text none of whose words is longer than the budget, a reader who begins at a word, asks for one word
-- or more at a time, and echoes from where the marker of each slice says, until no word is below, sees every
-- word from there on once and in order: the slices count them so, and the text of each goes from the
-- beginning of its first word to the end of its last. There are at most as many slices as words.
pub words_of-pages :
    (fuel : ℕ) (text : Text) (spans : List Span) (offset length budget : ℕ)
    → 1 ≤ length
    → All (IsWithin budget) spans
    → offset < size spans
    → size spans - offset ≤ fuel
    → (words_of (pages fuel text spans offset length budget)
        ≡ count_from offset (size spans - offset))
      × All (IsShowing text spans) (pages fuel text spans offset length budget)
words_of-pages zero text spans offset length budget one fit inside enough =
    absurd (omega (arith, inside, enough))
words_of-pages (suc fuel) text spans offset length budget one fit inside enough =
    let s = slice_words text spans offset length budget in
    let page = slice_words-IsPage text spans offset length budget in
    let (whole, showing) = slice_words-IsShowing text spans offset length budget one inside fit in
    let (at_end, on) = pages-step fuel text spans offset length budget s refl whole in
    let at : s.above ≡ offset = page.from ∙ min_inside offset (size spans) inside in
    let moved = page.moves inside one in
    elim (Bool-cases (s.below == 0)) [
      | inl last ↦
          let none_below : s.below ≡ 0 = ground (arith, last) in
          let shown : s.shown ≡ size spans - offset = omega (arith, none_below, at, page.whole) in
          let words : words_of (s ∷ []) ≡ count_from offset (size spans - offset) =
            words_of-last s ∙ rw (at, shown) refl in
          rw (at_end none_below) (words, (showing, tt))
      | inr more ↦
          let some_below : 1 ≤ s.below = ground (arith, more) in
          let rest : size spans - offset ≡ s.shown + (size spans - (offset + s.shown)) =
            omega (arith, at, page.whole) in
          let (later, shown) =
            words_of-pages fuel text spans (offset + s.shown) length budget one fit
              (omega (arith, at, page.whole, some_below))
              (omega (arith, at, page.whole, moved, enough)) in
          let next : s.above + s.shown ≡ offset + s.shown = ap (λ n. n + s.shown) at in
          let after = pages fuel text spans (offset + s.shown) length budget in
          let whole_run : pages (suc fuel) text spans offset length budget ≡ s ∷ after =
            on some_below ∙ ap (λ n. s ∷ pages fuel text spans n length budget) next in
          let words : words_of (s ∷ after) ≡ count_from offset (size spans - offset) =
            words_of-page s after
            ∙ rw (at, rest, later)
                (sym (count_from-add offset s.shown (size spans - (offset + s.shown)))) in
          rw whole_run (words, (showing, shown))
    ]
