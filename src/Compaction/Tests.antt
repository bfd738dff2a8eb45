-- ===== src/Compaction/Tests.antt =====
-- Runs of the slicing of a text, and the theorems on it.
use lisptc.Prelude.{ℕ, ◌≡◌, refl, Bool, List, [], ◌∷◌, All, ◌==◌, arith, ◌≤◌, ◌⊎◌, length}
use lisptc.Compaction.{
  Text, Span, word_spans, spans_from, slice_words, extend, word_index_at, search, echo_marker,
  by_character,
}
use lisptc.Compaction.Slices.{IsPage}
use lisptc.Compaction.Shown.{IsShowing, IsCut, slice_words_lem}
use lisptc.Compaction.Pages.{pages, words_of, words_of-pages}
use lisptc.Compaction.Search.{IsLastBegun, word_index_at-IsLastBegun}

abbrev is_blank : ℕ → Bool
is_blank c = c == 32

-- "ab c  def"
abbrev sample : Text
sample = 97 ∷ 98 ∷ 32 ∷ 99 ∷ 32 ∷ 32 ∷ 100 ∷ 101 ∷ 102 ∷ []

abbrev three : List Span
three = (0, 2) ∷ (3, 4) ∷ (6, 9) ∷ []

runs :
    (word_spans is_blank sample ≡ three)
    × ((slice_words sample three 0 2 100).text ≡ 97 ∷ 98 ∷ 32 ∷ 99 ∷ [])
    × ((slice_words sample three 1 5 4).text ≡ 99 ∷ [])
    × ((slice_words sample three 2 5 2).text ≡ 100 ∷ 101 ∷ [])
    × (word_index_at three 5 ≡ 1)
    × (word_index_at three 6 ≡ 2)
    × (words_of (pages 3 sample three 0 2 100) ≡ 0 ∷ 1 ∷ 2 ∷ [])
    × (echo_marker (slice_words sample three 2 5 2) ≡ by_character 2)
unfolding echo_marker word_spans spans_from slice_words extend word_index_at search pages words_of
runs = (refl, refl, refl, refl, refl, refl, refl, refl)

words_of-pages_example :
    (words_of (pages 3 sample three 0 2 100) ≡ 0 ∷ 1 ∷ 2 ∷ [])
    × All (IsShowing sample three) (pages 3 sample three 0 2 100)
words_of-pages_example =
    words_of-pages 3 sample three 0 2 100 (omega arith)
      (omega arith, (omega arith, (omega arith, tt))) (omega arith) (omega arith)

abbrev asked : ℕ
asked = 5

slice_words_lem_example :
    IsPage three 1 asked 4 (slice_words sample three 1 asked 4)
    × ((asked ≡ 0)
        ⊎ (length three ≤ 1)
        ⊎ ((first last : Span) × IsCut sample three 4
              (slice_words sample three 1 asked 4)
              first
              last))
slice_words_lem_example = slice_words_lem sample three 1 asked 4

word_index_at-IsLastBegun_example :
    IsLastBegun (word_spans is_blank sample) 5 (word_index_at (word_spans is_blank sample) 5)
word_index_at-IsLastBegun_example = word_index_at-IsLastBegun is_blank sample 5
