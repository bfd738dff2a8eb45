-- ===== src/Compaction.antt =====
-- packages/compaction/src/compaction.ts: the words of a text, the slices that are shown of it, and the
-- word that a match stands in. A text is the list of its code units; `space` is what `\s` matches.
pub mod Words
pub mod Slices
pub mod Shown
pub mod Pages
pub mod Search
mod Tests
use lisptc.Prelude.{
  ℕ, zero, suc, ◌+◌, ◌-◌, ◌/◌, Bool, true, false, not, Option, none, some, List, [], ◌∷◌, length,
  length as size, take, drop, get_elem?, ltb, leb, ◌==◌, ◌&&◌, if◌then◌else◌,
}

abbrev pub Text : Type 0
Text = List ℕ

-- where a word begins, and where it ends
abbrev pub Span : Type 0
Span = ℕ × ℕ

-- a step over a code unit, with the words from the read_on one on
abbrev pub spans_past : Bool → ℕ → Option ℕ → (Option ℕ → List Span) → List Span
spans_past true at none later = later none
spans_past true at (some start) later = (start, at) ∷ later none
spans_past false at none later = later (some at)
spans_past false at (some start) later = later (some start)

module _ (space : ℕ → Bool) where
  -- the words from a place on, where a word may have begun before it
  unfoldable pub spans_from : ℕ → Option ℕ → Text → List Span
  spans_from at none [] = []
  spans_from at (some start) [] = (start, at) ∷ []
  spans_from at word (c ∷ cs) = spans_past (space c) at word (λ w. spans_from (suc at) w cs)

  unfoldable pub word_spans : Text → List Span
  word_spans text = spans_from 0 none text

pub record Slice : Type 0 where
  pub text : Text
  pub above : ℕ
  pub shown : ℕ
  pub below : ℕ
  pub total : ℕ
  pub cut : Bool
  pub chars : ℕ
  pub total_chars : ℕ

abbrev pub min : ℕ → ℕ → ℕ
min m n = if leb m n then m else n

-- `text.slice(start, end)`
abbrev pub text_between : Text → ℕ → ℕ → Text
text_between text start end = take (end - start) (drop start text)

-- the loop of `sliceWords` on the words from the first one on: how many are taken, and where they end
unfoldable pub extend : ℕ → ℕ → ℕ → ℕ → ℕ → List Span → ℕ × ℕ
extend start length budget taken end [] = (taken, end)
extend start length budget taken end (span ∷ rest) =
    let more = extend start length budget (suc taken) span.1 rest in
    if ltb taken length
    then (if ltb 0 taken && ltb budget (span.1 - start) then (taken, end) else more)
    else (taken, end)

abbrev pub slice_of : Text → ℕ → ℕ → ℕ → ℕ → ℕ × ℕ → Slice
slice_of text total from start budget (taken, end) =
    let out = text_between text start end in
    let kept = if ltb budget (length out) then take budget out else out in
    record {
      text = kept;
      above = from;
      shown = taken;
      below = total - (from + taken);
      total = total;
      cut = ltb budget (length out);
      chars = length kept;
      total_chars = length text;
    }

abbrev pub slice_at : Text → List Span → ℕ → ℕ → ℕ → Option Span → Slice
slice_at text spans from length budget none = record {
  text = [];
  above = size spans;
  shown = 0;
  below = 0;
  total = size spans;
  cut = false;
  chars = 0;
  total_chars = size text;
}
slice_at text spans from length budget (some first) =
    slice_of text (size spans) from first.0 budget
      (extend first.0 length budget 0 first.1 (drop from spans))

unfoldable pub slice_words : Text → List Span → ℕ → ℕ → ℕ → Slice
slice_words text spans offset length budget =
    let from = min offset (size spans) in
    slice_at text spans from length budget (get_elem? spans from)

-- what `echoMarker` says: nothing, to go on in the word that was cut from a character, or to echo from a word
pub data Marker : Type 0 where
  no_marker : Marker
  by_character by_offset : ℕ → Marker

unfoldable pub echo_marker : Slice → Marker
echo_marker s =
    if s.above == 0 && s.below == 0 && not s.cut
    then no_marker
    else if s.cut
    then by_character s.chars
    else by_offset (if s.below == 0 then 0 else s.above + s.shown)

-- The loop of `wordIndexAt`, with the rest of it as `later`; `high` is one more than its `hi`, which may
-- be -1.
abbrev pub Later : Type 0
Later = ℕ → ℕ → ℕ → ℕ

abbrev pub side : Bool → Later → ℕ → ℕ → ℕ → ℕ → ℕ
side true later low high best mid = later (suc mid) high mid
side false later low high best mid = later low mid best

abbrev pub probe : Later → ℕ → ℕ → ℕ → ℕ → ℕ → Option Span → ℕ
probe later char low high best mid none = best
probe later char low high best mid (some span) = side (leb span.0 char) later low high best mid

abbrev pub narrow : Bool → Later → List Span → ℕ → ℕ → ℕ → ℕ → ℕ
narrow false later spans char low high best = best
narrow true later spans char low high best =
    let mid = (low + high - 1) / 2 in probe later char low high best mid (get_elem? spans mid)

unfoldable pub search : ℕ → List Span → ℕ → ℕ → ℕ → ℕ → ℕ
search zero spans char low high best = best
search (suc fuel) spans char low high best =
    narrow (ltb low high) (search fuel spans char) spans char low high best

unfoldable pub word_index_at : List Span → ℕ → ℕ
word_index_at spans char = search (length spans) spans char 0 (length spans) 0
