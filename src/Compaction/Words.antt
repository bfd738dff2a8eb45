-- ===== src/Compaction/Words.antt =====
-- The spans of the words of a text ascend.
use lisptc.Prelude.{
  ℕ, zero, suc, ◌≤◌, ◌≡◌, Bool, true, false, Option, none, some, List, [], ◌∷◌, get_elem?, All,
  arith,
}
use lisptc.Compaction.{Text, Span, spans_from, spans_past, word_spans}

-- no word begins before one in front of it
abbrev pub IsAscending : List Span → Type 0
IsAscending [] = Unit
IsAscending (s ∷ ss) = All (λ t. s.0 ≤ t.0) ss × IsAscending ss

abbrev StartFrom : ℕ → List Span → Type 0
StartFrom n ss = All (λ t. n ≤ t.0) ss

StartFrom-less : (m n : ℕ) (ss : List Span) → m ≤ n → StartFrom n ss → StartFrom m ss
StartFrom-less m n [] le h = tt
StartFrom-less m n (s ∷ ss) le (p, h) = (omega (arith, le, p), StartFrom-less m n ss le h)

abbrev first_start : ℕ → Option ℕ → ℕ
first_start at none = at
first_start at (some start) = start

module _ (space : ℕ → Bool) where
  spans_past-StartFrom :
      (b : Bool) (at : ℕ) (word : Option ℕ) (later : Option ℕ → List Span)
      → first_start at word ≤ at
      → ((w : Option ℕ)
          → first_start (suc at) w ≤ suc at
          → StartFrom (first_start (suc at) w) (later w))
      → StartFrom (first_start at word) (spans_past b at word later)
  spans_past-StartFrom true at none later le h =
      StartFrom-less at (suc at) _ (omega arith) (h none (omega arith))
  spans_past-StartFrom true at (some start) later le h =
      (omega arith, StartFrom-less start (suc at) _ (omega (arith, le)) (h none (omega arith)))
  spans_past-StartFrom false at none later le h = h (some at) (omega arith)
  spans_past-StartFrom false at (some start) later le h = h (some start) (omega (arith, le))

  spans_from-StartFrom :
      (at : ℕ) (word : Option ℕ) (cs : Text)
      → first_start at word ≤ at
      → StartFrom (first_start at word) (spans_from space at word cs)
  unfolding spans_from
  spans_from-StartFrom at none [] le = tt
  spans_from-StartFrom at (some start) [] le = (omega arith, tt)
  spans_from-StartFrom at none (c ∷ cs) le =
      spans_past-StartFrom (space c) at none _ le (λ w. spans_from-StartFrom (suc at) w cs)
  spans_from-StartFrom at (some start) (c ∷ cs) le =
      spans_past-StartFrom (space c) at (some start) _ le (λ w. spans_from-StartFrom (suc at) w cs)

  spans_past-IsAscending :
      (b : Bool) (at : ℕ) (word : Option ℕ) (later : Option ℕ → List Span)
      → first_start at word ≤ at
      → ((w : Option ℕ)
          → first_start (suc at) w ≤ suc at
          → StartFrom (first_start (suc at) w) (later w) × IsAscending (later w))
      → IsAscending (spans_past b at word later)
  spans_past-IsAscending true at none later le h = (h none (omega arith)).1
  spans_past-IsAscending true at (some start) later le h = (
    StartFrom-less start (suc at) _ (omega (arith, le)) (h none (omega arith)).0,
    (h none (omega arith)).1,
  )
  spans_past-IsAscending false at none later le h = (h (some at) (omega arith)).1
  spans_past-IsAscending false at (some start) later le h = (h (some start) (omega (arith, le))).1

  spans_from-IsAscending :
      (at : ℕ) (word : Option ℕ) (cs : Text)
      → first_start at word ≤ at
      → IsAscending (spans_from space at word cs)
  unfolding spans_from
  spans_from-IsAscending at none [] le = tt
  spans_from-IsAscending at (some start) [] le = (tt, tt)
  spans_from-IsAscending at none (c ∷ cs) le =
      spans_past-IsAscending (space c) at none _ le
        (λ w k. (spans_from-StartFrom (suc at) w cs k, spans_from-IsAscending (suc at) w cs k))
  spans_from-IsAscending at (some start) (c ∷ cs) le =
      spans_past-IsAscending (space c) at (some start) _ le
        (λ w k. (spans_from-StartFrom (suc at) w cs k, spans_from-IsAscending (suc at) w cs k))

  pub word_spans-IsAscending : (text : Text) → IsAscending (word_spans space text)
  unfolding word_spans
  word_spans-IsAscending text = spans_from-IsAscending 0 none text (omega arith)

same_some : {s t : Span} → some s ≡ some t → s.0 ≡ t.0
same_some e = cc

All-get :
    (n : ℕ) (ss : List Span) (j : ℕ) (t : Span) → StartFrom n ss → get_elem? ss j ≡ some t → n ≤ t.0
All-get n [] j t h e = absurd cc
All-get n (s ∷ ss) zero t (p, h) e = omega (arith, p, same_some e)
All-get n (s ∷ ss) (suc j) t (p, h) e = All-get n ss j t h e

pub get-IsAscending :
    (ss : List Span) (i j : ℕ) (s t : Span)
    → IsAscending ss
    → i ≤ j
    → get_elem? ss i ≡ some s
    → get_elem? ss j ≡ some t
    → s.0 ≤ t.0
get-IsAscending [] i j s t h le e e' = absurd cc
get-IsAscending (u ∷ ss) zero zero s t h le e e' = omega (arith, same_some e, same_some e')
get-IsAscending (u ∷ ss) zero (suc j) s t (p, h) le e e' =
    let after = All-get u.0 ss j t p e' in omega (arith, after, same_some e)
get-IsAscending (u ∷ ss) (suc i) zero s t h le e e' = absurd (omega (arith, le))
get-IsAscending (u ∷ ss) (suc i) (suc j) s t (p, h) le e e' =
    get-IsAscending ss i j s t h (omega (arith, le)) e e'
