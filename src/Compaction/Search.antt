-- ===== src/Compaction/Search.antt =====
-- The binary search finds the last word that begins at a place of the text or before it.
use lisptc.Prelude.{
  ℕ, zero, suc, ◌+◌, ◌-◌, ◌/◌, ◌≤◌, ◌<◌, ◌≡◌, refl, ◌⊎◌, Bool, some, List, [], ◌∷◌, length,
  get_elem?, ltb, leb, arith, Bool-cases, inl, inr,
}
use lisptc.Compaction.{Text, Span, search, word_spans, word_index_at}
use lisptc.Compaction.Words.{IsAscending, get-IsAscending, word_spans-IsAscending}

module _ (spans : List Span) (char : ℕ) where
  -- the word at a place begins at the character or before it
  abbrev pub HasBegun : ℕ → Type 0
  HasBegun i = (s : Span) × (get_elem? spans i ≡ some s) × (s.0 ≤ char)

  -- the last word that has begun, or 0 if none has
  pub record IsLastBegun (n : ℕ) : Type 0 where
    pub last : (i : ℕ) → HasBegun i → i ≤ n
    pub begun : (n ≡ 0) ⊎ HasBegun n

  -- what the loop keeps: it fits the fuel, no word from `high` on has begun, and those below `low` are
  -- not behind the best one
  record IsBetween (fuel low high best : ℕ) : Type 0 where
    fits : high - low ≤ fuel
    inside : high ≤ length spans
    below : (i : ℕ) → HasBegun i → i < high
    reached : low ≤ suc best
    begun : (best ≡ 0) ⊎ HasBegun best

  get_elem?-some : (ss : List Span) (i : ℕ) → i < length ss → (s : Span) × (get_elem? ss i ≡ some s)
  get_elem?-some [] i h = absurd (omega (arith, h))
  get_elem?-some (s ∷ ss) zero h = (s, refl)
  get_elem?-some (s ∷ ss) (suc i) h = get_elem?-some ss i (omega (arith, h))

  ended : (fuel low high best : ℕ) → IsBetween fuel low high best → high ≤ low → IsLastBegun best
  ended fuel low high best b h = record {
    last = λ i k. let less = b.below i k in omega (arith, less, h, b.reached);
    begun = b.begun;
  }

  module _ (sorted : IsAscending spans) where
    later :
        (fuel low high best mid : ℕ) (s : Span)
        → low ≤ mid
        → mid < high
        → get_elem? spans mid ≡ some s
        → s.0 ≤ char
        → IsBetween (suc fuel) low high best
        → IsBetween fuel (suc mid) high mid
    later fuel low high best mid s lo hi e le b = record {
      fits = omega (arith, lo, hi, b.fits);
      inside = b.inside;
      below = b.below;
      reached = omega arith;
      begun = inr (s, e, le);
    }

    earlier :
        (fuel low high best mid : ℕ) (s : Span)
        → low ≤ mid
        → mid < high
        → get_elem? spans mid ≡ some s
        → char < s.0
        → IsBetween (suc fuel) low high best
        → IsBetween fuel low mid best
    earlier fuel low high best mid s lo hi e gt b = record {
      fits = omega (arith, lo, hi, b.fits);
      inside = omega (arith, hi, b.inside);
      below = λ i (t, found, begun). elim (Bool-cases (ltb i mid)) [
        | inl less ↦ ground (arith, less)
        | inr more ↦
            let order = get-IsAscending spans mid i s t sorted (ground (arith, more)) e found in
            absurd (omega (arith, order, begun, gt))
      ];
      reached = b.reached;
      begun = b.begun;
    }

    search-IsLastBegun :
        (fuel low high best : ℕ)
        → IsBetween fuel low high best
        → IsLastBegun (search fuel spans char low high best)
    unfolding search
    search-IsLastBegun zero low high best b = ended zero low high best b (omega (arith, b.fits))
    search-IsLastBegun (suc fuel) low high best b = elim (Bool-cases (ltb low high)) [
      | inl open_range ↦
          let less : low < high = ground (arith, open_range) in
          let lo : low ≤ (low + high - 1) / 2 = omega (arith, less) in
          let hi : (low + high - 1) / 2 < high = omega (arith, less) in
          let (s, e) = get_elem?-some spans ((low + high - 1) / 2) (omega (arith, hi, b.inside)) in
          rw (open_range, e)
            (elim (Bool-cases (leb s.0 char)) [
              | inl le ↦ rw le (
                  search-IsLastBegun fuel _ high _
                    (later fuel low high best _ s lo hi e (ground (arith, le)) b))
              | inr gt ↦ rw gt (
                  search-IsLastBegun fuel low _ best
                    (earlier fuel low high best _ s lo hi e (ground (arith, gt)) b))
            ])
      | inr closed ↦ rw closed (ended (suc fuel) low high best b (ground (arith, closed)))
    ]

  begun-inside : (ss : List Span) (i : ℕ) (s : Span) → get_elem? ss i ≡ some s → i < length ss
  begun-inside [] i s e = absurd cc
  begun-inside (t ∷ ss) zero s e = omega arith
  begun-inside (t ∷ ss) (suc i) s e = omega (arith, begun-inside ss i s e)

-- In every text, wordIndexAt gives for a place of it the last word that begins there or before, and the
-- first word if none does: the binary search ends by itself and misses no word.
pub word_index_at-IsLastBegun :
    (space : ℕ → Bool) (text : Text) (char : ℕ)
    → IsLastBegun (word_spans space text) char (word_index_at (word_spans space text) char)
unfolding word_index_at
word_index_at-IsLastBegun space text char =
    let spans = word_spans space text in
    search-IsLastBegun spans char (word_spans-IsAscending space text) (length spans) 0
      (length spans) 0
      (record {
        fits = omega arith;
        inside = omega arith;
        below = λ i (s, e, le). begun-inside spans char spans i s e;
        reached = omega arith;
        begun = inl refl;
      })
