-- ===== src/Checks/Judge/Final.antt =====
-- A settled verdict is not changed by later events.
use lisptc.Prelude.{
  ℕ, zero, suc, ◌≤◌, ◌<◌, ◌+◌, ◌≡◌, refl, ap, ◌∙◌, Bool, true, false, List, [], ◌∷◌, ◌++◌, any,
  length, length-append, get_elem?, ltb, leb, ◌||◌, arith, All, Bool-cases, inl, inr,
}
use lisptc.Checks.{TraceEvent}
use lisptc.Checks.Positions.{step_of, step_or_zero}
use lisptc.Checks.Judge.{
  Settled, holds, fails, pending_true, pending_false, Combinator, eventually_c, never_c, before_c,
  requires_c, after_c, once_c, within_c, at_most_c, happens_c, judge, eventually, never, before,
  requires, after, within, count, once, at_most, happens,
}

abbrev pub is_final : Settled → Bool
is_final holds = true
is_final fails = true
is_final pending_true = false
is_final pending_false = false

any-append {ℓ} :
    {A : Type ℓ} (p : A → Bool) (xs ys : List A) → any p (xs ++ ys) ≡ (any p xs || any p ys)
any-append p [] ys = refl
any-append p (x ∷ xs) ys = ground (arith, any-append p xs ys)

-- what lies at `m` or later is not before an earlier position
any-late :
    (first m : ℕ) (late : List ℕ)
    → first < m
    → All (λ i. m ≤ i) late
    → any (λ i. ltb i first) late ≡ false
any-late first m [] below h = refl
any-late first m (i ∷ late) below h = ground (arith, any-late first m late below h.1)

any-before_late :
    (first m : ℕ) (b late : List ℕ)
    → first < m
    → All (λ i. m ≤ i) late
    → any (λ i. ltb i first) (b ++ late) ≡ any (λ i. ltb i first) b
any-before_late first m b late below h =
    ground (arith, any-append (λ i. ltb i first) b late, any-late first m late below h)

get_elem?-append {ℓ} :
    {A : Type ℓ} (xs ys : List A) (i : ℕ) → i < length xs → get_elem? (xs ++ ys) i ≡ get_elem? xs i
get_elem?-append [] ys i h = ground arith
get_elem?-append (x ∷ xs) ys zero h = refl
get_elem?-append (x ∷ xs) ys (suc i) h = get_elem?-append xs ys i (omega (arith, h))

step_of-append :
    (events more : List TraceEvent) (i : ℕ)
    → i < length events
    → step_of (events ++ more) i ≡ step_of events i
unfolding step_of
step_of-append events more i h = ap step_or_zero (get_elem?-append events more i h)

any-step_of :
    (events more : List TraceEvent) (limit : ℕ) (a : List ℕ)
    → All (λ i. i < length events) a
    → any (λ i. leb (step_of (events ++ more) i) limit) a
      ≡ any (λ i. leb (step_of events i) limit) a
any-step_of events more limit [] h = refl
any-step_of events more limit (i ∷ a) h =
    rw (step_of-append events more i h.0, any-step_of events more limit a h.1) refl

-- the steps of the later positions have come after the step `current`
any-step_late :
    (events : List TraceEvent) (limit current : ℕ) (late : List ℕ)
    → limit < current
    → All (λ i. current ≤ step_of events i) late
    → any (λ i. leb (step_of events i) limit) late ≡ false
any-step_late events limit current [] below h = refl
any-step_late events limit current (i ∷ late) below h =
    ground (arith, any-step_late events limit current late below h.1)

before-final :
    (m : ℕ) (a b later_a later_b : List ℕ)
    → All (λ i. i < m) a
    → All (λ i. m ≤ i) later_b
    → is_final (before a b) ≡ true
    → before (a ++ later_a) (b ++ later_b) ≡ before a b
unfolding before
before-final m [] b later_a later_b ha hb final = ground arith
before-final m (first ∷ a) b later_a later_b ha hb final =
    rw (any-before_late first m b later_b ha.0 hb) refl

requires-final :
    (m : ℕ) (a b later_a later_b : List ℕ)
    → All (λ i. i < m) a
    → All (λ i. m ≤ i) later_b
    → is_final (requires a b) ≡ true
    → requires (a ++ later_a) (b ++ later_b) ≡ requires a b
unfolding requires
requires-final m [] b later_a later_b ha hb final = ground arith
requires-final m (first ∷ a) b later_a later_b ha hb final =
    rw (any-before_late first m b later_b ha.0 hb) refl

after-final :
    (a b later_a later_b : List ℕ)
    → is_final (after a b) ≡ true
    → after (a ++ later_a) (b ++ later_b) ≡ after a b
unfolding after
after-final [] b later_a later_b final = ground arith
after-final (first ∷ a) b later_a later_b final =
    ground (arith, any-append (λ i. ltb first i) b later_b)

eventually-final :
    (a later_a : List ℕ) → is_final (eventually a) ≡ true → eventually (a ++ later_a) ≡ eventually a
unfolding eventually
eventually-final [] later_a final = ground arith
eventually-final (i ∷ a) later_a final = refl

never-final : (a later_a : List ℕ) → is_final (never a) ≡ true → never (a ++ later_a) ≡ never a
unfolding never
never-final [] later_a final = ground arith
never-final (i ∷ a) later_a final = refl

count-final :
    (seen more want : ℕ)
    → is_final (count seen want) ≡ true
    → count (seen + more) want ≡ count seen want
unfolding count
count-final seen more want final = ground arith

at_most-final :
    (a later_a : List ℕ) (n : ℕ)
    → is_final (at_most a n) ≡ true
    → at_most (a ++ later_a) n ≡ at_most a n
unfolding at_most
at_most-final a later_a n final = ground (arith, length-append a later_a)

within-final :
    (events more : List TraceEvent) (current later limit : ℕ) (a later_a : List ℕ)
    → All (λ i. i < length events) a
    → All (λ i. current ≤ step_of (events ++ more) i) later_a
    → current ≤ later
    → is_final (within events current limit a) ≡ true
    → within (events ++ more) later limit (a ++ later_a) ≡ within events current limit a
unfolding within
within-final events more current later limit a later_a ha hb up final =
    let early = any-append (λ i. leb (step_of (events ++ more) i) limit) a later_a in
    let same = any-step_of events more limit a ha in
    let late = any-step_late (events ++ more) limit current later_a in
    elim (Bool-cases (any (λ i. leb (step_of events i) limit) a)) [
      | inl hit ↦ rw (early, same, hit) refl
      | inr miss ↦ ground (arith, early, same, late, hb, miss)
    ]

-- A combinator other than always that answers true or false at a moment of the run gives the same
-- answer on every longer run: the positions found so far lie among the events so far, those found
-- later behind them and at this step or a later one.
pub judge-final :
    (c : Combinator) (events more : List TraceEvent) (current later : ℕ)
    (a b later_a later_b : List ℕ)
    → All (λ i. i < length events) a
    → All (λ i. current ≤ step_of (events ++ more) i) later_a
    → All (λ i. length events ≤ i) later_b
    → current ≤ later
    → is_final (judge c events current a b) ≡ true
    → judge c (events ++ more) later (a ++ later_a) (b ++ later_b) ≡ judge c events current a b
unfolding judge once happens
judge-final eventually_c events more current later a b la lb ha hs hb up final =
    eventually-final a la final
judge-final never_c events more current later a b la lb ha hs hb up final = never-final a la final
judge-final before_c events more current later a b la lb ha hs hb up final =
    before-final (length events) a b la lb ha hb final
judge-final requires_c events more current later a b la lb ha hs hb up final =
    requires-final (length events) a b la lb ha hb final
judge-final after_c events more current later a b la lb ha hs hb up final =
    after-final a b la lb final
judge-final once_c events more current later a b la lb ha hs hb up final =
    ap (λ n. count n 1) (length-append a la) ∙ count-final (length a) (length la) 1 final
judge-final (within_c n) events more current later a b la lb ha hs hb up final =
    within-final events more current later n a la ha hs up final
judge-final (at_most_c n) events more current later a b la lb ha hs hb up final =
    at_most-final a la n final
judge-final (happens_c n) events more current later a b la lb ha hs hb up final =
    ap (λ m. count m n) (length-append a la) ∙ count-final (length a) (length la) n final
