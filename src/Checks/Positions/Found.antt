-- ===== src/Checks/Positions/Found.antt =====
-- What the search for the calls of a name finds.
use lisptc.Prelude.{
  ℕ, ◌≤◌, ◌≡◌, refl, ap, ◌∙◌, String, Bool, true, not, List, [], ◌∷◌, ◌++◌, map, filter, ◌==◌,
  ==_iff, ◌||◌, ◌&&◌, arith, All, zero, suc, ◌+◌, ◌<◌, false, Option, none, some, get_elem?, any,
  sym, Bool-cases, inl, inr,
}
use lisptc.Checks.{Datum, CallArgs, Trace, TraceEvent, step_in}
use lisptc.Checks.Positions.{
  insert, sort, mem, step_or_zero, step_of, positions, positions_from, ran, wrote, hits,
}

abbrev pub IsAscending : List ℕ → Type 0
IsAscending [] = Unit
IsAscending (n ∷ ns) = All (λ m. n ≤ m) ns × IsAscending ns

All-insert :
    (low n : ℕ) (ns : List ℕ) → low ≤ n → All (λ m. low ≤ m) ns → All (λ m. low ≤ m) (insert n ns)
unfolding insert
All-insert low n [] h hs = (h, tt)
All-insert low n (m ∷ ms) h hs = ground (arith, All-insert low n ms h hs.1)

All-le : (low n : ℕ) (ns : List ℕ) → low ≤ n → All (λ m. n ≤ m) ns → All (λ m. low ≤ m) ns
All-le low n [] h hs = tt
All-le low n (m ∷ ms) h hs = (omega (arith, h, hs.0), All-le low n ms h hs.1)

insert-IsAscending : (n : ℕ) (ns : List ℕ) → IsAscending ns → IsAscending (insert n ns)
unfolding insert
insert-IsAscending n [] h = (tt, tt)
insert-IsAscending n (m ∷ ms) (low, h) =
    let below : n ≤ m → All (λ k. n ≤ k) ms = λ e. All-le n m ms e low in
    let above : m ≤ n → All (λ k. m ≤ k) (insert n ms) = λ e. All-insert m n ms e low in
    ground (arith, insert-IsAscending n ms h, below, above, h, low)

sort-IsAscending : (ns : List ℕ) → IsAscending (sort ns)
unfolding sort
sort-IsAscending [] = tt
sort-IsAscending (n ∷ ns) = insert-IsAscending n (sort ns) (sort-IsAscending ns)

mem-insert : (i n : ℕ) (ns : List ℕ) → mem i (insert n ns) ≡ (n == i || mem i ns)
unfolding insert
mem-insert i n [] = refl
mem-insert i n (m ∷ ms) = ground (arith, mem-insert i n ms)

mem-sort : (i : ℕ) (ns : List ℕ) → mem i (sort ns) ≡ mem i ns
unfolding sort
mem-sort i [] = refl
mem-sort i (n ∷ ns) = mem-insert i n (sort ns) ∙ ap (λ b. n == i || b) (mem-sort i ns)

mem-append : (i : ℕ) (ns ms : List ℕ) → mem i (ns ++ ms) ≡ (mem i ns || mem i ms)
mem-append i [] ms = refl
mem-append i (n ∷ ns) ms = ground (arith, mem-append i ns ms)

mem-filter : (i : ℕ) (p : ℕ → Bool) (ns : List ℕ) → mem i (filter p ns) ≡ (mem i ns && p i)
mem-filter i p [] = refl
mem-filter i p (n ∷ ns) =
    let same : (n == i) ≡ true → p n ≡ p i = λ e. ap p ((==_iff n i).0 e) in
    ground (arith, mem-filter i p ns, same)

-- the event at an index passes the test, if there is one
abbrev pub holds_at : (TraceEvent → Bool) → Option TraceEvent → Bool
holds_at keep none = false
holds_at keep (some event) = keep event

mem-positions_below :
    (i n : ℕ) (keep : ℕ → TraceEvent → Bool) (events : List TraceEvent)
    → n < i
    → mem n (positions_from i keep events) ≡ false
unfolding positions_from
mem-positions_below i n keep [] low = refl
mem-positions_below i n keep (event ∷ rest) low =
    ground (arith, mem-positions_below (suc i) n keep rest, low)

mem-positions_from :
    (i k : ℕ) (keep : ℕ → TraceEvent → Bool) (events : List TraceEvent)
    → mem (i + k) (positions_from i keep events) ≡ holds_at (keep (i + k)) (get_elem? events k)
unfolding positions_from
mem-positions_from i k keep [] = refl
mem-positions_from i zero keep (event ∷ rest) =
    let at : i + 0 ≡ i = omega arith in
    let above : mem i (positions_from (suc i) keep rest) ≡ false =
      mem-positions_below (suc i) i keep rest (omega arith) in
    rw at (ground (arith, above))
mem-positions_from i (suc k) keep (event ∷ rest) =
    let at : i + suc k ≡ suc i + k = omega arith in
    let other : (i == suc i + k) ≡ false = ground arith in
    rw at (ground (arith, mem-positions_from (suc i) k keep rest, other))

-- the steps of the events found are those of the events that pass
mem-steps :
    (i n : ℕ) (step_at : ℕ → ℕ) (keep : TraceEvent → Bool) (events : List TraceEvent)
    → ((k : ℕ) → step_at (i + k) ≡ step_or_zero (get_elem? events k))
    → mem n (map step_at (positions_from i (λ _ event. keep event) events))
      ≡ any (λ event. keep event && step_in event == n) events
unfolding positions_from
mem-steps i n step_at keep [] h = refl
mem-steps i n step_at keep (event ∷ rest) h =
    let at : i + 0 ≡ i = omega arith in
    let here : step_at i ≡ step_in event = ap step_at (sym at) ∙ h 0 in
    let later =
      mem-steps (suc i) n step_at keep rest
        (λ k. let on : suc i + k ≡ i + suc k = omega arith in ap step_at on ∙ h (suc k)) in
    elim (Bool-cases (keep event)) [
      | inl passes ↦ rw (passes, here, later) refl
      | inr fails ↦ rw (fails, later) refl
    ]

module _ (shown : Datum → String) (regex_test : String → String → Bool) where
  -- the event at the index runs the call, or it is a form that writes it and no event of its step runs it
  abbrev pub is_hit : Trace → String → CallArgs → ℕ → Bool
  is_hit trace name spec i =
      let runs = ran shown regex_test name spec in
      let event = get_elem? trace.events i in
      holds_at runs event
      || (holds_at (wrote shown regex_test trace name spec i) event
          && not (any (λ e. runs e && step_in e == step_or_zero event) trace.events))

  -- The positions of the calls of a name ascend, and an index is one of them exactly if the event that stands
  -- there in the trace, counted from 0, is a run of the name with fitting arguments, or a form that writes such
  -- a call, and no event of the same step is a run of it.
  pub hits_lem :
      (trace : Trace) (name : String) (spec : CallArgs) (i : ℕ)
      → IsAscending (hits shown regex_test trace name spec)
        × (mem i (hits shown regex_test trace name spec) ≡ is_hit trace name spec i)
  unfolding hits positions step_of
  hits_lem trace name spec i =
      let runs = ran shown regex_test name spec in
      let writes = wrote shown regex_test trace name spec in
      let zero_on : 0 + i ≡ i = omega arith in
      let run_at : mem i (positions runs trace.events) ≡ holds_at runs (get_elem? trace.events i) =
        rw zero_on at (mem-positions_from 0 i (λ _ event. runs event) trace.events) in
      let written_at : mem i (positions_from 0 writes trace.events)
          ≡ holds_at (writes i) (get_elem? trace.events i) =
        rw zero_on at (mem-positions_from 0 i writes trace.events) in
      let in_step =
        mem-steps 0 (step_or_zero (get_elem? trace.events i)) (step_of trace.events) runs
          trace.events (λ k. let on : 0 + k ≡ k = omega arith in ap (step_of trace.events) on) in
      (
        sort-IsAscending _,
        mem-sort i _
            ∙ mem-append i (positions runs trace.events) _
            ∙ ap (λ b. mem i (positions runs trace.events) || b)
                (mem-filter i _ (positions_from 0 writes trace.events))
            ∙ rw (run_at, written_at, in_step) refl,
      )
