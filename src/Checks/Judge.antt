-- ===== src/Checks/Judge.antt =====
-- packages/checks/src/checks.ts: the combinators, which judge the positions that a matcher found.
pub mod Final
use lisptc.Prelude.{
  ℕ, ◌+◌, Bool, true, false, not, Option, none, some, List, [], ◌∷◌, map, any, all, length, ltb,
  leb, ◌==◌, ◌||◌, ◌&&◌, if◌then◌else◌,
}
use lisptc.Checks.{TraceEvent}
use lisptc.Checks.Positions.{step_of, steps, mem}

pub data Settled : Type 0 where
  holds fails pending_true pending_false : Settled

abbrev pub happened : List ℕ → Bool
happened [] = false
happened (_ ∷ _) = true

unfoldable pub eventually : List ℕ → Settled
eventually a = if happened a then holds else pending_false

unfoldable pub never : List ℕ → Settled
never a = if happened a then fails else pending_true

unfoldable pub always : List TraceEvent → List ℕ → Settled
always events a =
    let stepped = map (step_of events) a in
    if all (λ step. mem step stepped) (steps events) then pending_true else fails

unfoldable pub before : List ℕ → List ℕ → Settled
before [] b = pending_false
before (first ∷ _) b = if any (λ i. ltb i first) b then holds else fails

unfoldable pub requires : List ℕ → List ℕ → Settled
requires [] b = pending_true
requires (first ∷ _) b = if any (λ i. ltb i first) b then holds else fails

unfoldable pub after : List ℕ → List ℕ → Settled
after [] b = pending_false
after (first ∷ _) b = if any (λ i. ltb first i) b then holds else pending_false

unfoldable pub within : List TraceEvent → ℕ → ℕ → List ℕ → Settled
within events current limit a =
    if any (λ i. leb (step_of events i) limit) a
    then holds
    else if ltb limit current
    then fails
    else pending_false

unfoldable pub count : ℕ → ℕ → Settled
count seen want =
    if ltb want seen then fails else if seen == want then pending_true else pending_false

unfoldable pub once : List ℕ → Settled
once a = count (length a) 1

unfoldable pub at_most : List ℕ → ℕ → Settled
at_most a n = if ltb n (length a) then fails else pending_true

unfoldable pub happens : List ℕ → ℕ → Settled
happens a n = count (length a) n

-- each combinator but `always`, with its number
pub data Combinator : Type 0 where
  eventually_c never_c before_c requires_c after_c once_c : Combinator
  within_c at_most_c happens_c : ℕ → Combinator

unfoldable pub judge : Combinator → List TraceEvent → ℕ → List ℕ → List ℕ → Settled
judge eventually_c events current a b = eventually a
judge never_c events current a b = never a
judge before_c events current a b = before a b
judge requires_c events current a b = requires a b
judge after_c events current a b = after a b
judge once_c events current a b = once a
judge (within_c n) events current a b = within events current n a
judge (at_most_c n) events current a b = at_most a n
judge (happens_c n) events current a b = happens a n
