-- ===== src/Checks/Latch/Kept.antt =====
-- A latched verdict is never changed, and every check has one result.
use lisptc.Prelude.{
  ℕ, String, false, ◌≡◌, refl, ap, ◌∙◌, some, List, [], ◌∷◌, ===_iff, arith, Bool-cases, inl, inr,
}
use lisptc.Prelude.Dict
use lisptc.Prelude.Dict.{Dict, get-put, has-get}
use lisptc.Checks.Judge.{Settled, holds, fails, pending_true, pending_false}
use lisptc.Checks.Latch.{
  Checks, Latched, latch_as, true_, false_, record_check, run_source, latch_new, latch_one,
  latch_pass, evaluate,
}

run_source-latched :
    (calls : List (String × Settled)) (c : Checks) → (run_source calls c).latched ≡ c.latched
unfolding run_source record_check
run_source-latched [] c = refl
run_source-latched ((name, verdict) ∷ rest) c =
    run_source-latched rest (record_check name verdict c)

-- what a name that is not latched yet adds leaves a latched one alone
latch_new-kept :
    (step : ℕ) (name other : String) (verdict : Settled) (c : Checks) (held : Latched)
    → Dict.get name c.latched ≡ some held
    → Dict.has other c.latched ≡ false
    → Dict.get name (latch_new step other verdict c).latched ≡ some held
unfolding latch_new
latch_new-kept step name other holds c held h free = ground (
  arith,
  get-put other name (latch_as true_ step) c.latched,
  has-get other c.latched,
  ===_iff other name,
)
latch_new-kept step name other fails c held h free = ground (
  arith,
  get-put other name (latch_as false_ step) c.latched,
  has-get other c.latched,
  ===_iff other name,
)
latch_new-kept step name other pending_true c held h free = h
latch_new-kept step name other pending_false c held h free = h

latch_one-kept :
    (step : ℕ) (name other : String) (verdict : Settled) (c : Checks) (held : Latched)
    → Dict.get name c.latched ≡ some held
    → Dict.get name (latch_one step other verdict c).latched ≡ some held
unfolding latch_one
latch_one-kept step name other verdict c held h = elim (Bool-cases (Dict.has other c.latched)) [
  | inl there ↦ rw there h
  | inr free ↦ rw free (latch_new-kept step name other verdict c held h free)
]

latch_pass-kept :
    (step : ℕ) (pass : List (String × Settled)) (name : String) (c : Checks) (held : Latched)
    → Dict.get name c.latched ≡ some held
    → Dict.get name (latch_pass step pass c).latched ≡ some held
unfolding latch_pass
latch_pass-kept step [] name c held h = h
latch_pass-kept step ((other, verdict) ∷ rest) name c held h =
    latch_pass-kept step rest name (latch_one step other verdict c) held
      (latch_one-kept step name other verdict c held h)

abbrev pub Passes : Type 0
Passes = List (ℕ × List (String × Settled))

-- evaluations one after the other, each with its step and the calls that the source makes
abbrev pub evaluate_all : Passes → Checks → Checks
evaluate_all [] c = c
evaluate_all ((step, calls) ∷ rest) c = evaluate_all rest (evaluate step calls c)

evaluate-kept :
    (step : ℕ) (calls : List (String × Settled)) (name : String) (c : Checks) (held : Latched)
    → Dict.get name c.latched ≡ some held
    → Dict.get name (evaluate step calls c).latched ≡ some held
unfolding evaluate
evaluate-kept step calls name c held h =
    let fresh : Checks = record c { pass = [] } in
    latch_pass-kept step (run_source calls fresh).pass name (run_source calls fresh) held
      (ap (Dict.get name) (run_source-latched calls fresh) ∙ h)

-- A verdict that is latched, and the step at which it was, stay as they are through every sequence
-- of evaluations, whatever the checks answer in them.
pub evaluate-latched :
    (passes : Passes) (name : String) (c : Checks) (held : Latched)
    → Dict.get name c.latched ≡ some held
    → Dict.get name (evaluate_all passes c).latched ≡ some held
evaluate-latched [] name c held h = h
evaluate-latched ((step, calls) ∷ rest) name c held h =
    evaluate-latched rest name (evaluate step calls c) held (evaluate-kept step calls name c held h)
