-- ===== src/Checks/Latch.antt =====
-- packages/checks/src/checks.ts: `Checks`, which evaluates the checks once a step and latches a
-- verdict that is settled. A pass over the source is the sequence of `_check` calls that it makes.
pub mod Kept
use lisptc.Prelude.{
  ℕ, String, Bool, true, false, Option, none, some, List, [], ◌∷◌, ◌++◌, map, any, ◌===◌,
  if◌then◌else◌,
}
use lisptc.Prelude.Dict
use lisptc.Prelude.Seen.{listed}
use lisptc.Prelude.Dict.{Dict}
use lisptc.Checks.Judge.{Settled, holds, fails, pending_true, pending_false}

pub data Verdict : Type 0 where
  true_ false_ : Verdict

pub record Latched : Type 0 where
  pub verdict : Verdict
  pub step : ℕ

pub record Checks : Type 0 where
  pub latched : Dict Latched
  pub pending : Dict Settled
  pub order : List String
  pub pass : Dict Settled

pub record CheckOutcome : Type 0 where
  pub name : String
  pub verdict : Verdict
  pub step : Option ℕ

abbrev pub no_checks : Checks
no_checks = record { latched = []; pending = []; order = []; pass = [] }

unfoldable pub record_check : String → Settled → Checks → Checks
record_check name verdict c = record c {
  order = if listed name c.order then c.order else c.order ++ name ∷ [];
  pass = Dict.put name verdict c.pass;
}

unfoldable pub run_source : List (String × Settled) → Checks → Checks
run_source [] c = c
run_source ((name, verdict) ∷ rest) c = run_source rest (record_check name verdict c)

abbrev pub latch_as : Verdict → ℕ → Latched
latch_as verdict step = record { verdict = verdict; step = step }

unfoldable pub latch_new : ℕ → String → Settled → Checks → Checks
latch_new step name holds c = record c { latched = Dict.put name (latch_as true_ step) c.latched }
latch_new step name fails c = record c { latched = Dict.put name (latch_as false_ step) c.latched }
latch_new step name pending_true c = record c { pending = Dict.put name pending_true c.pending }
latch_new step name pending_false c = record c { pending = Dict.put name pending_false c.pending }

unfoldable pub latch_one : ℕ → String → Settled → Checks → Checks
latch_one step name verdict c = if Dict.has name c.latched then c else latch_new step name verdict c

unfoldable pub latch_pass : ℕ → Dict Settled → Checks → Checks
latch_pass step [] c = c
latch_pass step ((name, verdict) ∷ rest) c = latch_pass step rest (latch_one step name verdict c)

-- one evaluation at a step, where the source makes these calls of `_check`
unfoldable pub evaluate : ℕ → List (String × Settled) → Checks → Checks
evaluate step calls c =
    let ran = run_source calls (record c { pass = [] }) in latch_pass step ran.pass ran

abbrev pub pending_verdict : Option Settled → Verdict
pending_verdict (some pending_true) = true_
pending_verdict _ = false_

unfoldable pub outcome : Checks → String → Option Latched → CheckOutcome
outcome c name none = record {
  name = name;
  verdict = pending_verdict (Dict.get name c.pending);
  step = none;
}
outcome c name (some held) = record { name = name; verdict = held.verdict; step = some held.step }

unfoldable pub results : Checks → List CheckOutcome
results c = map (λ name. outcome c name (Dict.get name c.latched)) c.order
