-- ===== src/Checks/Tests.antt =====
-- Runs of the checks on a short trace, and the theorems at concrete runs.
use lisptc.Prelude.{ℕ, String, Bool, true, ◌≡◌, refl, none, some, List, [], ◌∷◌, ◌++◌, ◌===◌, arith}
use lisptc.Prelude.Dict
use lisptc.Value.{Value, null, sym, cell}
use lisptc.Checks.{
  Datum, lisp, plain, undefined, matcher, no_args, TraceEvent, form, tool, halt, Trace,
  calls_within, matches_args, event_args, form_args,
}
use lisptc.Checks.Positions.{hits, positions, positions_from, step_of, mem, sort, insert}
use lisptc.Checks.Positions.Found.{IsAscending, hits_lem, is_hit}
use lisptc.Checks.Judge.{holds, fails, pending_true, judge, before_c, before}
use lisptc.Checks.Judge.Final.{judge-final}
use lisptc.Checks.Latch.{
  Checks, no_checks, evaluate, latch_as, true_, run_source, record_check, latch_pass, latch_one,
  latch_new,
}
use lisptc.Checks.Latch.Kept.{evaluate_all, evaluate-latched}

abbrev show : Datum → String
show (lisp (Value.text s)) = s
show (lisp (sym s)) = s
show (lisp _) = "a value"
show (plain _) = "data"
show undefined = "undefined"
show (matcher _) = "[object Object]"

abbrev same_text : String → String → Bool
same_text pattern s = pattern === s

abbrev search_form : Value
search_form = cell (sym "db/find") (cell (Value.text "cats") null)

-- The first step writes the call and runs it; the second only writes it.
abbrev short_run : List TraceEvent
short_run =
    form 1 "(db/find \"cats\")" "" none
    ∷ tool 1 "db" "find" (("q", lisp (Value.text "cats")) ∷ []) true
    ∷ form 2 "(db/find \"cats\")" "" none
    ∷ []

abbrev sources_of : ℕ → Value
sources_of n = search_form

abbrev short_trace : Trace
short_trace = record { events = short_run; sources = λ n. some (sources_of n); step = 2 }

found : hits show same_text short_trace "db/find" no_args ≡ 1 ∷ 2 ∷ []
unfolding hits positions positions_from step_of sort insert matches_args calls_within form_args
    event_args
found = refl

hits_lem_example :
    IsAscending (hits show same_text short_trace "db/find" no_args)
    × (mem 2 (hits show same_text short_trace "db/find" no_args)
        ≡ is_hit show same_text short_trace "db/find" no_args 2)
hits_lem_example = hits_lem show same_text short_trace "db/find" no_args 2

judge-final_example :
    judge before_c (short_run ++ halt 3 "done" ∷ []) 3 (2 ∷ 3 ∷ []) (1 ∷ 3 ∷ [])
    ≡ judge before_c short_run 2 (2 ∷ []) (1 ∷ [])
unfolding step_of judge before
judge-final_example =
    judge-final before_c short_run (halt 3 "done" ∷ []) 2 3 (2 ∷ []) (1 ∷ []) (3 ∷ []) (3 ∷ [])
      (omega arith, tt) (omega arith, tt) (omega arith, tt) (omega arith) refl

abbrev once_true : Checks
once_true = evaluate 4 (("calls", holds) ∷ []) no_checks

evaluate-latched_example :
    Dict.get "calls"
      (evaluate_all ((5, ("calls", fails) ∷ ("other", pending_true) ∷ []) ∷ []) once_true).latched
    ≡ some (latch_as true_ 4)
unfolding evaluate run_source record_check latch_pass latch_one latch_new Dict.get Dict.put Dict.has
evaluate-latched_example =
    evaluate-latched ((5, ("calls", fails) ∷ ("other", pending_true) ∷ []) ∷ []) "calls" once_true
      (latch_as true_ 4) refl
