-- ===== src/Interp/TopLevel.antt =====
-- packages/interpreter/src/lisp.ts: evalTopLevel and runGen. What comes of reading the text is a list, in
-- which an error of the reader stands where it is met; `judge` is the chain of hooks on a failed form,
-- `around` that round every form, and the wording of a note is left out.
use lisptc.Prelude.{ℕ, String, Option, none, some, List, [], ◌∷◌, ◌++◌}
use lisptc.Prelude.Result.{Result, ok, err}
use lisptc.Value.{Value, null}
use lisptc.Interp.{Machine, Stop, failed, looped, thrown, held, crashed, M, Host}
use lisptc.Interp.Forms.{eval_gen}

-- what a hook says of a form that failed
pub data Opinion : Type 0 where
  skipped reported : String → Opinion

-- the notes for the model
pub data Note : Type 0 where
  held_note : Note
  skipped_note : String → Note
  failed_note : Stop → Option String → Note

abbrev pub Run : Type 0
Run = Machine → Option (Result Stop Value × Machine × List Note)

abbrev pub judged :
    Stop
    → Value
    → Option (Result Stop (Option Opinion) × Machine)
    → Option (Result Stop Value × Machine × List Note)
judged failure previous none = none
judged failure previous (some (err s, m)) = some (err s, m, [])
judged failure previous (some (ok none, m)) = some (err failure, m, failed_note failure none ∷ [])
judged failure previous (some (ok (some (reported text)), m)) =
    some (err failure, m, failed_note failure (some text) ∷ [])
judged failure previous (some (ok (some (skipped text)), m)) =
    some (ok previous, m, skipped_note text ∷ [])

module _ (host : Host) (judge : Value → Stop → M (Option Opinion)) (fuel : ℕ) where
  -- the `catch` of `evalTopLevel`; a loop signal becomes a failure
  abbrev pub concluded :
      Value
      → Value
      → Option (Result Stop Value × Machine)
      → Option (Result Stop Value × Machine × List Note)
  concluded form previous none = none
  concluded form previous (some (ok v, m)) = some (ok v, m, [])
  concluded form previous (some (err held, m)) = some (err held, m, held_note ∷ [])
  concluded form previous (some (err (looped v), m)) =
      judged (failed null) previous (judge form (failed null) m)
  concluded form previous (some (err (failed v), m)) =
      judged (failed v) previous (judge form (failed v) m)
  concluded form previous (some (err (thrown a b c), m)) = some (err (thrown a b c), m, [])
  concluded form previous (some (err crashed, m)) = some (err crashed, m, [])

  unfoldable pub eval_top_level : Value → Value → Run
  eval_top_level form previous m = concluded form previous (eval_gen host fuel form [] m)

  module _ (around : (Value → Run) → Value → Run) where
    abbrev pub noted :
        List Note
        → Option (Result Stop Value × Machine × List Note)
        → Option (Result Stop Value × Machine × List Note)
    noted before none = none
    noted before (some (r, m, notes)) = some (r, m, before ++ notes)

    abbrev pub followed :
        (Value → Run)
        → Option (Result Stop Value × Machine × List Note)
        → Option (Result Stop Value × Machine × List Note)
    followed later none = none
    followed later (some (err s, m, notes)) = some (err s, m, notes)
    followed later (some (ok v, m, notes)) = noted notes (later v m)

    -- `runGen`, from the result of the form before
    unfoldable pub run_gen : List (Result Stop Value) → Value → Run
    run_gen [] result m = some (ok result, m, [])
    run_gen (err s ∷ rest) result m = some (err s, m, [])
    run_gen (ok form ∷ rest) result m =
        followed (run_gen rest) (around (λ x. eval_top_level x result) form m)
