-- ===== src/Intent/Tests.antt =====
-- Runs of an agent's intent, and the theorems on them.
use lisptc.Prelude.{List, map, true, false, ◌≡◌, refl, none, some, [], ◌∷◌, get_elem?, length}
use lisptc.Prelude.Int.{pos}
use lisptc.Prelude.Result.{ok, err}
use lisptc.Value.{null, text, bigint, array_to_list}
use lisptc.Intent.{
  IntentStates, IntentStep, step_done, close, no_such_todo, check, count, known, move, todo,
  strings, list_to_array, texts_of, show_progress, exceeds, show, with_todos, others, doing_line,
  closed, close_running,
}
use lisptc.Intent.Turns.{
  doing_form, todo_form, check_form, move_form, run_form, formed, Reachable, start, later,
  no_intent, turn_settled,
}
use lisptc.Intent.Lines.{IsShown, Reachable-IsShown}
use lisptc.Intent.Marks.{AllDone}
use lisptc.Intent.Marks.Kept.{Step-AllDone}
use lisptc.Intent.Moved.{move-others}
use lisptc.Intent.Codecs.Exact.{cut_times, codecs-IsExact}
use lisptc.Intent.Codecs.{IsExact, todos_codec, doing_codec, progress_codec, seq_codec, log_codec}

abbrev listed : IntentStates
listed = show (
    with_todos (record { label = "a"; done = false } ∷ record { label = "b"; done = false } ∷ [])
      no_intent)

abbrev checked_a : IntentStates
checked_a = show (
    with_todos (record { label = "a"; done = true } ∷ record { label = "b"; done = false } ∷ [])
      listed)

todo-listed : run_form (todo_form (array_to_list (text "a" ∷ text "b" ∷ []))) no_intent ≡ ok listed
unfolding run_form todo strings list_to_array texts_of array_to_list
todo-listed = refl

check-listed : run_form (check_form "a") listed ≡ ok checked_a
unfolding run_form check known
check-listed = refl

check-unknown : check "c" checked_a ≡ err (no_such_todo ("b" ∷ []))
unfolding check known
check-unknown = refl

show_progress-exceeds :
    show_progress (bigint (pos 3)) (bigint (pos 2)) null listed ≡ err (exceeds 2)
unfolding show_progress count
show_progress-exceeds = refl

checked_a-Reachable : Reachable checked_a
checked_a-Reachable =
    later listed checked_a
      (later no_intent listed start (
        formed (todo_form (array_to_list (text "a" ∷ text "b" ∷ []))) no_intent listed todo-listed))
      (formed (check_form "a") listed checked_a check-listed)

abbrev moved : IntentStates
moved = show (
    with_todos (record { label = "b"; done = false } ∷ record { label = "a"; done = true } ∷ [])
      checked_a)

move-checked_a : run_form (move_form "b" (bigint (pos 0))) checked_a ≡ ok moved
unfolding run_form move known count
move-checked_a = refl

abbrev working : IntentStates
working = doing_line 5 "work" checked_a

doing-working : run_form (doing_form 5 "work") checked_a ≡ ok working
unfolding run_form
doing-working = refl

working-Reachable : Reachable working
working-Reachable =
    later checked_a working checked_a-Reachable
      (formed (doing_form 5 "work") checked_a working doing-working)

Reachable-IsShown_example : IsShown working
Reachable-IsShown_example = Reachable-IsShown working working-Reachable

Step-AllDone_example : AllDone "a" moved.intent.todos
Step-AllDone_example =
    Step-AllDone checked_a moved "a" checked_a-Reachable
      (formed (move_form "b" (bigint (pos 0))) checked_a moved move-checked_a) refl

move-others_example :
    (next : IntentStates) × (move "a" (bigint (pos 7)) checked_a ≡ ok next)
    × (others "a" next.intent.todos ≡ others "a" checked_a.intent.todos)
    × (get_elem? next.intent.todos 1 ≡ some (record { label = "a"; done = true }))
    × (length next.intent.todos ≡ 2)
move-others_example = move-others "a" 7 checked_a (record { label = "a"; done = true }) refl

-- a second todo with the label is lost
abbrev doubled : IntentStates
doubled =
    with_todos (record { label = "a"; done = true } ∷ record { label = "a"; done = true } ∷ [])
      no_intent

move-doubled :
    move "a" (bigint (pos 1)) doubled
    ≡ ok (show (with_todos (record { label = "a"; done = true } ∷ []) doubled))
unfolding move known count
move-doubled = refl

doing_line-settled :
    (turn_settled 9 false working).intent.log
    ≡ record { line = "work"; started_at = 5; ms = some 4; state = step_done; error = none } ∷ []
unfolding turn_settled close doing_line closed close_running
doing_line-settled = refl

-- four ticks to the millisecond
codecs-IsExact_example :
    IsExact todos_codec
    × IsExact doing_codec
    × IsExact progress_codec
    × IsExact seq_codec
    × ((log : List IntentStep)
        → (log_codec 4).from_lisp ((log_codec 4).to_lisp log) ≡ some (map (cut_times 4) log))
codecs-IsExact_example = codecs-IsExact 4

cut_times-run :
    cut_times 4
      (record { line = "work"; started_at = 11; ms = some 6; state = step_done; error = none })
    ≡ record { line = "work"; started_at = 8; ms = some 4; state = step_done; error = none }
cut_times-run = refl
