-- ===== src/Intent/Marks/Kept.antt =====
-- The marks of the todos, from state to state.
use mathlib.Core.Path.{subst}
use lisptc.Prelude.{
  ℕ, String, true, false, ◌≡◌, refl, Option, none, List, [], ◌∷◌, any, ltb, Bool-cases, inl, inr,
}
use lisptc.Prelude.Result.{OnOk, OnOk-if, OnOk-bind, OnOk-then, ◌>>=◌}
use lisptc.Value.{Value}
use lisptc.Plist.{plist_options}
use lisptc.Intent.{
  IntentStates, Todo, is_running, close, close_shown, shown_or, kept_or, StepState, step_done,
  step_failed, doing_line, todo, check, drop_todo, move, clear, show_progress, ask, known, strings,
  count, some_choice, multi_of, is_labelled, caption_of, list_to_array,
}
use lisptc.Intent.Marks.{
  has_done, AllDone, IsConsistent, Keeps, Keeps-same, Keeps-IsConsistent, Keeps-done, IsPart-Keeps,
}
use lisptc.Intent.Marks.Parts.{moved-IsPart, others-IsPart, none-IsPart}
use lisptc.Intent.Marks.Labels.{marked-Keeps, checked-Keeps}
use lisptc.Intent.Turns.{
  Form, doing_form, todo_form, check_form, drop_form, move_form, clear_form, progress_form,
  ask_form, run_form, turn_start, step_error, before_settle, turn_settled, Step, formed, started,
  erred, settling, settled, Reachable, start, later,
}

known-same :
    (label : String) (todos : List Todo) → OnOk (λ found. found ≡ todos) (known label todos)
unfolding known
known-same label todos = OnOk-if _ (any (is_labelled label) todos) _ _ refl tt

abbrev KeepsMarks : IntentStates → IntentStates → Type 0
KeepsMarks s next = Keeps s.intent.todos next.intent.todos

show_progress-KeepsMarks :
    (raw_done raw_total rest : Value) (s : IntentStates)
    → OnOk (KeepsMarks s) (show_progress raw_done raw_total rest s)
unfolding show_progress
show_progress-KeepsMarks raw_done raw_total rest s =
    OnOk-then (KeepsMarks s) (count raw_total 1) _ (λ total.
      OnOk-then (KeepsMarks s) (count raw_done 0) _ (λ reached.
        OnOk-if (KeepsMarks s) (ltb total reached) _ _ tt (
          OnOk-then (KeepsMarks s) (list_to_array rest) _ (λ extra.
            OnOk-then (KeepsMarks s) (caption_of extra) _ (λ caption. Keeps-same s.intent.todos)))))

run_form-KeepsMarks : (f : Form) (s : IntentStates) → OnOk (KeepsMarks s) (run_form f s)
unfolding run_form doing_line todo check drop_todo move clear ask
run_form-KeepsMarks (doing_form now line) s = Keeps-same s.intent.todos
run_form-KeepsMarks (todo_form rest) s =
    OnOk-then (KeepsMarks s) (strings rest) _ (λ labels. marked-Keeps s.intent.todos labels)
run_form-KeepsMarks (check_form label) s =
    OnOk-bind (λ todos. todos ≡ s.intent.todos) (KeepsMarks s) (known label s.intent.todos) _
      (known-same label s.intent.todos) (λ todos e. rw e (checked-Keeps label s.intent.todos))
run_form-KeepsMarks (drop_form label) s =
    OnOk-bind (λ todos. todos ≡ s.intent.todos) (KeepsMarks s) (known label s.intent.todos) _
      (known-same label s.intent.todos)
      (λ todos e. rw e (IsPart-Keeps _ _ (others-IsPart label s.intent.todos)))
run_form-KeepsMarks (move_form label raw_at) s = OnOk-then (KeepsMarks s) (count raw_at 0) _ (λ at.
    OnOk-bind (λ todos. todos ≡ s.intent.todos) (KeepsMarks s) (known label s.intent.todos) _
      (known-same label s.intent.todos)
      (λ todos e. rw e (IsPart-Keeps _ _ (moved-IsPart label at s.intent.todos))))
run_form-KeepsMarks clear_form s = IsPart-Keeps s.intent.todos [] (none-IsPart s.intent.todos)
run_form-KeepsMarks (progress_form raw_done raw_total rest) s =
    show_progress-KeepsMarks raw_done raw_total rest s
run_form-KeepsMarks (ask_form prompt choice_list rest) s =
    OnOk-then (KeepsMarks s) (strings choice_list >>= some_choice) _ (λ choices.
      OnOk-then (KeepsMarks s) (multi_of (plist_options rest ("multi" ∷ []))) _
        (λ multi. Keeps-same s.intent.todos))

close-todos :
    (state : StepState) (now : ℕ) (error : Option String) (s : IntentStates)
    → KeepsMarks s (kept_or s (close state now error s))
      × KeepsMarks s (shown_or s (close state now error s))
unfolding close
close-todos state now error s = elim (Bool-cases (any is_running s.intent.log)) [
  | inl runs ↦ rw runs (Keeps-same s.intent.todos, Keeps-same s.intent.todos)
  | inr quiet ↦ rw quiet (Keeps-same s.intent.todos, Keeps-same s.intent.todos)
]

Step-KeepsMarks : (s next : IntentStates) → Step s next → KeepsMarks s next
unfolding turn_start step_error before_settle turn_settled close_shown
Step-KeepsMarks s next (formed f _ _ e) = subst (OnOk (KeepsMarks s)) e (run_form-KeepsMarks f s)
Step-KeepsMarks s _ (started _) = Keeps-same s.intent.todos
Step-KeepsMarks s _ (erred now error _) = (close-todos step_failed now _ s).1
Step-KeepsMarks s _ (settling now true _) = Keeps-same s.intent.todos
Step-KeepsMarks s _ (settling now false _) = (close-todos step_done now none s).1
Step-KeepsMarks s _ (settled now true _) = (close-todos step_failed now none s).0
Step-KeepsMarks s _ (settled now false _) = (close-todos step_done now none s).0

Reachable-IsConsistent : (s : IntentStates) → Reachable s → IsConsistent s.intent.todos
Reachable-IsConsistent s start = λ label some_done. tt
Reachable-IsConsistent s (later before _ r step) =
    Keeps-IsConsistent before.intent.todos s.intent.todos (Step-KeepsMarks before s step)
      (Reachable-IsConsistent before r)

-- From a state that the forms and the hooks reach, no step takes the mark off a todo: where a todo of a
-- label is done before the step, every todo of that label that is there after it is done.
pub Step-AllDone :
    (s next : IntentStates) (label : String)
    → Reachable s
    → Step s next
    → has_done label s.intent.todos ≡ true
    → AllDone label next.intent.todos
Step-AllDone s next label r step some_done =
    Keeps-done s.intent.todos next.intent.todos label (Step-KeepsMarks s next step)
      (Reachable-IsConsistent s r) some_done
