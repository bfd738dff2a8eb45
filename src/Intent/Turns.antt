-- ===== src/Intent/Turns.antt =====
-- packages/intent/src/intent.ts: the forms that the extension registers, its hooks of a session, and
-- the states that they reach. A form that fails changes nothing.
use lisptc.Prelude.{ℕ, String, Bool, ◌≡◌, none, some, [], ◌===◌, if◌then◌else◌}
use lisptc.Prelude.Result.{Result, ok}
use lisptc.Value.{Value}
use lisptc.Intent.{
  IntentStates, IntentError, step_done, step_failed, with_log, close, close_shown, kept_or,
  doing_line, todo, check, drop_todo, move, clear, show_progress, ask,
}

-- the forms that an agent calls
pub data Form : Type 0 where
  doing_form : ℕ → String → Form
  todo_form : Value → Form
  check_form drop_form : String → Form
  move_form : String → Value → Form
  clear_form : Form
  progress_form : Value → Value → Value → Form
  ask_form : String → Value → Value → Form

unfoldable pub run_form : Form → IntentStates → Result IntentError IntentStates
run_form (doing_form now line) s = ok (doing_line now line s)
run_form (todo_form rest) s = todo rest s
run_form (check_form label) s = check label s
run_form (drop_form label) s = drop_todo label s
run_form (move_form label raw_at) s = move label raw_at s
run_form clear_form s = ok (clear s)
run_form (progress_form raw_done raw_total rest) s = show_progress raw_done raw_total rest s
run_form (ask_form prompt choice_list rest) s = ask prompt choice_list rest s

-- `turnStart`, `stepError` with the trimmed text, `beforeSettle`, and `settled`
unfoldable pub turn_start : IntentStates → IntentStates
turn_start s = with_log [] s

unfoldable pub step_error : ℕ → String → IntentStates → IntentStates
step_error now error s = close_shown step_failed now (if error === "" then none else some error) s

unfoldable pub before_settle : ℕ → Bool → IntentStates → IntentStates
before_settle now decided s = if decided then s else close_shown step_done now none s

unfoldable pub turn_settled : ℕ → Bool → IntentStates → IntentStates
turn_settled now failed s = kept_or s (close (if failed then step_failed else step_done) now none s)

abbrev pub no_intent : IntentStates
no_intent = record {
  intent = record { doing = none; todos = []; progress = none; log = [] };
  seq = 0;
  outputs = [];
}

-- one form that succeeds, or one hook
pub data Step : IntentStates → IntentStates → Type 0 where
  formed : (f : Form) (s next : IntentStates) → run_form f s ≡ ok next → Step s next
  started : (s : IntentStates) → Step s (turn_start s)
  erred : (now : ℕ) (error : String) (s : IntentStates) → Step s (step_error now error s)
  settling : (now : ℕ) (decided : Bool) (s : IntentStates) → Step s (before_settle now decided s)
  settled : (now : ℕ) (failed : Bool) (s : IntentStates) → Step s (turn_settled now failed s)

pub data Reachable : IntentStates → Type 0 where
  start : Reachable no_intent
  later : (s next : IntentStates) → Reachable s → Step s next → Reachable next
