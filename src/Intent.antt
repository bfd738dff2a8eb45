-- ===== src/Intent.antt =====
-- packages/intent/src/intent.ts: what an agent shows of its work: the line of what it does now, a todo
-- list, a progress bar and the log of the turn's lines. A time is a count of some tick. The ids of
-- questions are their numbers, without the letter in front.
pub mod Codecs
pub mod Turns
pub mod Lines
pub mod Marks
pub mod Moved
mod Tests
use lisptc.Prelude.{
  ℕ, zero, suc, ◌+◌, ◌-◌, String, Bool, true, false, not, Option, none, some, List, [], ◌∷◌, ◌++◌,
  map, any, filter, find, take, drop, leb, ltb, ◌===◌, ◌&&◌, if◌then◌else◌,
}
use lisptc.Prelude.Int.{ℤ, pos, negsuc}
use lisptc.Prelude.Dict
use lisptc.Prelude.Dict.{Dict}
use lisptc.Prelude.Result.{Result, ok, err, ◌>>=◌}
use lisptc.Value.{Value, null, text, bigint, cell}
use lisptc.Plist.{plist_options}

pub record Todo : Type 0 where
  pub label : String
  pub done : Bool

pub record Progress : Type 0 where
  pub done : ℕ
  pub total : ℕ
  pub label : Option String

pub data StepState : Type 0 where
  step_running step_done step_failed : StepState

-- `ms` is how long the step took
pub record IntentStep : Type 0 where
  pub line : String
  pub started_at : ℕ
  pub ms : Option ℕ
  pub state : StepState
  pub error : Option String

pub record Intent : Type 0 where
  pub doing : Option String
  pub todos : List Todo
  pub progress : Option Progress
  pub log : List IntentStep

pub record Question : Type 0 where
  pub id : ℕ
  pub prompt : String
  pub choices : List String
  pub multi : Bool

-- what goes out on the channels of the interpreter
pub data Output : Type 0 where
  intent : Intent → Output
  question : Question → Output
  end_turn : Output

pub record IntentStates : Type 0 where
  pub intent : Intent
  pub seq : ℕ
  pub outputs : List Output

-- `no_such_todo` names the open todos
pub data IntentError : Type 0 where
  proper_list_expected integer_expected string_expected one_label needs_choice bad_options :
      IntentError
  at_least exceeds : ℕ → IntentError
  no_such_todo : List String → IntentError

abbrev pub is_running : IntentStep → Bool
is_running s = elim s.state [ step_running ↦ true | _ ↦ false ]

unfoldable pub closed : StepState → ℕ → Option String → IntentStep → IntentStep
closed state now error s =
    if is_running s
    then record s { state = state; ms = some (now - s.started_at); error = error }
    else s

unfoldable pub close_running : List IntentStep → StepState → ℕ → Option String → List IntentStep
close_running log state now error = map (closed state now error) log

-- `shown` and `record` on the channel of intents
abbrev pub show : IntentStates → IntentStates
show s = record s { outputs = s.outputs ++ intent s.intent ∷ [] }

abbrev pub with_intent : Intent → IntentStates → IntentStates
with_intent now s = record s { intent = now }

abbrev pub with_todos : List Todo → IntentStates → IntentStates
with_todos todos s = with_intent (record s.intent { todos = todos }) s

abbrev pub with_log : List IntentStep → IntentStates → IntentStates
with_log log s = with_intent (record s.intent { log = log }) s

unfoldable pub close : StepState → ℕ → Option String → IntentStates → Option IntentStates
close state now error s =
    if any is_running s.intent.log
    then some (with_log (close_running s.intent.log state now error) s)
    else none

abbrev pub shown_or : IntentStates → Option IntentStates → IntentStates
shown_or s none = s
shown_or s (some next) = show next

abbrev pub kept_or : IntentStates → Option IntentStates → IntentStates
kept_or s none = s
kept_or s (some next) = next

unfoldable pub close_shown : StepState → ℕ → Option String → IntentStates → IntentStates
close_shown state now error s = shown_or s (close state now error s)

unfoldable pub count : Value → ℕ → Result IntentError ℕ
count (bigint (pos n)) least = if ltb n least then err (at_least least) else ok n
count (bigint (negsuc n)) least = err (at_least least)
count _ least = err integer_expected

unfoldable pub list_to_array : Value → Result IntentError (List Value)
list_to_array null = ok []
list_to_array (cell x rest) = list_to_array rest >>= λ xs. ok (x ∷ xs)
list_to_array _ = err proper_list_expected

abbrev pub text_of : Value → Result IntentError String
text_of (text s) = ok s
text_of _ = err string_expected

unfoldable pub texts_of : List Value → Result IntentError (List String)
texts_of [] = ok []
texts_of (x ∷ xs) = text_of x >>= λ s. texts_of xs >>= λ rest. ok (s ∷ rest)

unfoldable pub strings : Value → Result IntentError (List String)
strings list = list_to_array list >>= texts_of

abbrev pub is_labelled : String → Todo → Bool
is_labelled label t = t.label === label

abbrev pub open_labels : List Todo → List String
open_labels todos = map (λ t. t.label) (filter (λ t. not t.done) todos)

-- the turn's line, put behind the lines that it ends
unfoldable pub doing_line : ℕ → String → IntentStates → IntentStates
doing_line now line s = show (
    with_intent
      (record s.intent {
        doing = some line;
        log =
            close_running s.intent.log step_done now none
            ++ record {
              line = line;
              started_at = now;
              ms = none;
              state = step_running;
              error = none;
            }
              ∷ [];
      })
      s)

abbrev pub marked_by : List Todo → String → Todo
marked_by before label = record {
  label = label;
  done = any (λ t. is_labelled label t && t.done) before;
}

unfoldable pub todo : Value → IntentStates → Result IntentError IntentStates
todo rest s =
    strings rest >>= λ labels. ok (show (with_todos (map (marked_by s.intent.todos) labels) s))

unfoldable pub known : String → List Todo → Result IntentError (List Todo)
known label todos =
    if any (is_labelled label) todos then ok todos else err (no_such_todo (open_labels todos))

abbrev pub checked : String → Todo → Todo
checked label t = if is_labelled label t then record { label = label; done = true } else t

unfoldable pub check : String → IntentStates → Result IntentError IntentStates
check label s =
    known label s.intent.todos >>= λ todos. ok (show (with_todos (map (checked label) todos) s))

abbrev pub others : String → List Todo → List Todo
others label todos = filter (λ t. not (is_labelled label t)) todos

unfoldable pub drop_todo : String → IntentStates → Result IntentError IntentStates
drop_todo label s =
    known label s.intent.todos >>= λ todos. ok (show (with_todos (others label todos) s))

abbrev pub insert_at : ℕ → Option Todo → List Todo → List Todo
insert_at at none rest = rest
insert_at at (some moved) rest = take at rest ++ moved ∷ drop at rest

unfoldable pub move : String → Value → IntentStates → Result IntentError IntentStates
move label raw_at s = count raw_at 0 >>= λ at. known label s.intent.todos >>= λ todos.
    ok (show (with_todos (insert_at at (find (is_labelled label) todos) (others label todos)) s))

unfoldable pub clear : IntentStates → IntentStates
clear s = show (with_todos [] s)

abbrev pub caption_of : List Value → Result IntentError (Option String)
caption_of [] = ok none
caption_of (text label ∷ []) = ok (some label)
caption_of (_ ∷ []) = err string_expected
caption_of (_ ∷ _ ∷ _) = err one_label

abbrev pub with_bar : ℕ → ℕ → Option String → IntentStates → IntentStates
with_bar reached total caption s =
    with_intent
      (record s.intent {
        progress = some (record { done = reached; total = total; label = caption });
      })
      s

unfoldable pub show_progress :
    Value → Value → Value → IntentStates → Result IntentError IntentStates
show_progress raw_done raw_total rest s = count raw_total 1 >>= λ total.
    count raw_done 0 >>= λ reached.
    if ltb total reached
    then err (exceeds total)
    else list_to_array rest >>= λ extra.
        caption_of extra >>= λ caption. ok (show (with_bar reached total caption s))

abbrev pub is_given : Option Value → Bool
is_given none = false
is_given (some null) = false
is_given (some _) = true

abbrev pub multi_of : Option (Dict Value) → Result IntentError Bool
multi_of none = err bad_options
multi_of (some opts) = ok (is_given (Dict.get "multi" opts))

abbrev pub with_question : String → List String → Bool → IntentStates → IntentStates
with_question prompt choices multi s = record s {
  seq = s.seq + 1;
  outputs =
      s.outputs
      ++ question (record { id = s.seq + 1; prompt = prompt; choices = choices; multi = multi })
        ∷ end_turn
        ∷ [];
}

abbrev pub some_choice : List String → Result IntentError (List String)
some_choice [] = err needs_choice
some_choice (c ∷ choices) = ok (c ∷ choices)

unfoldable pub ask : String → Value → Value → IntentStates → Result IntentError IntentStates
ask prompt choice_list rest s = strings choice_list >>= some_choice >>= λ choices.
    multi_of (plist_options rest ("multi" ∷ [])) >>= λ multi.
    ok (with_question prompt choices multi s)
