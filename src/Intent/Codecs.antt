-- ===== src/Intent/Codecs.antt =====
-- packages/intent/src/intent.ts: the codecs of its states. `from_lisp` gives `none` where the program
-- throws, or goes on with a value that is not of the type it casts to. A time need not be a whole number of
-- milliseconds: it is a count of ticks, `ticks` of them a millisecond.
pub mod Exact
use lisptc.Prelude.{
  ℕ, ◌*◌, ◌/◌, String, Bool, true, false, ◌≡◌, Option, none, some, List, [], ◌∷◌, map, ◌===◌,
  if◌then◌else◌,
}
use lisptc.Prelude.Int.{pos}
use lisptc.Prelude.Fallible.{◌>>=◌}
use lisptc.Value.{Value, null, truth, text, bigint, cell, array_to_list}
use lisptc.Intent.{Todo, Progress, StepState, step_running, step_done, step_failed, IntentStep}

pub record StateCodec (A : Type 0) : Type 0 where
  pub to_lisp : A → Value
  pub from_lisp : Value → Option A

abbrev pub IsExact : {A : Type 0} → StateCodec A → Type 0
IsExact {A} codec = (x : A) → codec.from_lisp (codec.to_lisp x) ≡ some x

abbrev pub items : Value → Option (List Value)
items null = some []
items (cell x rest) = items rest >>= λ xs. some (x ∷ xs)
items _ = none

-- `map` with a step that may fail
abbrev pub map_option {ℓ κ} : {A : Type ℓ} {B : Type κ} → (A → Option B) → List A → Option (List B)
map_option f [] = some []
map_option f (x ∷ xs) = f x >>= λ y. map_option f xs >>= λ ys. some (y ∷ ys)

abbrev pub mark : Bool → Value
mark true = truth
mark false = null

abbrev pub is_marked : Value → Bool
is_marked null = false
is_marked _ = true

abbrev pub todo_to_lisp : Todo → Value
todo_to_lisp t = cell (text t.label) (mark t.done)

abbrev pub todo_from_lisp : Value → Option Todo
todo_from_lisp (cell (text label) done) = some (record { label = label; done = is_marked done })
todo_from_lisp _ = none

abbrev pub todos_codec : StateCodec (List Todo)
todos_codec = record {
  to_lisp = λ todos. array_to_list (map todo_to_lisp todos);
  from_lisp = λ list. items list >>= map_option todo_from_lisp;
}

abbrev pub text_or_null : Option String → Value
text_or_null none = null
text_or_null (some s) = text s

abbrev pub text_only : Value → Option String
text_only (text s) = some s
text_only _ = none

abbrev pub doing_codec : StateCodec (Option String)
doing_codec = record { to_lisp = text_or_null; from_lisp = λ x. some (text_only x) }

abbrev pub if_given : Option String → List Value
if_given none = []
if_given (some s) = text s ∷ []

-- the text at the front of the rest of an array, `undefined` at its end
abbrev pub text_at : List Value → Option String
text_at [] = none
text_at (x ∷ xs) = text_only x

abbrev pub bar_to_lisp : Option Progress → Value
bar_to_lisp none = null
bar_to_lisp (some p) = array_to_list (bigint (pos p.done) ∷ bigint (pos p.total) ∷ if_given p.label)

abbrev pub bar_of : List Value → Option (Option Progress)
bar_of (bigint (pos reached) ∷ bigint (pos total) ∷ rest) =
    some (some (record { done = reached; total = total; label = text_at rest }))
bar_of _ = none

abbrev pub bar_from_lisp : Value → Option (Option Progress)
bar_from_lisp null = some none
bar_from_lisp list = items list >>= bar_of

abbrev pub progress_codec : StateCodec (Option Progress)
progress_codec = record { to_lisp = bar_to_lisp; from_lisp = bar_from_lisp }

abbrev pub state_text : StepState → String
state_text step_running = "running"
state_text step_done = "done"
state_text step_failed = "failed"

abbrev pub state_of : String → Option StepState
state_of s =
    if s === "running"
    then some step_running
    else if s === "done"
    then some step_done
    else if s === "failed"
    then some step_failed
    else none

module _ (ticks : ℕ) where
  -- `BigInt(Math.trunc(…))`, and the number that reads it
  abbrev pub ms_to_lisp : Option ℕ → Value
  ms_to_lisp none = null
  ms_to_lisp (some ms) = bigint (pos (ms / ticks))

  abbrev pub ms_from_lisp : Value → Option (Option ℕ)
  ms_from_lisp null = some none
  ms_from_lisp (bigint (pos ms)) = some (some (ms * ticks))
  ms_from_lisp _ = none

  abbrev pub step_to_lisp : IntentStep → Value
  step_to_lisp s = array_to_list (
      text s.line
      ∷ bigint (pos (s.started_at / ticks))
      ∷ ms_to_lisp s.ms
      ∷ text (state_text s.state)
      ∷ if_given s.error)

  abbrev pub step_of : List Value → Option IntentStep
  step_of (text line ∷ bigint (pos started_at) ∷ ms ∷ text state ∷ rest) =
      ms_from_lisp ms >>= λ taken. state_of state >>= λ now. some (record {
        line = line;
        started_at = started_at * ticks;
        ms = taken;
        state = now;
        error = text_at rest;
      })
  step_of _ = none

  abbrev pub step_from_lisp : Value → Option IntentStep
  step_from_lisp entry = items entry >>= step_of

  abbrev pub log_codec : StateCodec (List IntentStep)
  log_codec = record {
    to_lisp = λ log. array_to_list (map step_to_lisp log);
    from_lisp = λ list. items list >>= map_option step_from_lisp;
  }

abbrev pub seq_from_lisp : Value → Option ℕ
seq_from_lisp (bigint (pos n)) = some n
seq_from_lisp _ = none

abbrev pub seq_codec : StateCodec ℕ
seq_codec = record { to_lisp = λ n. bigint (pos n); from_lisp = seq_from_lisp }
