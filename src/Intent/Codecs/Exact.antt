-- ===== src/Intent/Codecs/Exact.antt =====
-- What the codecs of an intent's states read back.
use lisptc.Prelude.{
  ℕ, ◌*◌, ◌/◌, String, Bool, true, false, ◌≡◌, refl, ap, ◌∙◌, Option, none, some, List, [], ◌∷◌,
  map,
}
use mathlib.Core.Option
use lisptc.Prelude.Fallible.{◌>>=◌}
use lisptc.Value.{Value, array_to_list}
use lisptc.Intent.{Todo, StepState, step_running, step_done, step_failed, IntentStep}
use lisptc.Intent.Codecs.{
  IsExact, items, map_option, mark, is_marked, todo_to_lisp, todo_from_lisp, todos_codec,
  doing_codec, if_given, text_at, progress_codec, state_text, state_of, ms_to_lisp, ms_from_lisp,
  step_to_lisp, step_from_lisp, log_codec, seq_codec,
}

items-array_to_list : (xs : List Value) → items (array_to_list xs) ≡ some xs
unfolding array_to_list
items-array_to_list [] = refl
items-array_to_list (x ∷ xs) = rw (items-array_to_list xs) refl

map_option-map {ℓ κ} :
    {A : Type ℓ} {B : Type κ} (f : B → Option A) (g : A → B) (seen : A → A)
    → ((x : A) → f (g x) ≡ some (seen x))
    → (xs : List A) → map_option f (map g xs) ≡ some (map seen xs)
map_option-map f g seen h [] = refl
map_option-map f g seen h (x ∷ xs) = rw (h x, map_option-map f g seen h xs) refl

map-same {ℓ} : {A : Type ℓ} (xs : List A) → map (λ x. x) xs ≡ xs
map-same [] = refl
map-same (x ∷ xs) = ap (λ l. x ∷ l) (map-same xs)

module _ {A : Type 0} (to : A → Value) (from : Value → Option A) where
  list-seen :
      (seen : A → A)
      → ((x : A) → from (to x) ≡ some (seen x))
      → (xs : List A) → (items (array_to_list (map to xs)) >>= map_option from) ≡ some (map seen xs)
  list-seen seen h xs = rw (items-array_to_list (map to xs)) (map_option-map from to seen h xs)

  list-IsExact :
      ((x : A) → from (to x) ≡ some x)
      → (xs : List A) → (items (array_to_list (map to xs)) >>= map_option from) ≡ some xs
  list-IsExact h xs = list-seen (λ x. x) h xs ∙ ap some (map-same xs)

is_marked-mark : (b : Bool) → is_marked (mark b) ≡ b
is_marked-mark true = refl
is_marked-mark false = refl

todo-IsExact : (t : Todo) → todo_from_lisp (todo_to_lisp t) ≡ some t
todo-IsExact t = rw (is_marked-mark t.done) refl

doing-IsExact : IsExact doing_codec
doing-IsExact none = refl
doing-IsExact (some s) = refl

text_at-if_given : (o : Option String) → text_at (if_given o) ≡ o
text_at-if_given none = refl
text_at-if_given (some s) = refl

bar-IsExact : IsExact progress_codec
unfolding array_to_list
bar-IsExact none = refl
bar-IsExact (some p) = rw (items-array_to_list (if_given p.label), text_at-if_given p.label) refl

state_of-state_text : (s : StepState) → state_of (state_text s) ≡ some s
state_of-state_text step_running = refl
state_of-state_text step_done = refl
state_of-state_text step_failed = refl

-- a time cut to whole milliseconds, and the steps of a log so
abbrev pub whole_ms : ℕ → ℕ → ℕ
whole_ms ticks time = time / ticks * ticks

abbrev pub cut_times : ℕ → IntentStep → IntentStep
cut_times ticks s = record s {
  started_at = whole_ms ticks s.started_at;
  ms = Option.map (whole_ms ticks) s.ms;
}

ms-cut :
    (ticks : ℕ) (o : Option ℕ)
    → ms_from_lisp ticks (ms_to_lisp ticks o) ≡ some (Option.map (whole_ms ticks) o)
ms-cut ticks none = refl
ms-cut ticks (some ms) = refl

step-cut_times :
    (ticks : ℕ) (s : IntentStep)
    → step_from_lisp ticks (step_to_lisp ticks s) ≡ some (cut_times ticks s)
unfolding array_to_list
step-cut_times ticks s =
    rw
      (
        items-array_to_list (if_given s.error),
        ms-cut ticks s.ms,
        state_of-state_text s.state,
        text_at-if_given s.error,
      )
      refl

-- The codecs of the todos, of the line of what the agent does, of the progress bar and of the number of
-- questions read back what they write. That of the log reads back the log with its times cut to whole
-- milliseconds, and nothing else changed.
pub codecs-IsExact :
    (ticks : ℕ)
    → IsExact todos_codec
      × IsExact doing_codec
      × IsExact progress_codec
      × IsExact seq_codec
      × ((log : List IntentStep)
          → (log_codec ticks).from_lisp ((log_codec ticks).to_lisp log)
            ≡ some (map (cut_times ticks) log))
codecs-IsExact ticks = (
  list-IsExact todo_to_lisp todo_from_lisp todo-IsExact,
  doing-IsExact,
  bar-IsExact,
  λ n. refl,
  list-seen (step_to_lisp ticks) (step_from_lisp ticks) (cut_times ticks) (step-cut_times ticks),
)
