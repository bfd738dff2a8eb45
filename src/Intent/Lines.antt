-- ===== src/Intent/Lines.antt =====
-- The lines of a turn and the progress bar.
use mathlib.Core.Path.{subst}
use lisptc.Plist.{plist_options}
use lisptc.Prelude.{
  ℕ, ◌⊎◌, ◌-◌, ◌≤◌, String, Bool, true, false, ◌≡◌, refl, Option, none, some, List, [], ◌∷◌, ◌++◌,
  any, ltb, All, arith, if◌then◌else◌, Bool-cases, inl, inr,
}
use lisptc.Prelude.Result.{OnOk, OnOk-bind, OnOk-then, ok, err, ◌>>=◌}
use lisptc.Prelude.Int.{pos}
use lisptc.Value.{Value, bigint}
use lisptc.Intent.{
  IntentStates, exceeds, show, IntentStep, StepState, step_running, step_done, step_failed,
  is_running, closed, close_running, close, close_shown, shown_or, kept_or, Progress, doing_line,
  todo, check, drop_todo, move, clear, show_progress, ask, known, strings, count, some_choice,
  multi_of, list_to_array, caption_of, with_bar,
}
use lisptc.Intent.Turns.{
  Form, doing_form, todo_form, check_form, drop_form, move_form, clear_form, progress_form,
  ask_form, run_form, turn_start, step_error, before_settle, turn_settled, Step, formed, started,
  erred, settling, settled, Reachable, start, later,
}

abbrev pub has_time : Option ℕ → Bool
has_time none = false
has_time (some _) = true

abbrev pub IsFinished : IntentStep → Type 0
IsFinished s = (is_running s ≡ false) × (has_time s.ms ≡ true)

-- the last step may still run, and then its time is open
abbrev pub IsLog : List IntentStep → Type 0
IsLog [] = Unit
IsLog (s ∷ []) = IsFinished s ⊎ ((is_running s ≡ true) × (has_time s.ms ≡ false))
IsLog (s ∷ t ∷ rest) = IsFinished s × IsLog (t ∷ rest)

abbrev pub IsBar : Option Progress → Type 0
IsBar none = Unit
IsBar (some p) = (p.done ≤ p.total) × (1 ≤ p.total)

abbrev pub IsShown : IntentStates → Type 0
IsShown s = IsLog s.intent.log × IsBar s.intent.progress

abbrev ends : StepState → Bool
ends step_running = false
ends _ = true

ends-IsFinished :
    (state : StepState) (now : ℕ) (error : Option String) (s : IntentStep)
    → ends state ≡ true
    → IsFinished (record s { state = state; ms = some (now - s.started_at); error = error })
ends-IsFinished step_running now error s e = ground (arith, e)
ends-IsFinished step_done now error s e = (refl, refl)
ends-IsFinished step_failed now error s e = (refl, refl)

already :
    (s : IntentStep)
    → (IsFinished s ⊎ ((is_running s ≡ true) × (has_time s.ms ≡ false)))
    → is_running s ≡ false
    → IsFinished s
already s (inl f) stopped = f
already s (inr (runs, _)) stopped = ground (arith, runs, stopped)

closed-IsFinished :
    (state : StepState) (now : ℕ) (error : Option String) (s : IntentStep)
    → ends state ≡ true
    → (IsFinished s ⊎ ((is_running s ≡ true) × (has_time s.ms ≡ false)))
    → IsFinished (closed state now error s)
unfolding closed
closed-IsFinished state now error s e h = elim (Bool-cases (is_running s)) [
  | inl runs ↦ rw runs (ends-IsFinished state now error s e)
  | inr stopped ↦ rw stopped (already s h stopped)
]

close_running-IsFinished :
    (log : List IntentStep) (state : StepState) (now : ℕ) (error : Option String)
    → ends state ≡ true
    → IsLog log
    → All IsFinished (close_running log state now error)
unfolding close_running
close_running-IsFinished [] state now error e h = tt
close_running-IsFinished (s ∷ []) state now error e h =
    (closed-IsFinished state now error s e h, tt)
close_running-IsFinished (s ∷ t ∷ rest) state now error e (f, h) = (
  closed-IsFinished state now error s e (inl f),
  close_running-IsFinished (t ∷ rest) state now error e h,
)

All-IsLog : (log : List IntentStep) → All IsFinished log → IsLog log
All-IsLog [] h = tt
All-IsLog (s ∷ []) (f, _) = inl f
All-IsLog (s ∷ t ∷ rest) (f, h) = (f, All-IsLog (t ∷ rest) h)

IsLog-append :
    (log : List IntentStep) (s : IntentStep)
    → All IsFinished log
    → (is_running s ≡ true) × (has_time s.ms ≡ false)
    → IsLog (log ++ s ∷ [])
IsLog-append [] s h runs = inr runs
IsLog-append (t ∷ []) s (f, _) runs = (f, inr runs)
IsLog-append (t ∷ u ∷ rest) s (f, h) runs = (f, IsLog-append (u ∷ rest) s h runs)

doing_line-IsShown :
    (now : ℕ) (line : String) (s : IntentStates) → IsShown s → IsShown (doing_line now line s)
unfolding doing_line
doing_line-IsShown now line s (log, bar) = (
  IsLog-append (close_running s.intent.log step_done now none) _
      (close_running-IsFinished s.intent.log step_done now none refl log) (refl, refl),
  bar,
)

close-kept :
    (state : StepState) (now : ℕ) (error : Option String) (s : IntentStates)
    → ends state ≡ true
    → IsShown s
    → IsShown (kept_or s (close state now error s)) × IsShown (shown_or s (close state now error s))
unfolding close
close-kept state now error s e (log, bar) = elim (Bool-cases (any is_running s.intent.log)) [
  | inl runs ↦
      let kept : IsLog (close_running s.intent.log state now error) =
        All-IsLog _ (close_running-IsFinished s.intent.log state now error e log) in
      rw runs ((kept, bar), (kept, bar))
  | inr quiet ↦ rw quiet ((log, bar), (log, bar))
]

count-least : (raw : Value) (least : ℕ) → OnOk (λ n. least ≤ n) (count raw least)
unfolding count
count-least (bigint (pos n)) least = elim (Bool-cases (ltb n least)) [
  | inl less ↦ rw less tt
  | inr enough ↦ rw enough (ground (arith, enough))
]
count-least _ least = tt

with_bar-IsShown :
    (reached total : ℕ) (rest : Value) (s : IntentStates)
    → IsShown s
    → 1 ≤ total
    → OnOk IsShown (
        if ltb total reached
        then err (exceeds total)
        else list_to_array rest >>= λ extra.
            caption_of extra >>= λ caption. ok (show (with_bar reached total caption s)))
with_bar-IsShown reached total rest s (log, bar) some_step = elim (Bool-cases (ltb total reached)) [
  | inl more ↦ rw more tt
  | inr fits ↦
      let bounded : reached ≤ total = ground (arith, fits) in
      rw fits (
        OnOk-then IsShown (list_to_array rest) _ (λ extra.
          OnOk-then IsShown (caption_of extra) _ (λ caption. (log, (bounded, some_step)))))
]

show_progress-IsShown :
    (raw_done raw_total rest : Value) (s : IntentStates)
    → IsShown s
    → OnOk IsShown (show_progress raw_done raw_total rest s)
unfolding show_progress
show_progress-IsShown raw_done raw_total rest s (log, bar) =
    OnOk-bind (λ total. 1 ≤ total) IsShown (count raw_total 1) _ (count-least raw_total 1)
      (λ total some_step.
        OnOk-then IsShown (count raw_done 0) _
          (λ reached. with_bar-IsShown reached total rest s (log, bar) some_step))

run_form-IsShown : (f : Form) (s : IntentStates) → IsShown s → OnOk IsShown (run_form f s)
unfolding run_form todo check drop_todo move clear ask
run_form-IsShown (doing_form now line) s h = doing_line-IsShown now line s h
run_form-IsShown (todo_form rest) s h = OnOk-then IsShown (strings rest) _ (λ labels. h)
run_form-IsShown (check_form label) s h =
    OnOk-then IsShown (known label s.intent.todos) _ (λ todos. h)
run_form-IsShown (drop_form label) s h =
    OnOk-then IsShown (known label s.intent.todos) _ (λ todos. h)
run_form-IsShown (move_form label raw_at) s h =
    OnOk-then IsShown (count raw_at 0) _
      (λ at. OnOk-then IsShown (known label s.intent.todos) _ (λ todos. h))
run_form-IsShown clear_form s h = h
run_form-IsShown (progress_form raw_done raw_total rest) s h =
    show_progress-IsShown raw_done raw_total rest s h
run_form-IsShown (ask_form prompt choice_list rest) s h =
    OnOk-then IsShown (strings choice_list >>= some_choice) _
      (λ choices. OnOk-then IsShown (multi_of (plist_options rest ("multi" ∷ []))) _ (λ multi. h))

Step-IsShown : (s next : IntentStates) → Step s next → IsShown s → IsShown next
unfolding turn_start step_error before_settle turn_settled close_shown
Step-IsShown s next (formed f _ _ e) h = subst (OnOk IsShown) e (run_form-IsShown f s h)
Step-IsShown s _ (started _) (log, bar) = (tt, bar)
Step-IsShown s _ (erred now error _) h = (close-kept step_failed now _ s refl h).1
Step-IsShown s _ (settling now true _) h = h
Step-IsShown s _ (settling now false _) h = (close-kept step_done now none s refl h).1
Step-IsShown s _ (settled now true _) h = (close-kept step_failed now none s refl h).0
Step-IsShown s _ (settled now false _) h = (close-kept step_done now none s refl h).0

-- In every state that the forms and the hooks reach, only the last line of the log may still run, its
-- time is open just as long as it runs, and the progress bar is of at least one step, of which no more
-- are done than there are.
pub Reachable-IsShown : (s : IntentStates) → Reachable s → IsShown s
Reachable-IsShown s start = (tt, tt)
Reachable-IsShown s (later before _ r step) =
    Step-IsShown before s step (Reachable-IsShown before r)
