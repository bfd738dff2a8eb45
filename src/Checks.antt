-- ===== src/Checks.antt =====
-- packages/checks/src/checks.ts and trace.ts: the events of a run, and the tests of a call's
-- arguments. What is outside the program's text: `String(x)` of a value (`shown`) and
-- `RegExp.test` (`regex_test`). A keyword that every JavaScript object has as a member is left out.
pub mod Judge
pub mod Positions
pub mod Latch
mod Tests
use package.text.Mathlib.Text.{starts_with}
use Prim.Native.String.{◌++◌ as ◌<>◌, find as index_of, len}
use lisptc.Prelude.{
  ℕ, String, Bool, true, false, Option, none, some, List, [], ◌∷◌, ◌++◌, map, any, all, leb, ◌===◌,
  ◌||◌, ◌&&◌, if◌then◌else◌,
}
use lisptc.Prelude.Dict
use lisptc.Prelude.Dict.{Dict}
use lisptc.Value.{Value, null, cell, sym, key}
use lisptc.Value.Json.{Json}

pub data Matcher : Type 0 where
  anything : Matcher
  regex includes equals : String → Matcher

-- what an argument may be: a Lisp value, a value of a tool call, or a matcher
pub data Datum : Type 0 where
  lisp : Value → Datum
  plain : Json → Datum
  undefined : Datum
  matcher : Matcher → Datum

pub record CallArgs : Type 0 where
  pub positional : List Datum
  pub keywords : Dict Datum

pub data Severity : Type 0 where
  critical warning : Severity

pub data TraceEvent : Type 0 where
  reply : ℕ → String → TraceEvent
  form : ℕ → String → String → Option String → TraceEvent
  tool : ℕ → String → String → Dict Datum → Bool → TraceEvent
  connect : ℕ → String → Bool → TraceEvent
  note : ℕ → Severity → String → TraceEvent
  halt : ℕ → String → TraceEvent

abbrev pub step_in : TraceEvent → ℕ
step_in (reply step _) = step
step_in (form step _ _ _) = step
step_in (tool step _ _ _ _) = step
step_in (connect step _ _) = step
step_in (note step _ _) = step
step_in (halt step _) = step

-- the events, the form behind each index, and the step that runs now
pub record Trace : Type 0 where
  pub events : List TraceEvent
  pub sources : ℕ → Option Value
  pub step : ℕ

abbrev pub no_args : CallArgs
no_args = record { positional = []; keywords = [] }

abbrev pub with_positional : Datum → CallArgs → CallArgs
with_positional x spec = record spec { positional = spec.positional ++ x ∷ [] }

abbrev pub with_keyword : String → Datum → CallArgs → CallArgs
with_keyword name x spec = record spec { keywords = Dict.put name x spec.keywords }

-- a keyword takes the datum behind it, `undefined` at the end
unfoldable pub spec_from : CallArgs → List Datum → CallArgs
spec_from spec [] = spec
spec_from spec (lisp (key name) ∷ []) = with_keyword name undefined spec
spec_from spec (lisp (key name) ∷ x ∷ rest) = spec_from (with_keyword name x spec) rest
spec_from spec (x ∷ rest) = spec_from (with_positional x spec) rest

-- the same on the arguments of a form
unfoldable pub form_args_from : CallArgs → Value → CallArgs
form_args_from spec (cell (key name) (cell x rest)) =
    form_args_from (with_keyword name (lisp x) spec) rest
form_args_from spec (cell (key name) _) = with_keyword name undefined spec
form_args_from spec (cell x rest) = form_args_from (with_positional (lisp x) spec) rest
form_args_from spec _ = spec

unfoldable pub form_args : Value → CallArgs
form_args rest = form_args_from no_args rest

abbrev pub is_sym : String → Value → Bool
is_sym name (sym other) = other === name
is_sym name _ = false

unfoldable mutual
  pub calls_within : Value → String → List CallArgs
  calls_within (cell head rest) name =
      let own = if is_sym name head then form_args rest ∷ [] else [] in
      own ++ calls_within head name ++ calls_along rest name
  calls_within _ name = []

  -- in each item, which is no call of its own
  pub calls_along : Value → String → List CallArgs
  calls_along (cell head rest) name = calls_within head name ++ calls_along rest name
  calls_along _ name = []

abbrev pub is_promise_of : String → Value → Bool
is_promise_of name (sym other) = other === name || starts_with other (name <> "-")
is_promise_of name _ = false

unfoldable pub names_promise : Value → String → Bool
names_promise (cell head rest) name =
    is_promise_of name head || names_promise head name || names_promise rest name
names_promise _ name = false

abbrev pub is_some_call : List CallArgs → Bool
is_some_call [] = false
is_some_call (_ ∷ _) = true

unfoldable mutual
  pub awaits_within : Value → String → Bool
  awaits_within (cell head rest) name =
      (is_sym "await" head && (is_some_call (calls_within rest name) || names_promise rest name))
      || awaits_within head name
      || awaits_along rest name
  awaits_within _ name = false

  pub awaits_along : Value → String → Bool
  awaits_along (cell head rest) name = awaits_within head name || awaits_along rest name
  awaits_along _ name = false

unfoldable pub event_args : TraceEvent → CallArgs
event_args (tool _ _ _ args _) = record { positional = []; keywords = args }
event_args (connect _ server _) = with_positional (lisp (Value.text server)) no_args
event_args _ = no_args

module _ (shown : Datum → String) where
  abbrev pub call_name : List Datum → String
  call_name [] = ""
  call_name (undefined ∷ _) = ""
  call_name (lisp null ∷ _) = ""
  call_name (plain Json.null ∷ _) = ""
  call_name (x ∷ _) = shown x

  abbrev pub call_spec : List Datum → CallArgs
  call_spec [] = no_args
  call_spec (_ ∷ rest) = spec_from no_args rest

  -- the name that is called, and the arguments that it should have
  unfoldable pub split_args : List Datum → String × CallArgs
  split_args args = (call_name args, call_spec args)

module _ (shown : Datum → String) (regex_test : String → String → Bool) where
  unfoldable pub test_value : Datum → Datum → Bool
  test_value actual (matcher anything) = true
  test_value actual (matcher (regex value)) = regex_test value (shown actual)
  test_value actual (matcher (includes value)) =
      leb (index_of (shown actual) value) (len (shown actual))
  test_value actual (matcher (equals value)) = shown actual === value
  test_value actual expected = shown actual === shown expected

  abbrev pub keyword_holds : Option Datum → Datum → Bool
  keyword_holds none wanted = false
  keyword_holds (some actual) wanted = test_value actual wanted

  unfoldable pub matches_args : CallArgs → CallArgs → Bool
  matches_args actual spec =
      let everything = actual.positional ++ map (λ e. e.1) actual.keywords in
      all (λ e. keyword_holds (Dict.get e.0 actual.keywords) e.1) spec.keywords
      && all (λ wanted. any (λ value. test_value value wanted) everything) spec.positional
