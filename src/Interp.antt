-- ===== src/Interp.antt =====
-- packages/interpreter/src/lisp.ts: the state of an interpreter and the steps that its evaluator makes
-- on it. A function is an object and a call's frame a list of values, both found by their number;
-- an environment is the numbers of its frames, the innermost first. Cells are not changed in place.
pub mod Expand
pub mod Parts
pub mod Slots
pub mod Forms
pub mod Rel
pub mod Runs
pub mod TopLevel
pub mod Kept
pub mod Later
pub mod Gives
pub mod Arguments
pub mod Calls
pub mod Quoted
mod Tests
use lisptc.Prelude.{
  ℕ, zero, suc, String, Bool, true, false, Option, none, some, List, [], ◌∷◌, ◌++◌, length,
  get_elem?, set, if◌then◌else◌,
}
use lisptc.Prelude.Dict
use lisptc.Prelude.Dict.{Dict}
use lisptc.Prelude.Result.{Result, ok, err}
use lisptc.Value.{Value, sym, cell, object}
use lisptc.Frames.{Func, CallError, Called}
use lisptc.Compile.{CompileError}

abbrev pub Env : Type 0
Env = List ℕ

-- `apply` and `_run-loop-body` go back to the evaluator; any other builtin is known by its name.
pub data Action : Type 0 where
  plain applies runs_loop_body : Action

pub record Code : Type 0 where
  pub func : Func
  pub body : Value

pub data Object : Type 0 where
  lambda macro : Code → Object
  closure : Code → Env → Object
  builtin : String → Func → Action → Object

pub record Machine : Type 0 where
  pub globals : Dict Value
  pub sealed : Dict String
  pub objects : List Object
  pub frames : List (List Value)

-- what ends an evaluation: an `EvalException` with its value, a `LoopSignal`, a `ThrowSignal`, a
-- `StepHold`, or an error of the host
pub data Stop : Type 0 where
  failed looped : Value → Stop
  thrown : Value → Value → Value → Stop
  held crashed : Stop

-- `none`: the fuel ran out
abbrev pub M : Type 0 → Type 0
M A = Machine → Option (Result Stop A × Machine)

-- what the errors of a call and of a parameter list are about
pub data Site : Type 0 where
  call_site : CallError → Value → Value → Site
  list_site : CompileError → Value → Site

-- `call` is what a builtin does, `guard` the chain of hooks before a call, `error_value` the value
-- that the exceptions of `makeFrame` and `makeArgTable` carry.
pub record Host : Type 0 where
  pub call : String → List Value → M Value
  pub guard : String → List Value → M (Unit {0})
  pub error_value : Site → Value

module _ {A : Type 0} where
  abbrev pub ret : A → M A
  ret a m = some (ok a, m)

  abbrev pub stop : Stop → M A
  stop s m = some (err s, m)

  abbrev pub out_of_fuel : M A
  out_of_fuel m = none

  abbrev pub handled :
      (Stop → M A) → Option (Result Stop A × Machine) → Option (Result Stop A × Machine)
  handled h none = none
  handled h (some (ok a, m)) = some (ok a, m)
  handled h (some (err s, m)) = h s m

  -- `try` and `catch`
  unfoldable pub handle : M A → (Stop → M A) → M A
  handle c h m = handled h (c m)

abbrev pub bound :
    {A B : Type 0} → (A → M B) → Option (Result Stop A × Machine) → Option (Result Stop B × Machine)
bound f none = none
bound f (some (ok a, m)) = f a m
bound f (some (err s, m)) = some (err s, m)

infixl 5 ◌>>=◌
unfoldable pub ◌>>=◌ : {A B : Type 0} → M A → (A → M B) → M B
◌>>=◌ c f m = bound f (c m)

unfoldable pub get_global : String → M (Option Value)
get_global name m = some (ok (Dict.get name m.globals), m)

abbrev pub refused_or :
    Option String → Machine → Value → Machine → Option (Result Stop (Unit {0}) × Machine)
refused_or none next x m = some (ok tt, next)
refused_or (some owner) next x m = some (err (failed x), m)

-- `refuseSealed`, and then the assignment
unfoldable pub set_global : String → Value → M (Unit {0})
set_global name x m =
    refused_or (Dict.get name m.sealed) (record m { globals = Dict.put name x m.globals })
      (sym name) m

unfoldable pub find_object : ℕ → M (Option Object)
find_object n m = some (ok (get_elem? m.objects n), m)

unfoldable pub new_object : Object → M Value
new_object o m = some (ok (object (length m.objects)), record m { objects = m.objects ++ o ∷ [] })

unfoldable pub new_frame : List Value → M ℕ
new_frame xs m = some (ok (length m.frames), record m { frames = m.frames ++ xs ∷ [] })

unfoldable pub get_frame : ℕ → M (Option (List Value))
get_frame n m = some (ok (get_elem? m.frames n), m)

unfoldable pub set_frame : ℕ → List Value → M (Unit {0})
set_frame n xs m = some (ok tt, record m { frames = set m.frames n xs })
