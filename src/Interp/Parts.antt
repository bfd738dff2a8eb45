-- ===== src/Interp/Parts.antt =====
-- packages/interpreter/src/lisp.ts: evalNow, and the parts of evalSpecial and evalApplication that do not
-- call the evaluator. An argument outside its frame is `crashed`.
use lisptc.Prelude.{ℕ, String, Option, none, some, List, if◌then◌else◌, length, get_elem?, set, ltb}
use lisptc.Value.{Value, null, truth, sym, cell, arg, object}
use lisptc.Compile.{is_sym}
use lisptc.Frames.{Func}
use lisptc.Interp.{
  Env, Action, Code, Object, lambda, macro, closure, builtin, Stop, failed, looped, crashed, M, ret,
  stop, ◌>>=◌, get_global, set_global, find_object, new_object, get_frame, set_frame,
}
use lisptc.Interp.Expand.{next_list, or_crash, only_item, single_or}

pub data Special : Type 0 where
  quotes progns conds setqs tries lambdas macros quasiquotes : Special

-- the symbols that are a `Keyword`
unfoldable pub special_of : String → Option Special
special_of name =
    if is_sym "quote" (sym name)
    then some quotes
    else if is_sym "progn" (sym name)
    then some progns
    else if is_sym "cond" (sym name)
    then some conds
    else if is_sym "setq" (sym name)
    then some setqs
    else if is_sym "try" (sym name)
    then some tries
    else if is_sym "lambda" (sym name)
    then some lambdas
    else if is_sym "macro" (sym name)
    then some macros
    else if is_sym "quasiquote" (sym name)
    then some quasiquotes
    else none

-- an evaluation goes on with a form, or it has its value
pub data Next : Type 0 where
  tail : Value → Env → Next
  value : Value → Next

pub record TryParts : Type 0 where
  pub body : Value
  pub params : Value
  pub handler : Value

abbrev pub read_slot : ℕ → Option (List Value) → M Value
read_slot offset none = stop crashed
read_slot offset (some xs) = or_crash (get_elem? xs offset)

abbrev pub read_frame : ℕ → Option ℕ → M Value
read_frame offset none = stop crashed
read_frame offset (some a) = get_frame a >>= read_slot offset

-- `Arg.getValue`
unfoldable pub read_arg : ℕ → ℕ → Env → M Value
read_arg level offset env = read_frame offset (get_elem? env level)

abbrev pub write_slot : ℕ → ℕ → Value → Option (List Value) → M (Unit {0})
write_slot a offset x none = stop crashed
write_slot a offset x (some xs) =
    if ltb offset (length xs) then set_frame a (set xs offset x) else stop crashed

abbrev pub write_frame : ℕ → Value → Option ℕ → M (Unit {0})
write_frame offset x none = stop crashed
write_frame offset x (some a) = get_frame a >>= write_slot a offset x

-- `Arg.setValue`
unfoldable pub write_arg : ℕ → ℕ → Value → Env → M (Unit {0})
write_arg level offset x env = write_frame offset x (get_elem? env level)

abbrev pub global_or : Value → Option Value → M Value
global_or x none = stop (failed x)
global_or x (some y) = ret y

abbrev pub closed_object : Value → Env → Option Object → M Value
closed_object x env (some (lambda code)) = new_object (closure code env)
closed_object x env _ = ret x

unfoldable pub eval_now : Value → Env → M Value
eval_now (arg level offset name) env = read_arg level offset env
eval_now (sym name) env = get_global name >>= global_or (sym name)
eval_now (object n) env = find_object n >>= closed_object (object n) env
eval_now x env = ret x

-- `(sym name)` is assigned where it is no keyword
abbrev pub assign_global : String → Value → Option Special → M (Unit {0})
assign_global name x none = set_global name x
assign_global name x (some s) = stop (failed (sym name))

abbrev pub assign : Value → Value → Env → M (Unit {0})
assign (arg level offset name) x env = write_arg level offset x env
assign (sym name) x env = assign_global name x (special_of name)
assign lval x env = stop (failed lval)

-- the checks of `evalTry`, from the outside in
abbrev pub try_params : Value → Value → M Value
try_params params (cell x null) = ret (cell x null)
try_params params _ = stop (failed params)

abbrev pub try_handler : Value → Value → Value → M TryParts
try_handler body clause (cell params handlers) = try_params params params >>= λ ps.
    next_list (cell params handlers) handlers >>= λ hs.
    ret (record { body = body; params = ps; handler = hs })
try_handler body clause _ = stop (failed clause)

abbrev pub try_clause : Value → Value → M TryParts
try_clause body (cell k rest) =
    if is_sym "catch" k
    then (next_list (cell k rest) rest >>= λ parts. try_handler body (cell k rest) parts)
    else stop (failed (cell k rest))
try_clause body clause = stop (failed clause)

unfoldable pub try_parts : Value → M TryParts
try_parts (cell body rest) = next_list (cell body rest) rest >>= λ clauses.
    single_or (cell body rest) (only_item clauses) >>= λ clause. try_clause body clause
try_parts x = stop (failed x)

abbrev pub loop_result : Stop → M Value
loop_result (looped v) = ret (cell truth v)
loop_result s = stop s

-- what an application does with its head: the macro is expanded, the arguments are evaluated
pub data Applied : Type 0 where
  of_macro : Code → Applied
  of_closure : Code → Env → Applied
  of_builtin : String → Func → Action → Applied

abbrev pub head_object : Value → Option Object → M Applied
head_object fn (some (macro code)) = ret (of_macro code)
head_object fn (some (closure code env)) = ret (of_closure code env)
head_object fn (some (builtin name func action)) = ret (of_builtin name func action)
head_object fn _ = stop (failed fn)

-- `applicable`, after the test for a macro
unfoldable pub applicable : Value → M Applied
applicable (object n) = find_object n >>= head_object (object n)
applicable fn = stop (failed fn)

-- `copyRest`: cells are not changed in place, so the copy is the list
unfoldable pub copy_rest : Value → M Value
copy_rest (cell x rest) =
    next_list (cell x rest) rest >>= λ _. copy_rest rest >>= λ ys. ret (cell x ys)
copy_rest x = ret x
