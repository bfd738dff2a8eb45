-- ===== src/Interp/Expand.antt =====
-- packages/interpreter/src/compile.ts: compileFunc, the expansion of macros and the compiling of inner
-- lambdas; and Macro.expandWith of func.ts. `ev` is the evaluator. The program refuses to wait while it
-- expands the macros of a function's body; here no builtin waits.
use lisptc.Prelude.{
  ℕ, zero, suc, ◌-◌, String, Bool, false, Option, none, some, List, [], ◌∷◌, ◌||◌, if◌then◌else◌,
}
use lisptc.Prelude.Result.{Result, ok, err}
use lisptc.Value.{Value, null, sym, cell, object}
use lisptc.Quasiquote.{qq_expand}
use lisptc.Frames.{Func, Called, make_frame}
use lisptc.Compile.{CompileError, ArgTable, make_arg_table, scan_for_args, is_sym}
use lisptc.Interp.{
  Env, Code, Object, lambda, macro, failed, crashed, M, call_site, list_site, Host, ret, stop,
  out_of_fuel, ◌>>=◌, get_global, find_object, new_object, new_frame,
}

-- `cdrCell`
abbrev pub next_list : Value → Value → M Value
next_list whole null = ret null
next_list whole (cell x rest) = ret (cell x rest)
next_list whole _ = stop (failed whole)

unfoldable pub mapcar : (Value → M Value) → Value → M Value
mapcar f (cell x rest) = f x >>= λ y. mapcar f rest >>= λ ys. ret (cell y ys)
mapcar f x = ret x

abbrev pub or_crash : Option Value → M Value
or_crash none = stop crashed
or_crash (some x) = ret x

-- the only item of a list
abbrev pub only_item : Value → Option Value
only_item (cell x null) = some x
only_item _ = none

abbrev pub single_or : Value → Option Value → M Value
single_or form none = stop (failed form)
single_or form (some x) = ret x

abbrev pub macro_in : Value → Option Object → Option (Value × Code)
macro_in fn (some (macro code)) = some (fn, code)
macro_in fn _ = none

unfoldable pub macro_object : Value → M (Option (Value × Code))
macro_object (object n) = find_object n >>= λ found. ret (macro_in (object n) found)
macro_object _ = ret none

abbrev pub macro_global : Option Value → M (Option (Value × Code))
macro_global none = ret none
macro_global (some x) = macro_object x

unfoldable pub macro_of : Value → M (Option (Value × Code))
macro_of (sym name) = get_global name >>= macro_global
macro_of x = macro_object x

-- the parts of `(try form (catch params handler…))`
pub record TryForm : Type 0 where
  pub form : Value
  pub params : Value
  pub handlers : Value

abbrev pub try_parts_of : Value → Value → Value → Value → M TryForm
try_parts_of whole form (cell params handlers) clause =
    next_list (cell params handlers) handlers >>= λ hs.
    ret (record { form = form; params = params; handlers = hs })
try_parts_of whole form _ clause = stop (failed whole)

abbrev pub head_is : String → Value → Bool
head_is name (cell x rest) = is_sym name x
head_is name _ = false

abbrev pub tail_of : Value → Value
tail_of (cell x rest) = rest
tail_of _ = null

module _ (host : Host) where
  abbrev pub framed : Value → Value → Called (List Value) → M (List Value)
  framed fn args (ok xs) = ret xs
  framed fn args (err e) = stop (failed (host.error_value (call_site e fn args)))

  unfoldable pub frame_of : Func → Value → Value → M (List Value)
  frame_of func fn args = framed fn args (make_frame func args)

  abbrev pub tabled : Value → Result CompileError ArgTable → M ArgTable
  tabled params (ok t) = ret t
  tabled params (err e) = stop (failed (host.error_value (list_site e params)))

  module _ (ev : Value → Env → M Value) where
    -- the forms one after the other, with the value of the last
    unfoldable pub run_forms : Value → Env → Value → M Value
    run_forms (cell form rest) env x =
        ev form env >>= λ y. next_list (cell form rest) rest >>= λ _. run_forms rest env y
    run_forms _ env x = ret x

    unfoldable pub expand_with : Value → Code → Value → M Value
    expand_with fn code args = frame_of code.func fn args >>= λ frame.
        new_frame frame >>= λ a. run_forms code.body (a ∷ []) null

    -- `expandTry`, with the expansion of a form
    unfoldable pub expand_try : (Value → M Value) → Value → Value → M Value
    expand_try expand whole (cell form rest) = next_list (cell form rest) rest >>= λ clauses.
        single_or whole (only_item clauses) >>= λ clause.
        if head_is "catch" clause
        then (expand form >>= λ body. next_list clause (tail_of clause) >>= λ parts.
            try_parts_of whole body parts clause >>= λ t. mapcar expand t.handlers >>= λ handlers.
            ret (
              cell (sym "try")
                (cell t.form (cell (cell (sym "catch") (cell t.params handlers)) null))))
        else stop (failed whole)
    expand_try expand whole _ = stop (failed whole)

    -- the items of a form are expanded, or its macro is and then what came of it
    abbrev pub expand_found :
        (Value → M Value) → (Value → M Value) → Value → Value → Option (Value × Code) → M Value
    expand_found item again form rest none = mapcar item form
    expand_found item again form rest (some (fn, code)) =
        next_list form rest >>= λ d. expand_with fn code d >>= again

    unfoldable pub expand_macros : ℕ → Value → ℕ → M Value
    expand_macros zero j count = out_of_fuel
    expand_macros (suc n) (cell k rest) (suc count) =
        if is_sym "quote" k || is_sym "lambda" k || is_sym "macro" k
        then ret (cell k rest)
        else if is_sym "quasiquote" k
        then (next_list (cell k rest) rest >>= λ d. single_or (cell k rest) (only_item d) >>= λ x.
            or_crash (qq_expand x) >>= λ z. expand_macros n z (suc count))
        else if is_sym "try" k
        then (next_list (cell k rest) rest >>= λ d.
            expand_try (λ x. expand_macros n x (suc count)) (cell k rest) d)
        else macro_of k
          >>= expand_found (λ x. expand_macros n x (suc count)) (λ z. expand_macros n z count)
              (cell k rest) rest
    expand_macros (suc n) j count = ret j

    abbrev pub func_of : ArgTable → Func
    func_of t = record {
      fixed = if t.has_rest then t.arity - 1 else t.arity;
      has_rest = t.has_rest;
      keys = t.keys;
    }

    unfoldable mutual
      pub compile_func : ℕ → Value → M Code
      compile_func zero form = out_of_fuel
      compile_func (suc n) (cell params rest) = tabled params (make_arg_table params) >>= λ t.
          next_list (cell params rest) rest >>= λ body.
          expand_macros n (scan_for_args body t.table) 20 >>= λ expanded.
          compile_inners n expanded >>= λ compiled.
          ret (record { func = func_of t; body = compiled })
      compile_func (suc n) form = stop (failed form)

      pub compile_inners : ℕ → Value → M Value
      compile_inners zero j = out_of_fuel
      compile_inners (suc n) (cell k rest) =
          if is_sym "quote" k
          then ret (cell k rest)
          else if is_sym "lambda" k
          then (next_list (cell k rest) rest >>= λ d.
              compile_func n d >>= λ code. new_object (lambda code))
          else if is_sym "macro" k
          then stop (failed (cell k rest))
          else mapcar (compile_inners n) (cell k rest)
      compile_inners (suc n) j = ret j
