-- ===== src/Interp/Forms.antt =====
-- packages/interpreter/src/lisp.ts: evalSpecial and evalApplication, for a host, the fuel of the compiler
-- and the evaluator `ev`; and evalGen, with which `ev` is closed. `guard` does nothing where no hook
-- stands on the call.
use lisptc.Prelude.{
  ℕ, zero, suc, String, Bool, true, Option, none, some, List, [], ◌∷◌, if◌then◌else◌, set,
}
use lisptc.Value.{Value, null, sym, cell}
use lisptc.Quasiquote.{qq_quote, qq_expand, is_null}
use lisptc.Frames.{Func}
use lisptc.Interp.{
  Env, Action, plain, applies, runs_loop_body, macro, closure, Stop, failed, crashed, M, Host, ret,
  stop, out_of_fuel, handle, ◌>>=◌, get_global, new_object, new_frame,
}
use lisptc.Interp.Expand.{
  next_list, mapcar, or_crash, only_item, single_or, frame_of, expand_with, compile_func,
}
use lisptc.Interp.Parts.{
  Special, special_of, Next, TryParts, global_or, eval_now, assign, try_parts, loop_result, Applied,
  applicable, copy_rest, quotes, progns, conds, setqs, tries, lambdas, macros, quasiquotes, tail,
  value, of_macro, of_closure, of_builtin,
}

module _ (host : Host) where
  -- `guardMacro`
  abbrev pub guard_macro : Value → M (Unit {0})
  guard_macro (sym name) = host.guard name []
  guard_macro _ = ret tt

  module _ (fuel : ℕ) (ev : Value → Env → M Value) where
    abbrev pub eval_item : Env → Value → M Value
    eval_item env (cell x rest) = ev (cell x rest) env
    eval_item env x = eval_now x env

    unfoldable pub prog_n : Env → Value → M Value
    prog_n env null = ret null
    prog_n env (cell x rest) = next_list (cell x rest) rest >>= λ more.
        if is_null more then ret x else (eval_item env x >>= λ _. prog_n env rest)
    prog_n env x = stop (failed x)

    -- a body of one form is that form
    abbrev pub body_form : Env → Value → M Value
    body_form env (cell x null) = ret x
    body_form env body = prog_n env body

    abbrev pub chosen : Env → Value → Value → M Value
    chosen env result null = ret (qq_quote result)
    chosen env result body = body_form env body

    unfoldable pub eval_cond : Env → Value → M Value
    eval_cond env (cell (cell test body) rest) = eval_item env test >>= λ result.
        if is_null result
        then (next_list (cell (cell test body) rest) rest >>= λ _. eval_cond env rest)
        else (next_list (cell test body) body >>= chosen env result)
    eval_cond env (cell null rest) = next_list (cell null rest) rest >>= λ _. eval_cond env rest
    eval_cond env (cell clause rest) = stop (failed clause)
    eval_cond env _ = ret null

    unfoldable pub eval_setq : Env → Value → Value → M Value
    eval_setq env result (cell lval (cell rval rest)) = eval_item env rval >>= λ x.
        assign lval x env >>= λ _. next_list (cell rval rest) rest >>= λ _. eval_setq env x rest
    eval_setq env result (cell lval rest) =
        next_list (cell lval rest) rest >>= λ _. stop (failed lval)
    eval_setq env result _ = ret result

    -- the handler is compiled as a closure, with the error's value in its first slot
    unfoldable pub run_handler : Env → TryParts → Value → M Next
    run_handler env t v = compile_func host ev fuel (cell t.params t.handler) >>= λ code.
        new_object (closure code env) >>= λ fn.
        frame_of host code.func fn (cell null null) >>= λ frame. new_frame (set frame 0 v) >>= λ a.
        prog_n (a ∷ env) code.body >>= λ x. ret (tail x (a ∷ env))

    abbrev pub on_failed : Env → TryParts → Stop → M Next
    on_failed env t (failed v) = run_handler env t v
    on_failed env t s = stop s

    unfoldable pub eval_try : Env → Value → M Next
    eval_try env form = try_parts form >>= λ t.
        handle (ev t.body env >>= λ x. ret (tail (qq_quote x) env)) (on_failed env t)

    abbrev pub macro_made : Value → Value → Env → M Next
    macro_made x form [] =
        compile_func host ev fuel form >>= λ code. new_object (macro code) >>= λ y. ret (value y)
    macro_made x form _ = stop (failed x)

    abbrev pub special : Special → Value → Value → Env → M Next
    special quotes x form env = single_or x (only_item form) >>= λ y. ret (value y)
    special progns x form env = body_form env form >>= λ y. ret (tail y env)
    special conds x form env = eval_cond env form >>= λ y. ret (tail y env)
    special setqs x form env = eval_setq env null form >>= λ y. ret (value y)
    special tries x form env = eval_try env form
    special lambdas x form env = compile_func host ev fuel form >>= λ code.
        new_object (closure code env) >>= λ y. ret (value y)
    special macros x form env = macro_made x form env
    special quasiquotes x form env =
        single_or x (only_item form) >>= λ y. or_crash (qq_expand y) >>= λ z. ret (tail z env)

    unfoldable pub eval_special : String → Special → Value → Value → Env → M Next
    eval_special name s x rest env =
        next_list x rest >>= λ form. host.guard name [] >>= λ _. special s x form env

    abbrev pub perform : Action → String → List Value → M Value
    perform plain name frame = host.call name frame
    perform applies name (f ∷ args ∷ _) =
        mapcar (λ x. ret (qq_quote x)) args >>= λ xs. ev (cell f xs) []
    perform runs_loop_body name (thunk ∷ _) =
        handle (ev (cell thunk null) [] >>= λ _. ret (cell null null)) loop_result
    perform _ name _ = stop crashed

    unfoldable pub call_builtin : String → Action → List Value → M Value
    call_builtin name action frame = host.guard name frame >>= λ _. perform action name frame

    -- the slots of the fixed arguments, and then the items of the rest argument
    unfoldable pub eval_slots : Env → ℕ → Bool → List Value → M (List Value)
    eval_slots env zero true (cell x rest ∷ xs) =
        copy_rest (cell x rest) >>= λ items. mapcar (eval_item env) items >>= λ ys. ret (ys ∷ xs)
    eval_slots env zero has_rest xs = ret xs
    eval_slots env (suc n) has_rest [] = ret []
    eval_slots env (suc n) has_rest (x ∷ xs) =
        eval_item env x >>= λ y. eval_slots env n has_rest xs >>= λ ys. ret (y ∷ ys)

    abbrev pub eval_frame : Func → Value → Value → Env → M (List Value)
    eval_frame func fn args env =
        frame_of host func fn args >>= λ frame. eval_slots env func.fixed func.has_rest frame

    abbrev pub apply_head : Applied → Value → Value → Value → Env → M Next
    apply_head (of_macro code) k fn args env =
        guard_macro k >>= λ _. expand_with host ev fn code args >>= λ z. ret (tail z env)
    apply_head (of_closure code captured) k fn args env =
        eval_frame code.func fn args env >>= λ frame. new_frame frame >>= λ a.
        body_form (a ∷ captured) code.body >>= λ x. ret (tail x (a ∷ captured))
    apply_head (of_builtin name func action) k fn args env =
        eval_frame func fn args env >>= λ frame.
        call_builtin name action frame >>= λ y. ret (value y)

    -- the head of an application, a symbol by the global it names
    abbrev pub eval_head : Value → Env → M Value
    eval_head (sym name) env = get_global name >>= global_or (sym name)
    eval_head k env = eval_item env k

    unfoldable pub eval_application : Value → Value → Env → M Next
    eval_application k rest env = next_list (cell k rest) rest >>= λ args.
        eval_head k env >>= λ fn. applicable fn >>= λ head. apply_head head k fn args env

    abbrev pub eval_named : String → Option Special → Value → Env → M Next
    eval_named name none rest env = eval_application (sym name) rest env
    eval_named name (some s) rest env = eval_special name s (cell (sym name) rest) rest env

    -- one turn of the evaluator's loop
    abbrev pub eval_step : Value → Value → Env → M Next
    eval_step (sym name) rest env = eval_named name (special_of name) rest env
    eval_step k rest env = eval_application k rest env

  abbrev pub go_on : (Value → Env → M Value) → Next → M Value
  go_on ev (tail x env) = ev x env
  go_on ev (value x) = ret x

  unfoldable pub eval_gen : ℕ → Value → Env → M Value
  eval_gen zero x env = out_of_fuel
  eval_gen (suc n) (cell k rest) env = eval_step n (eval_gen n) k rest env >>= go_on (eval_gen n)
  eval_gen (suc n) x env = eval_now x env
