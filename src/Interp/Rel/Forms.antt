-- ===== src/Interp/Rel/Forms.antt =====
-- packages/interpreter/src/lisp.ts: the evaluators of two hosts, between which a relation holds.
use lisptc.Prelude.{
  ℕ, zero, suc, ◌≤◌, String, Bool, true, false, Option, none, some, List, [], ◌∷◌, arith, refl,
}
use lisptc.Value.{Value, null, sym, cell}
use lisptc.Quasiquote.{qq_quote, qq_expand}
use lisptc.Frames.{Func}
use lisptc.Interp.{
  Env, Action, plain, applies, runs_loop_body, macro, closure, failed, crashed, M, Host,
}
use lisptc.Interp.Expand.{only_item}
use lisptc.Interp.Parts.{
  Special, quotes, progns, conds, setqs, tries, lambdas, macros, quasiquotes, special_of, Next,
  tail, value, Applied, of_macro, of_closure, of_builtin,
}
use lisptc.Interp.Forms.{
  guard_macro, eval_try, macro_made, special, eval_special, call_builtin, eval_slots, eval_frame,
  apply_head, eval_head, eval_application, eval_named, eval_step, go_on, eval_gen,
}
use lisptc.Interp.Rel.{IsClosed}
use lisptc.Interp.Rel.Steps.{next_list-Rel, mapcar-Rel, or_crash-Rel, single_or-Rel, frame_of-Rel}
use lisptc.Interp.Rel.Expand.{expand_with-Rel, compile_func-Rel}
use lisptc.Interp.Rel.Parts.{
  global_or-Rel, eval_now-Rel, try_parts-Rel, loop_result-Rel, applicable-Rel, copy_rest-Rel,
}
use lisptc.Interp.Rel.Bodies.{
  eval_item-Rel, body_form-Rel, eval_cond-Rel, eval_setq-Rel, on_failed-Rel,
}

module _ {R : (A : Type 0) → M A → M A → Type 0} {host other : Host}
    (closed : IsClosed R host other) where
  guard_macro-Rel : (k : Value) → R _ (guard_macro host k) (guard_macro other k)
  guard_macro-Rel (sym name) = closed.on_guard name []
  guard_macro-Rel _ = closed.on_ret tt

  module _ {n n' : ℕ} (le : n ≤ n') {ev ev' : Value → Env → M Value}
      (evs : (x : Value) (env : Env) → R _ (ev x env) (ev' x env)) where
    eval_try-Rel :
        (env : Env) (x : Value) → R _ (eval_try host n ev env x) (eval_try other n' ev' env x)
    unfolding eval_try
    eval_try-Rel env form = closed.on_bind (try_parts-Rel closed form) (λ t.
        closed.on_handle
          (closed.on_bind (evs t.body env) (λ x. closed.on_ret (tail (qq_quote x) env)))
          (on_failed-Rel closed le evs env t) refl)

    macro_made-Rel :
        (x form : Value) (env : Env)
        → R _ (macro_made host n ev x form env) (macro_made other n' ev' x form env)
    macro_made-Rel x form [] =
        closed.on_bind (compile_func-Rel closed evs n n' le form) (λ code.
          closed.on_bind (closed.on_new_object (macro code)) (λ y. closed.on_ret (value y)))
    macro_made-Rel x form (a ∷ env) = closed.on_stop (failed x)

    special-Rel :
        (s : Special) (x form : Value) (env : Env)
        → R _ (special host n ev s x form env) (special other n' ev' s x form env)
    special-Rel quotes x form env =
        closed.on_bind (single_or-Rel closed x (only_item form)) (λ y. closed.on_ret (value y))
    special-Rel progns x form env =
        closed.on_bind (body_form-Rel closed le evs env form) (λ y. closed.on_ret (tail y env))
    special-Rel conds x form env =
        closed.on_bind (eval_cond-Rel closed le evs env form) (λ y. closed.on_ret (tail y env))
    special-Rel setqs x form env =
        closed.on_bind (eval_setq-Rel closed le evs env null form) (λ y. closed.on_ret (value y))
    special-Rel tries x form env = eval_try-Rel env form
    special-Rel lambdas x form env =
        closed.on_bind (compile_func-Rel closed evs n n' le form) (λ code.
          closed.on_bind (closed.on_new_object (closure code env)) (λ y. closed.on_ret (value y)))
    special-Rel macros x form env = macro_made-Rel x form env
    special-Rel quasiquotes x form env =
        closed.on_bind (single_or-Rel closed x (only_item form)) (λ y.
          closed.on_bind (or_crash-Rel closed (qq_expand y)) (λ z. closed.on_ret (tail z env)))

    eval_special-Rel :
        (name : String) (s : Special) (x rest : Value) (env : Env)
        → R _
            (eval_special host n ev name s x rest env)
            (eval_special other n' ev' name s x rest env)
    unfolding eval_special
    eval_special-Rel name s x rest env =
        closed.on_bind (next_list-Rel closed x rest)
          (λ form. closed.on_bind (closed.on_guard name []) (λ _. special-Rel s x form env))

    -- what a call does once it is allowed; a plain builtin is taken with its guard
    call_builtin-Rel :
        (name : String) (action : Action) (frame : List Value)
        → R _
            (call_builtin host n ev name action frame)
            (call_builtin other n' ev' name action frame)
    unfolding call_builtin
    call_builtin-Rel name plain frame = closed.on_call name frame
    call_builtin-Rel name applies [] =
        closed.on_bind (closed.on_guard name []) (λ _. closed.on_stop crashed)
    call_builtin-Rel name applies (f ∷ []) =
        closed.on_bind (closed.on_guard name (f ∷ [])) (λ _. closed.on_stop crashed)
    call_builtin-Rel name applies (f ∷ args ∷ xs) =
        closed.on_bind (closed.on_guard name (f ∷ args ∷ xs)) (λ _.
          closed.on_bind (mapcar-Rel closed (λ x. closed.on_ret (qq_quote x)) args)
            (λ ys. evs (cell f ys) []))
    call_builtin-Rel name runs_loop_body [] =
        closed.on_bind (closed.on_guard name []) (λ _. closed.on_stop crashed)
    call_builtin-Rel name runs_loop_body (thunk ∷ xs) =
        closed.on_bind (closed.on_guard name (thunk ∷ xs)) (λ _.
          closed.on_handle
            (closed.on_bind (evs (cell thunk null) []) (λ _. closed.on_ret (cell null null)))
            (loop_result-Rel closed) refl)

    eval_slots-Rel :
        (env : Env) (k : ℕ) (has_rest : Bool) (xs : List Value)
        → R _ (eval_slots host n ev env k has_rest xs) (eval_slots other n' ev' env k has_rest xs)
    unfolding eval_slots
    eval_slots-Rel env zero true (cell x rest ∷ xs) =
        closed.on_bind (copy_rest-Rel closed (cell x rest)) (λ items.
          closed.on_bind (mapcar-Rel closed (eval_item-Rel closed le evs env) items)
            (λ ys. closed.on_ret (ys ∷ xs)))
    eval_slots-Rel env zero true [] = closed.on_ret []
    eval_slots-Rel env zero false xs = closed.on_ret xs
    eval_slots-Rel env (suc k) has_rest [] = closed.on_ret []
    eval_slots-Rel env (suc k) has_rest (x ∷ xs) =
        closed.on_bind (eval_item-Rel closed le evs env x)
          (λ y. closed.on_bind (eval_slots-Rel env k has_rest xs) (λ ys. closed.on_ret (y ∷ ys)))
    eval_slots-Rel env zero true (v ∷ xs) = closed.on_ret (v ∷ xs)

    eval_frame-Rel :
        (func : Func) (fn args : Value) (env : Env)
        → R _ (eval_frame host n ev func fn args env) (eval_frame other n' ev' func fn args env)
    eval_frame-Rel func fn args env =
        closed.on_bind (frame_of-Rel closed func fn args)
          (λ frame. eval_slots-Rel env func.fixed func.has_rest frame)

    apply_head-Rel :
        (head : Applied) (k fn args : Value) (env : Env)
        → R _ (apply_head host n ev head k fn args env) (apply_head other n' ev' head k fn args env)
    apply_head-Rel (of_macro code) k fn args env = closed.on_bind (guard_macro-Rel k) (λ _.
        closed.on_bind (expand_with-Rel closed evs fn code args) (λ z. closed.on_ret (tail z env)))
    apply_head-Rel (of_closure code captured) k fn args env =
        closed.on_bind (eval_frame-Rel code.func fn args env) (λ frame.
          closed.on_bind (closed.on_new_frame frame) (λ a.
            closed.on_bind (body_form-Rel closed le evs (a ∷ captured) code.body)
              (λ x. closed.on_ret (tail x (a ∷ captured)))))
    apply_head-Rel (of_builtin name func action) k fn args env =
        closed.on_bind (eval_frame-Rel func fn args env) (λ frame.
          closed.on_bind (call_builtin-Rel name action frame) (λ y. closed.on_ret (value y)))

    eval_head-Rel :
        (k : Value) (env : Env) → R _ (eval_head host n ev k env) (eval_head other n' ev' k env)
    eval_head-Rel (sym name) env =
        closed.on_bind (closed.on_get_global name) (global_or-Rel closed (sym name))
    eval_head-Rel v env = eval_item-Rel closed le evs env v

    eval_application-Rel :
        (k rest : Value) (env : Env)
        → R _ (eval_application host n ev k rest env) (eval_application other n' ev' k rest env)
    unfolding eval_application
    eval_application-Rel k rest env =
        closed.on_bind (next_list-Rel closed (cell k rest) rest) (λ args.
          closed.on_bind (eval_head-Rel k env) (λ fn.
            closed.on_bind (applicable-Rel closed fn) (λ head. apply_head-Rel head k fn args env)))

    eval_named-Rel :
        (name : String) (s : Option Special) (rest : Value) (env : Env)
        → R _ (eval_named host n ev name s rest env) (eval_named other n' ev' name s rest env)
    eval_named-Rel name none rest env = eval_application-Rel (sym name) rest env
    eval_named-Rel name (some s) rest env = eval_special-Rel name s (cell (sym name) rest) rest env

    pub eval_step-Rel :
        (k rest : Value) (env : Env)
        → R _ (eval_step host n ev k rest env) (eval_step other n' ev' k rest env)
    eval_step-Rel (sym name) rest env = eval_named-Rel name (special_of name) rest env
    eval_step-Rel v rest env = eval_application-Rel v rest env

    go_on-Rel : (next : Next) → R _ (go_on host ev next) (go_on other ev' next)
    go_on-Rel (tail x env) = evs x env
    go_on-Rel (value x) = closed.on_ret x

  pub eval_gen-Rel :
      (n n' : ℕ)
      → n ≤ n'
      → (x : Value) (env : Env) → R _ (eval_gen host n x env) (eval_gen other n' x env)
  unfolding eval_gen
  eval_gen-Rel zero n' le x env = closed.on_fuel _
  eval_gen-Rel (suc n) zero le x env = absurd (omega arith)
  eval_gen-Rel (suc n) (suc n') le (cell k rest) env =
      let less : n ≤ n' = omega arith in
      closed.on_bind (eval_step-Rel less (eval_gen-Rel n n' less) k rest env)
        (go_on-Rel less (eval_gen-Rel n n' less))
  eval_gen-Rel (suc n) (suc n') le v env = eval_now-Rel closed v env
