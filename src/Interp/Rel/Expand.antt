-- ===== src/Interp/Rel/Expand.antt =====
-- packages/interpreter/src/compile.ts: the compiler of two evaluators, between which a relation holds.
use lisptc.Prelude.{ℕ, zero, suc, ◌≤◌, Option, none, some, [], ◌∷◌, ◌||◌, arith}
use lisptc.Prelude.Result.{Result, ok, err}
use lisptc.Value.{Value, null, sym, cell, object}
use lisptc.Quasiquote.{qq_expand}
use lisptc.Compile.{CompileError, ArgTable, make_arg_table, scan_for_args, is_sym}
use lisptc.Interp.{Env, Code, lambda, failed, M, list_site, Host}
use lisptc.Interp.Expand.{
  only_item, macro_in, macro_object, macro_global, macro_of, try_parts_of, head_is, tail_of, tabled,
  run_forms, expand_with, expand_try, expand_found, expand_macros, compile_func, compile_inners,
}
use lisptc.Interp.Rel.{IsClosed}
use lisptc.Interp.Rel.Steps.{
  if-Rel, next_list-Rel, mapcar-Rel, or_crash-Rel, single_or-Rel, frame_of-Rel,
}

module _ {R : (A : Type 0) → M A → M A → Type 0} {host other : Host}
    (closed : IsClosed R host other) where
  tabled-Rel :
      (params : Value) (r : Result CompileError ArgTable)
      → R _ (tabled host params r) (tabled other params r)
  tabled-Rel params (ok t) = closed.on_ret t
  tabled-Rel params (err e) = closed.on_error (list_site e params)

  macro_object-Rel : (x : Value) → R _ (macro_object x) (macro_object x)
  unfolding macro_object
  macro_object-Rel (object n) =
      closed.on_bind (closed.on_find_object n) (λ found. closed.on_ret (macro_in (object n) found))
  macro_object-Rel _ = closed.on_ret none

  macro_global-Rel : (o : Option Value) → R _ (macro_global o) (macro_global o)
  macro_global-Rel none = closed.on_ret none
  macro_global-Rel (some x) = macro_object-Rel x

  macro_of-Rel : (x : Value) → R _ (macro_of x) (macro_of x)
  unfolding macro_of
  macro_of-Rel (sym name) = closed.on_bind (closed.on_get_global name) macro_global-Rel
  macro_of-Rel v = macro_object-Rel v

  try_parts_of-Rel :
      (whole form x clause : Value)
      → R _ (try_parts_of whole form x clause) (try_parts_of whole form x clause)
  try_parts_of-Rel whole form (cell params handlers) clause =
      closed.on_bind (next_list-Rel closed (cell params handlers) handlers) (λ hs. closed.on_ret _)
  try_parts_of-Rel whole form _ clause = closed.on_stop (failed whole)

  module _ {ev ev' : Value → Env → M Value}
      (evs : (x : Value) (env : Env) → R _ (ev x env) (ev' x env)) where
    run_forms-Rel :
        (forms : Value) (env : Env) (x : Value)
        → R _ (run_forms host ev forms env x) (run_forms other ev' forms env x)
    unfolding run_forms
    run_forms-Rel (cell form rest) env x = closed.on_bind (evs form env) (λ y.
        closed.on_bind (next_list-Rel closed (cell form rest) rest) (λ _. run_forms-Rel rest env y))
    run_forms-Rel _ env y = closed.on_ret y

    pub expand_with-Rel :
        (fn : Value) (code : Code) (args : Value)
        → R _ (expand_with host ev fn code args) (expand_with other ev' fn code args)
    unfolding expand_with
    expand_with-Rel fn code args = closed.on_bind (frame_of-Rel closed code.func fn args) (λ frame.
        closed.on_bind (closed.on_new_frame frame) (λ a. run_forms-Rel code.body (a ∷ []) null))

    expand_try-Rel :
        {f g : Value → M Value}
        → ((x : Value) → R _ (f x) (g x))
        → (whole form : Value)
        → R _ (expand_try host ev f whole form) (expand_try other ev' g whole form)
    unfolding expand_try
    expand_try-Rel p whole (cell form rest) =
        closed.on_bind (next_list-Rel closed (cell form rest) rest) (λ clauses.
          closed.on_bind (single_or-Rel closed whole (only_item clauses)) (λ clause.
            if-Rel closed (head_is "catch" clause)
              (closed.on_bind (p form) (λ body.
                closed.on_bind (next_list-Rel closed clause (tail_of clause)) (λ parts.
                  closed.on_bind (try_parts_of-Rel whole body parts clause) (λ t.
                    closed.on_bind (mapcar-Rel closed p t.handlers)
                      (λ handlers. closed.on_ret _)))))
              (closed.on_stop (failed whole))))
    expand_try-Rel p whole _ = closed.on_stop (failed whole)

    expand_found-Rel :
        {f g again again' : Value → M Value}
        → ((x : Value) → R _ (f x) (g x))
        → ((x : Value) → R _ (again x) (again' x))
        → (form rest : Value) (found : Option (Value × Code))
        → R _
            (expand_found host ev f again form rest found)
            (expand_found other ev' g again' form rest found)
    expand_found-Rel p q form rest none = mapcar-Rel closed p form
    expand_found-Rel p q form rest (some (fn, code)) =
        closed.on_bind (next_list-Rel closed form rest)
          (λ d. closed.on_bind (expand_with-Rel fn code d) q)

    expand_macros-Rel :
        (n n' : ℕ)
        → n ≤ n'
        → (j : Value) (count : ℕ)
        → R _ (expand_macros host ev n j count) (expand_macros other ev' n' j count)
    unfolding expand_macros
    expand_macros-Rel zero n' le j count = closed.on_fuel _
    expand_macros-Rel (suc n) zero le j count = absurd (omega arith)
    expand_macros-Rel (suc n) (suc n') le (cell k rest) (suc count) =
        if-Rel closed (is_sym "quote" k || is_sym "lambda" k || is_sym "macro" k) (closed.on_ret _)
          (if-Rel closed (is_sym "quasiquote" k)
            (closed.on_bind (next_list-Rel closed (cell k rest) rest) (λ d.
              closed.on_bind (single_or-Rel closed (cell k rest) (only_item d)) (λ x.
                closed.on_bind (or_crash-Rel closed (qq_expand x))
                  (λ z. expand_macros-Rel n n' (omega arith) z (suc count)))))
            (if-Rel closed (is_sym "try" k)
              (closed.on_bind (next_list-Rel closed (cell k rest) rest) (λ d.
                expand_try-Rel (λ x. expand_macros-Rel n n' (omega arith) x (suc count))
                  (cell k rest) d))
              (closed.on_bind (macro_of-Rel k) (
                expand_found-Rel (λ x. expand_macros-Rel n n' (omega arith) x (suc count))
                  (λ z. expand_macros-Rel n n' (omega arith) z count) (cell k rest) rest))))
    expand_macros-Rel (suc n) (suc n') le (cell k rest) zero = closed.on_ret (cell k rest)
    expand_macros-Rel (suc n) (suc n') le v count = closed.on_ret v

    mutual
      unfolding compile_func

      pub compile_func-Rel :
          (n n' : ℕ)
          → n ≤ n'
          → (form : Value) → R _ (compile_func host ev n form) (compile_func other ev' n' form)
      compile_func-Rel zero n' le form = closed.on_fuel _
      compile_func-Rel (suc n) zero le form = absurd (omega arith)
      compile_func-Rel (suc n) (suc n') le (cell params rest) =
          closed.on_bind (tabled-Rel params (make_arg_table params)) (λ t.
            closed.on_bind (next_list-Rel closed (cell params rest) rest) (λ body.
              closed.on_bind (expand_macros-Rel n n' (omega arith) (scan_for_args body t.table) 20)
                (λ expanded.
                  closed.on_bind (compile_inners-Rel n n' (omega arith) expanded)
                    (λ compiled. closed.on_ret _))))
      compile_func-Rel (suc n) (suc n') le v = closed.on_stop (failed v)

      compile_inners-Rel :
          (n n' : ℕ)
          → n ≤ n'
          → (j : Value) → R _ (compile_inners host ev n j) (compile_inners other ev' n' j)
      compile_inners-Rel zero n' le j = closed.on_fuel _
      compile_inners-Rel (suc n) zero le j = absurd (omega arith)
      compile_inners-Rel (suc n) (suc n') le (cell k rest) =
          if-Rel closed (is_sym "quote" k) (closed.on_ret _) (
            if-Rel closed (is_sym "lambda" k)
              (closed.on_bind (next_list-Rel closed (cell k rest) rest) (λ d.
                closed.on_bind (compile_func-Rel n n' (omega arith) d)
                  (λ code. closed.on_new_object (lambda code))))
              (if-Rel closed (is_sym "macro" k) (closed.on_stop (failed (cell k rest)))
                (mapcar-Rel closed (compile_inners-Rel n n' (omega arith)) (cell k rest))))
      compile_inners-Rel (suc n) (suc n') le v = closed.on_ret v
