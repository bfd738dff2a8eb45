-- ===== src/Interp/Rel/Parts.antt =====
-- packages/interpreter/src/lisp.ts: the steps that do not call the evaluator, for two hosts between which a relation holds.
use lisptc.Prelude.{ℕ, String, Option, none, some, List, get_elem?}
use lisptc.Value.{Value, null, truth, sym, cell, arg, object}
use lisptc.Compile.{is_sym}
use lisptc.Interp.{
  Env, Object, lambda, macro, closure, builtin, Stop, failed, looped, thrown, held, crashed, M,
  Host,
}
use lisptc.Interp.Expand.{only_item}
use lisptc.Interp.Parts.{
  Special, special_of, read_slot, read_frame, read_arg, write_frame, write_arg, global_or,
  closed_object, eval_now, assign_global, assign, try_params, try_handler, try_clause, try_parts,
  loop_result, of_macro, of_closure, of_builtin, head_object, applicable, copy_rest,
}
use lisptc.Interp.Rel.{IsClosed}
use lisptc.Interp.Rel.Steps.{if-Rel, next_list-Rel, or_crash-Rel, single_or-Rel}

module _ {R : (A : Type 0) → M A → M A → Type 0} {host other : Host}
    (closed : IsClosed R host other) where
  pub read_slot-Rel :
      (offset : ℕ) (o : Option (List Value)) → R _ (read_slot offset o) (read_slot offset o)
  read_slot-Rel offset none = closed.on_stop crashed
  read_slot-Rel offset (some xs) = or_crash-Rel closed (get_elem? xs offset)

  pub read_frame-Rel : (offset : ℕ) (o : Option ℕ) → R _ (read_frame offset o) (read_frame offset o)
  read_frame-Rel offset none = closed.on_stop crashed
  read_frame-Rel offset (some a) = closed.on_bind (closed.on_get_frame a) (read_slot-Rel offset)

  pub write_frame-Rel :
      (offset : ℕ) (x : Value) (o : Option ℕ)
      → R _ (write_frame offset x o) (write_frame offset x o)
  write_frame-Rel offset x none = closed.on_stop crashed
  write_frame-Rel offset x (some a) = closed.on_write_slot a offset x

  pub global_or-Rel : (x : Value) (o : Option Value) → R _ (global_or x o) (global_or x o)
  global_or-Rel x none = closed.on_stop (failed x)
  global_or-Rel x (some y) = closed.on_ret y

  pub closed_object-Rel :
      (x : Value) (env : Env) (o : Option Object)
      → R _ (closed_object x env o) (closed_object x env o)
  closed_object-Rel x env (some (lambda code)) = closed.on_new_object (closure code env)
  closed_object-Rel x env (some (macro code)) = closed.on_ret x
  closed_object-Rel x env (some (closure code e)) = closed.on_ret x
  closed_object-Rel x env (some (builtin name func action)) = closed.on_ret x
  closed_object-Rel x env none = closed.on_ret x

  pub eval_now-Rel : (x : Value) (env : Env) → R _ (eval_now x env) (eval_now x env)
  unfolding eval_now read_arg
  eval_now-Rel (arg level offset name) env = read_frame-Rel offset (get_elem? env level)
  eval_now-Rel (sym name) env =
      closed.on_bind (closed.on_get_global name) (global_or-Rel (sym name))
  eval_now-Rel (object n) env =
      closed.on_bind (closed.on_find_object n) (closed_object-Rel (object n) env)
  eval_now-Rel v env = closed.on_ret v

  pub assign_global-Rel :
      (name : String) (x : Value) (s : Option Special)
      → R _ (assign_global name x s) (assign_global name x s)
  assign_global-Rel name x none = closed.on_set_global name x
  assign_global-Rel name x (some s) = closed.on_stop (failed (sym name))

  pub assign-Rel : (lval x : Value) (env : Env) → R _ (assign lval x env) (assign lval x env)
  unfolding write_arg
  assign-Rel (arg level offset name) x env = write_frame-Rel offset x (get_elem? env level)
  assign-Rel (sym name) x env = assign_global-Rel name x (special_of name)
  assign-Rel v y env = closed.on_stop (failed v)

  pub try_params-Rel : (params x : Value) → R _ (try_params params x) (try_params params x)
  try_params-Rel params (cell y null) = closed.on_ret (cell y null)
  try_params-Rel params _ = closed.on_stop (failed params)

  pub try_handler-Rel :
      (body clause x : Value) → R _ (try_handler body clause x) (try_handler body clause x)
  try_handler-Rel body clause (cell params handlers) =
      closed.on_bind (try_params-Rel params params) (λ ps.
        closed.on_bind (next_list-Rel closed (cell params handlers) handlers)
          (λ hs. closed.on_ret _))
  try_handler-Rel body clause _ = closed.on_stop (failed clause)

  pub try_clause-Rel : (body clause : Value) → R _ (try_clause body clause) (try_clause body clause)
  try_clause-Rel body (cell k rest) =
      if-Rel closed (is_sym "catch" k)
        (closed.on_bind (next_list-Rel closed (cell k rest) rest)
          (λ parts. try_handler-Rel body (cell k rest) parts))
        (closed.on_stop (failed (cell k rest)))
  try_clause-Rel body v = closed.on_stop (failed v)

  pub try_parts-Rel : (x : Value) → R _ (try_parts x) (try_parts x)
  unfolding try_parts
  try_parts-Rel (cell body rest) =
      closed.on_bind (next_list-Rel closed (cell body rest) rest) (λ clauses.
        closed.on_bind (single_or-Rel closed (cell body rest) (only_item clauses))
          (λ clause. try_clause-Rel body clause))
  try_parts-Rel v = closed.on_stop (failed v)

  pub loop_result-Rel : (s : Stop) → R _ (loop_result s) (loop_result s)
  loop_result-Rel (looped v) = closed.on_ret (cell truth v)
  loop_result-Rel (failed v) = closed.on_stop (failed v)
  loop_result-Rel (thrown a b c) = closed.on_stop (thrown a b c)
  loop_result-Rel held = closed.on_stop held
  loop_result-Rel crashed = closed.on_stop crashed

  pub head_object-Rel : (fn : Value) (o : Option Object) → R _ (head_object fn o) (head_object fn o)
  head_object-Rel fn (some (macro code)) = closed.on_ret (of_macro code)
  head_object-Rel fn (some (closure code env)) = closed.on_ret (of_closure code env)
  head_object-Rel fn (some (builtin name func action)) = closed.on_ret (of_builtin name func action)
  head_object-Rel fn (some (lambda code)) = closed.on_stop (failed fn)
  head_object-Rel fn none = closed.on_stop (failed fn)

  pub applicable-Rel : (fn : Value) → R _ (applicable fn) (applicable fn)
  unfolding applicable
  applicable-Rel (object n) = closed.on_bind (closed.on_find_object n) (head_object-Rel (object n))
  applicable-Rel v = closed.on_stop (failed v)

  pub copy_rest-Rel : (x : Value) → R _ (copy_rest x) (copy_rest x)
  unfolding copy_rest
  copy_rest-Rel (cell x rest) =
      closed.on_bind (next_list-Rel closed (cell x rest) rest)
        (λ _. closed.on_bind (copy_rest-Rel rest) (λ ys. closed.on_ret (cell x ys)))
  copy_rest-Rel v = closed.on_ret v
