-- ===== src/Interp/Rel/Bodies.antt =====
-- packages/interpreter/src/lisp.ts: bodies, assignments and handlers, for two evaluators between which a relation
-- holds.
use lisptc.Prelude.{ℕ, ◌≤◌, ◌∷◌, set}
use lisptc.Value.{Value, null, truth, cell}
use lisptc.Quasiquote.{qq_quote, is_null}
use lisptc.Interp.{Env, closure, Stop, failed, looped, thrown, held, crashed, M, Host}
use lisptc.Interp.Parts.{tail, TryParts}
use lisptc.Interp.Forms.{
  eval_item, prog_n, body_form, chosen, eval_cond, eval_setq, run_handler, on_failed,
}
use lisptc.Interp.Rel.{IsClosed}
use lisptc.Interp.Rel.Steps.{if-Rel, next_list-Rel, frame_of-Rel}
use lisptc.Interp.Rel.Expand.{compile_func-Rel}
use lisptc.Interp.Rel.Parts.{eval_now-Rel, assign-Rel}

module _ {R : (A : Type 0) → M A → M A → Type 0} {host other : Host}
    (closed : IsClosed R host other) where
  module _ {n n' : ℕ} (le : n ≤ n') {ev ev' : Value → Env → M Value}
      (evs : (x : Value) (env : Env) → R _ (ev x env) (ev' x env)) where
    pub eval_item-Rel :
        (env : Env) (x : Value) → R _ (eval_item host n ev env x) (eval_item other n' ev' env x)
    eval_item-Rel env (cell x rest) = evs (cell x rest) env
    eval_item-Rel env v = eval_now-Rel closed v env

    pub prog_n-Rel :
        (env : Env) (x : Value) → R _ (prog_n host n ev env x) (prog_n other n' ev' env x)
    unfolding prog_n
    prog_n-Rel env null = closed.on_ret null
    prog_n-Rel env (cell x rest) = closed.on_bind (next_list-Rel closed (cell x rest) rest) (λ more.
        if-Rel closed (is_null more) (closed.on_ret x)
          (closed.on_bind (eval_item-Rel env x) (λ _. prog_n-Rel env rest)))
    prog_n-Rel env v = closed.on_stop (failed v)

    pub body_form-Rel :
        (env : Env) (x : Value) → R _ (body_form host n ev env x) (body_form other n' ev' env x)
    body_form-Rel env (cell y null) = closed.on_ret y
    body_form-Rel env v = prog_n-Rel env v

    pub chosen-Rel :
        (env : Env) (result x : Value)
        → R _ (chosen host n ev env result x) (chosen other n' ev' env result x)
    chosen-Rel env result null = closed.on_ret (qq_quote result)
    chosen-Rel env result v = body_form-Rel env v

    pub eval_cond-Rel :
        (env : Env) (x : Value) → R _ (eval_cond host n ev env x) (eval_cond other n' ev' env x)
    unfolding eval_cond
    eval_cond-Rel env (cell (cell test body) rest) =
        closed.on_bind (eval_item-Rel env test) (λ result.
          if-Rel closed (is_null result)
            (closed.on_bind (next_list-Rel closed (cell (cell test body) rest) rest)
              (λ _. eval_cond-Rel env rest))
            (closed.on_bind (next_list-Rel closed (cell test body) body) (chosen-Rel env result)))
    eval_cond-Rel env (cell null rest) =
        closed.on_bind (next_list-Rel closed (cell null rest) rest) (λ _. eval_cond-Rel env rest)
    eval_cond-Rel env (cell truth rest) = closed.on_stop (failed truth)
    eval_cond-Rel env (cell v rest) = closed.on_stop (failed v)
    eval_cond-Rel env _ = closed.on_ret null

    pub eval_setq-Rel :
        (env : Env) (result x : Value)
        → R _ (eval_setq host n ev env result x) (eval_setq other n' ev' env result x)
    unfolding eval_setq
    eval_setq-Rel env result (cell lval (cell rval rest)) =
        closed.on_bind (eval_item-Rel env rval) (λ x.
          closed.on_bind (assign-Rel closed lval x env) (λ _.
            closed.on_bind (next_list-Rel closed (cell rval rest) rest)
              (λ _. eval_setq-Rel env x rest)))
    eval_setq-Rel env result (cell lval null) =
        closed.on_bind (next_list-Rel closed (cell lval null) null)
          (λ _. closed.on_stop (failed lval))
    eval_setq-Rel env result (cell lval truth) =
        closed.on_bind (next_list-Rel closed (cell lval truth) truth)
          (λ _. closed.on_stop (failed lval))
    eval_setq-Rel env result (cell lval v) =
        closed.on_bind (next_list-Rel closed (cell lval v) v) (λ _. closed.on_stop (failed lval))
    eval_setq-Rel env result _ = closed.on_ret result

    pub run_handler-Rel :
        (env : Env) (t : TryParts) (v : Value)
        → R _ (run_handler host n ev env t v) (run_handler other n' ev' env t v)
    unfolding run_handler
    run_handler-Rel env t v =
        closed.on_bind (compile_func-Rel closed evs n n' le (cell t.params t.handler)) (λ code.
          closed.on_bind (closed.on_new_object (closure code env)) (λ fn.
            closed.on_bind (frame_of-Rel closed code.func fn (cell null null)) (λ frame.
              closed.on_bind (closed.on_new_frame (set frame 0 v)) (λ a.
                closed.on_bind (prog_n-Rel (a ∷ env) code.body)
                  (λ x. closed.on_ret (tail x (a ∷ env)))))))

    pub on_failed-Rel :
        (env : Env) (t : TryParts) (s : Stop)
        → R _ (on_failed host n ev env t s) (on_failed other n' ev' env t s)
    on_failed-Rel env t (failed v) = run_handler-Rel env t v
    on_failed-Rel env t (looped v) = closed.on_stop (looped v)
    on_failed-Rel env t (thrown a b c) = closed.on_stop (thrown a b c)
    on_failed-Rel env t held = closed.on_stop held
    on_failed-Rel env t crashed = closed.on_stop crashed
