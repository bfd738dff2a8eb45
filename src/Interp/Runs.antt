-- ===== src/Interp/Runs.antt =====
-- packages/interpreter/src/lisp.ts: the evaluation of a form under a guard that refuses calls,
-- and under a guard that holds them.
use lisptc.Prelude.{ℕ, String, none, some, List, ◌≡◌, ◌∙◌, refl, sym, ◌⊎◌, inl, inr, arith}
use lisptc.Prelude.Result.{Result, ok, err}
use lisptc.Value.{Value}
use lisptc.Interp.{Env, Machine, Stop, held, Site, Host}
use lisptc.Interp.Forms.{eval_gen}
use lisptc.Interp.Rel.Unless.{
  Outcome, IsOut, no_fuel, IsCut, cut_off, on_hold, IsOut-IsFinal, IsCut-IsFinal, Agrees,
  eval_gen-Unless,
}

IsOut-none : {A : Type 0} {o : Outcome A} → IsOut A o → o ≡ none
IsOut-none no_fuel = refl

-- the same errors and hooks, and the same builtins where the hooks let a call pass
pub record SameAllowed (host other : Host) : Type 0 where
  pub errors : (s : Site) → host.error_value s ≡ other.error_value s
  pub guards :
      (name : String) (xs : List Value) (m : Machine) → host.guard name xs m ≡ other.guard name xs m
  pub calls :
      (name : String) (xs : List Value) (m next : Machine)
      → host.guard name xs m ≡ some (ok tt, next)
      → host.call name xs next ≡ other.call name xs next

SameAllowed-Agrees : {host other : Host} → SameAllowed host other → Agrees (λ A. IsOut A) host other
SameAllowed-Agrees same = record {
  errors = same.errors;
  guards = λ name xs m. inr (same.guards name xs m);
  calls = λ name xs m next e. inr (same.calls name xs m next e);
}

SameAllowed-sym : {host other : Host} → SameAllowed host other → SameAllowed other host
SameAllowed-sym same = record {
  errors = λ s. sym (same.errors s);
  guards = λ name xs m. sym (same.guards name xs m);
  calls = λ name xs m next e. sym (same.calls name xs m next (same.guards name xs m ∙ e));
}

-- Between two hosts with the same errors and the same hooks, whose builtins do the same on every call
-- that the hooks let pass, every evaluation is the same: what a builtin would do on a call that the
-- hooks refuse makes no difference.
pub eval_gen-refused :
    (host other : Host)
    → SameAllowed host other
    → (n : ℕ) (x : Value) (env : Env) (m : Machine)
    → eval_gen host n x env m ≡ eval_gen other n x env m
eval_gen-refused host other same n x env m =
    elim (eval_gen-Unless IsOut-IsFinal (SameAllowed-Agrees same) n n (omega arith) x env m) [
      | inl out ↦
          elim (eval_gen-Unless IsOut-IsFinal (SameAllowed-Agrees (SameAllowed-sym same)) n n
            (omega arith) x env m) [
              | inl out' ↦ IsOut-none out ∙ sym (IsOut-none out')
              | inr e ↦ sym e
            ]
      | inr e ↦ e
    ]

held-IsCut :
    {A : Type 0} {r : Result Stop A × Machine} {o : Outcome A}
    → o ≡ some r
    → IsCut A o
    → (m : Machine) × (r ≡ (err held, m))
held-IsCut e cut_off = absurd cc
held-IsCut e (on_hold m) = (m, cc)

-- Let two hosts agree on every call, except where a hook or a builtin of the first holds it or runs
-- out of fuel. Then an evaluation by the first that ends is held, or ends as by the second: no try,
-- and no loop, goes on after a hold.
pub eval_gen-held :
    (host other : Host)
    → Agrees (λ A. IsCut A) host other
    → (n : ℕ) (x : Value) (env : Env) (m : Machine) (r : Result Stop Value × Machine)
    → eval_gen host n x env m ≡ some r
    → ((next : Machine) × (r ≡ (err held, next))) ⊎ (eval_gen other n x env m ≡ some r)
eval_gen-held host other agrees n x env m r e =
    elim (eval_gen-Unless IsCut-IsFinal agrees n n (omega arith) x env m) [
      | inl cut ↦ inl (held-IsCut e cut)
      | inr e' ↦ inr (sym e' ∙ e)
    ]
