-- ===== src/Interp/Rel/Unless.antt =====
-- packages/interpreter/src/lisp.ts: two evaluators that do the same, unless the run of the first is cut
-- short: it runs out of fuel, or a hook holds one of its calls.
use lisptc.Prelude.{
  ℕ, ◌≤◌, String, Option, none, some, List, ◌≡◌, ◌∙◌, refl, sym, ap, ◌⊎◌, inl, inr,
}
use mathlib.Core.Path.{subst}
use lisptc.Prelude.Result.{Result, ok, err}
use lisptc.Value.{Value}
use lisptc.Interp.{
  Env, Machine, Stop, failed, held, M, Site, Host, bound, handled, ret, stop, handle, ◌>>=◌,
  get_global, set_global, find_object, new_object, new_frame, get_frame,
}
use lisptc.Interp.Parts.{write_slot}
use lisptc.Interp.Forms.{eval_gen}
use lisptc.Interp.Rel.{IsClosed}
use lisptc.Interp.Rel.Forms.{eval_gen-Rel}

abbrev pub Outcome : Type 0 → Type 0
Outcome A = Option (Result Stop A × Machine)

-- the run is out of fuel
pub data IsOut (A : Type 0) : Outcome A → Type 0 where
  no_fuel : IsOut A none

-- the run is out of fuel or held
pub data IsCut (A : Type 0) : Outcome A → Type 0 where
  cut_off : IsCut A none
  on_hold : (m : Machine) → IsCut A (some (err held, m))

-- what the rest of a run does not undo
pub record IsFinal (P : (A : Type 0) → Outcome A → Type 0) : Type 1 where
  pub on_none : {A : Type 0} → P A none
  pub on_bound : {A B : Type 0} (f : A → M B) (o : Outcome A) → P A o → P B (bound f o)
  pub on_handled :
      {A : Type 0} (h : Stop → M A) (o : Outcome A) → h held ≡ stop held → P A o → P A (handled h o)

bound-IsOut : {A B : Type 0} (f : A → M B) (o : Outcome A) → IsOut A o → IsOut B (bound f o)
bound-IsOut f o no_fuel = no_fuel

handled-IsOut : {A : Type 0} (h : Stop → M A) (o : Outcome A) → IsOut A o → IsOut A (handled h o)
handled-IsOut h o no_fuel = no_fuel

pub IsOut-IsFinal : IsFinal (λ A. IsOut A)
IsOut-IsFinal = record {
  on_none = no_fuel;
  on_bound = bound-IsOut;
  on_handled = λ h o e p. handled-IsOut h o p;
}

bound-IsCut : {A B : Type 0} (f : A → M B) (o : Outcome A) → IsCut A o → IsCut B (bound f o)
bound-IsCut f o cut_off = cut_off
bound-IsCut f o (on_hold m) = on_hold m

handled-IsCut :
    {A : Type 0} (h : Stop → M A) (o : Outcome A)
    → h held ≡ stop held
    → IsCut A o
    → IsCut A (handled h o)
handled-IsCut h o e cut_off = cut_off
handled-IsCut {A = A} h o e (on_hold m) = subst (λ k. IsCut A (k m)) (sym e) (on_hold m)

pub IsCut-IsFinal : IsFinal (λ A. IsCut A)
IsCut-IsFinal = record { on_none = cut_off; on_bound = bound-IsCut; on_handled = handled-IsCut }

module _ (P : (A : Type 0) → Outcome A → Type 0) where
  abbrev pub Unless : (A : Type 0) → M A → M A → Type 0
  Unless A c d = (m : Machine) → P A (c m) ⊎ (c m ≡ d m)

  -- hosts with the same errors and hooks, and the same builtins as far as the hooks let a call pass
  pub record Agrees (host other : Host) : Type 0 where
    pub errors : (s : Site) → host.error_value s ≡ other.error_value s
    pub guards :
        (name : String) (xs : List Value)
        → Unless (Unit {0}) (host.guard name xs) (other.guard name xs)
    pub calls :
        (name : String) (xs : List Value) (m next : Machine)
        → host.guard name xs m ≡ some (ok tt, next)
        → P Value (host.call name xs next) ⊎ (host.call name xs next ≡ other.call name xs next)

module _ {P : (A : Type 0) → Outcome A → Type 0} (final : IsFinal P) where
  same : {A : Type 0} (c : M A) → Unless P A c c
  same c m = inr refl

  after : {A : Type 0} {o o' o'' : Outcome A} → P A o ⊎ (o ≡ o') → o' ≡ o'' → P A o ⊎ (o ≡ o'')
  after (inl h) e = inl h
  after (inr e') e = inr (e' ∙ e)

  bound-Unless :
      {A B : Type 0} (f g : A → M B) (o : Outcome A)
      → ((a : A) (m : Machine) → o ≡ some (ok a, m) → P B (f a m) ⊎ (f a m ≡ g a m))
      → P B (bound f o) ⊎ (bound f o ≡ bound g o)
  bound-Unless f g none q = inr refl
  bound-Unless f g (some (ok a, m)) q = q a m refl
  bound-Unless f g (some (err s, m)) q = inr refl

  bind-Unless :
      {A B : Type 0} {c d : M A} {f g : A → M B}
      → Unless P A c d
      → ((a : A) (m next : Machine)
          → c m ≡ some (ok a, next)
          → P B (f a next) ⊎ (f a next ≡ g a next))
      → Unless P B (c >>= f) (d >>= g)
  unfolding ◌>>=◌
  bind-Unless {c = c} {f = f} {g = g} p q m = elim (p m) [
    | inl h ↦ inl (final.on_bound f (c m) h)
    | inr e ↦ after (bound-Unless f g (c m) (λ a next. q a m next)) (ap (bound g) e)
  ]

  handled-Unless :
      {A : Type 0} (f g : Stop → M A) (o : Outcome A)
      → ((s : Stop) → Unless P A (f s) (g s))
      → P A (handled f o) ⊎ (handled f o ≡ handled g o)
  handled-Unless f g none q = inr refl
  handled-Unless f g (some (ok a, m)) q = inr refl
  handled-Unless f g (some (err s, m)) q = q s m

  handle-Unless :
      {A : Type 0} {c d : M A} {f g : Stop → M A}
      → Unless P A c d
      → ((s : Stop) → Unless P A (f s) (g s))
      → f held ≡ stop held
      → Unless P A (handle c f) (handle d g)
  unfolding handle
  handle-Unless {c = c} {f = f} {g = g} p q e m = elim (p m) [
    | inl h ↦ inl (final.on_handled f (c m) e h)
    | inr e' ↦ after (handled-Unless f g (c m) q) (ap (handled g) e')
  ]

  Agrees-IsClosed : {host other : Host} → Agrees P host other → IsClosed (Unless P) host other
  Agrees-IsClosed agrees = record {
    on_ret = λ a. same (ret a);
    on_stop = λ s. same (stop s);
    on_fuel = λ c m. inl final.on_none;
    on_bind = λ p q. bind-Unless p (λ a m next _. q a next);
    on_handle = handle-Unless;
    on_get_global = λ name. same (get_global name);
    on_set_global = λ name x. same (set_global name x);
    on_find_object = λ n. same (find_object n);
    on_new_object = λ o. same (new_object o);
    on_new_frame = λ xs. same (new_frame xs);
    on_get_frame = λ n. same (get_frame n);
    on_write_slot = λ n offset x. same (get_frame n >>= write_slot n offset x);
    on_error = λ s m. inr (ap (λ v. stop (failed v) m) (agrees.errors s));
    on_guard = agrees.guards;
    on_call = λ name xs.
        bind-Unless (agrees.guards name xs) (λ a m next e. agrees.calls name xs m next e);
  }

  pub eval_gen-Unless :
      {host other : Host}
      → Agrees P host other
      → (n more : ℕ) → n ≤ more
      → (x : Value) (env : Env) → Unless P Value (eval_gen host n x env) (eval_gen other more x env)
  eval_gen-Unless agrees = eval_gen-Rel (Agrees-IsClosed agrees)
