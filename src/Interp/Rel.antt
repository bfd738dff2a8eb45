-- ===== src/Interp/Rel.antt =====
-- packages/interpreter/src/lisp.ts and compile.ts: what a relation between runs must be closed under, to
-- hold between the evaluators of two hosts, the second with as much fuel as the first or more. A `catch`
-- of the evaluator lets a hold pass.
pub mod Steps
pub mod Expand
pub mod Parts
pub mod Bodies
pub mod Forms
pub mod Unless
use lisptc.Prelude.{ℕ, String, List, ◌≡◌}
use lisptc.Value.{Value}
use lisptc.Interp.{
  Object, Stop, failed, held, M, Site, Host, ret, stop, out_of_fuel, handle, ◌>>=◌, get_global,
  set_global, find_object, new_object, new_frame, get_frame,
}
use lisptc.Interp.Parts.{write_slot}

pub record IsClosed (R : (A : Type 0) → M A → M A → Type 0) (host other : Host) : Type 1 where
  pub on_ret : {A : Type 0} (a : A) → R _ (ret a) (ret a)
  pub on_stop : {A : Type 0} (s : Stop) → R A (stop s) (stop s)
  pub on_fuel : {A : Type 0} (c : M A) → R _ out_of_fuel c
  pub on_bind :
      {A B : Type 0} {c d : M A} {f g : A → M B}
      → R _ c d
      → ((a : A) → R _ (f a) (g a))
      → R _ (c >>= f) (d >>= g)
  pub on_handle :
      {A : Type 0} {c d : M A} {f g : Stop → M A}
      → R _ c d
      → ((s : Stop) → R _ (f s) (g s))
      → f held ≡ stop held
      → R _ (handle c f) (handle d g)
  pub on_get_global : (name : String) → R _ (get_global name) (get_global name)
  pub on_set_global : (name : String) (x : Value) → R _ (set_global name x) (set_global name x)
  pub on_find_object : (n : ℕ) → R _ (find_object n) (find_object n)
  pub on_new_object : (o : Object) → R _ (new_object o) (new_object o)
  pub on_new_frame : (xs : List Value) → R _ (new_frame xs) (new_frame xs)
  pub on_get_frame : (n : ℕ) → R _ (get_frame n) (get_frame n)
  pub on_write_slot :
      (n offset : ℕ) (x : Value)
      → R _ (get_frame n >>= write_slot n offset x) (get_frame n >>= write_slot n offset x)
  pub on_error :
      {A : Type 0} (s : Site)
      → R A (stop (failed (host.error_value s))) (stop (failed (other.error_value s)))
  pub on_guard : (name : String) (xs : List Value) → R _ (host.guard name xs) (other.guard name xs)
  pub on_call :
      (name : String) (xs : List Value)
      → R _
          (host.guard name xs >>= λ _. host.call name xs)
          (other.guard name xs >>= λ _. other.call name xs)
