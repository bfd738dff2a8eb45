-- ===== src/Interp/Rel/Steps.antt =====
-- packages/interpreter/src/lisp.ts and compile.ts: what the compiler and the evaluator share, for two hosts
-- between which a relation holds.
use lisptc.Prelude.{Bool, if◌then◌else◌, true, false, Option, none, some, List}
use lisptc.Prelude.Result.{ok, err}
use lisptc.Value.{Value, null, cell}
use lisptc.Frames.{Func, Called, make_frame}
use lisptc.Interp.{failed, crashed, M, call_site, Host}
use lisptc.Interp.Expand.{next_list, mapcar, or_crash, single_or, framed, frame_of}
use lisptc.Interp.Rel.{IsClosed}

module _ {R : (A : Type 0) → M A → M A → Type 0} {host other : Host}
    (closed : IsClosed R host other) where
  pub if-Rel :
      {A : Type 0} {c d c' d' : M A}
      → (b : Bool) → R _ c c'
      → R _ d d'
      → R _ (if b then c else d) (if b then c' else d')
  if-Rel true p q = p
  if-Rel false p q = q

  pub next_list-Rel : (whole x : Value) → R _ (next_list whole x) (next_list whole x)
  next_list-Rel whole null = closed.on_ret null
  next_list-Rel whole (cell x rest) = closed.on_ret (cell x rest)
  next_list-Rel whole _ = closed.on_stop (failed whole)

  pub mapcar-Rel :
      {f g : Value → M Value}
      → ((x : Value) → R _ (f x) (g x))
      → (xs : Value) → R _ (mapcar f xs) (mapcar g xs)
  unfolding mapcar
  mapcar-Rel p (cell x rest) =
      closed.on_bind (p x)
        (λ y. closed.on_bind (mapcar-Rel p rest) (λ ys. closed.on_ret (cell y ys)))
  mapcar-Rel p v = closed.on_ret v

  pub or_crash-Rel : (o : Option Value) → R _ (or_crash o) (or_crash o)
  or_crash-Rel none = closed.on_stop crashed
  or_crash-Rel (some x) = closed.on_ret x

  pub single_or-Rel : (form : Value) (o : Option Value) → R _ (single_or form o) (single_or form o)
  single_or-Rel form none = closed.on_stop (failed form)
  single_or-Rel form (some x) = closed.on_ret x

  framed-Rel :
      (fn args : Value) (r : Called (List Value))
      → R _ (framed host fn args r) (framed other fn args r)
  framed-Rel fn args (ok xs) = closed.on_ret xs
  framed-Rel fn args (err e) = closed.on_error (call_site e fn args)

  pub frame_of-Rel :
      (func : Func) (fn args : Value)
      → R _ (frame_of host func fn args) (frame_of other func fn args)
  unfolding frame_of
  frame_of-Rel func fn args = framed-Rel fn args (make_frame func args)
