-- ===== src/Interp/Arguments.antt =====
-- packages/interpreter/src/lisp.ts: the frame of a call, from the evaluation of its arguments.
use lisptc.Prelude.{
  ℕ, zero, suc, ◌≤◌, ◌≡◌, refl, ap, ◌∙◌, Bool, true, false, some, List, [], ◌∷◌, ◌++◌, length,
  get_elem?, arith,
}
use lisptc.Prelude.Result.{ok, err, OnOk}
use lisptc.Value.{Value, cell}
use lisptc.Frames.{Func, Called, make_frame, has_keys}
use lisptc.Frames.Lengths.{slots, HasLength, make_frame-HasLength}
use lisptc.Interp.{Env, Machine, failed, M, Host, ◌>>=◌, new_frame, call_site}
use lisptc.Interp.Expand.{framed, frame_of, mapcar}
use lisptc.Interp.Parts.{copy_rest}
use lisptc.Interp.Forms.{eval_item, eval_slots, eval_frame, body_form, eval_gen}
use lisptc.Interp.Slots.{HasFrame}
use lisptc.Interp.Rel.Steps.{mapcar-Rel}
use lisptc.Interp.Rel.Parts.{copy_rest-Rel}
use lisptc.Interp.Rel.Bodies.{eval_item-Rel, body_form-Rel}
use lisptc.Interp.Rel.Forms.{eval_gen-Rel}
use lisptc.Interp.Kept.{IsLater-refl, Keeps}
use lisptc.Interp.Later.{IsKeeping, IsKeeping-IsClosed, new_frame-Keeps}
use lisptc.Interp.Gives.{Gives, stopped, gives, any, weaken, bound-Gives, given}

get_elem?-last : {A : Type 0} (xs : List A) (x : A) → get_elem? (xs ++ x ∷ []) (length xs) ≡ some x
get_elem?-last [] x = refl
get_elem?-last (y ∷ xs) x = get_elem?-last xs x

pub new_frame-Gives :
    (xs : List Value) (m : Machine)
    → Gives m (λ a next. HasFrame a (length xs) next) (new_frame xs m)
unfolding new_frame
new_frame-Gives xs m = given (new_frame-Keeps xs m) (xs, get_elem?-last m.frames xs, refl)

frame_of-Gives :
    (host : Host) (func : Func) (fn args : Value) (m : Machine)
    → (has_keys func.keys ≡ true → func.has_rest ≡ false)
    → Gives m (λ xs next. length xs ≡ slots func) (frame_of host func fn args m)
unfolding frame_of
frame_of-Gives host func fn args m plain =
    go (make_frame func args) (make_frame-HasLength func args plain)
  where
    go :
        (r : Called (List Value))
        → OnOk (HasLength (slots func)) r
        → Gives m (λ xs next. length xs ≡ slots func) (framed host fn args r m)
    go (ok xs) h = gives xs m (IsLater-refl m) h
    go (err e) h = stopped (failed (host.error_value (call_site e fn args))) m (IsLater-refl m)

module _ (host : Host) (keeping : IsKeeping host) (n : ℕ) where
  abbrev ev : Value → Env → M Value
  ev = eval_gen host n

  eval_item-Keeps : (env : Env) (x : Value) → Keeps Value (eval_item host n ev env x)
  eval_item-Keeps env x =
      let closed = IsKeeping-IsClosed keeping in
      let same : n ≤ n = omega arith in
      eval_item-Rel closed same {ev' = ev} (eval_gen-Rel closed n n same) env x

  pub body_form-Keeps : (env : Env) (x : Value) → Keeps Value (body_form host n ev env x)
  body_form-Keeps env x =
      let closed = IsKeeping-IsClosed keeping in
      let same : n ≤ n = omega arith in
      body_form-Rel closed same {ev' = ev} (eval_gen-Rel closed n n same) env x

  copy_rest-Keeps : (x : Value) → Keeps Value (copy_rest x)
  copy_rest-Keeps x = copy_rest-Rel (IsKeeping-IsClosed keeping) x

  items-Keeps : (env : Env) (x : Value) → Keeps Value (mapcar (eval_item host n ev env) x)
  items-Keeps env x =
      mapcar-Rel (IsKeeping-IsClosed keeping) {g = eval_item host n ev env} (eval_item-Keeps env) x

  eval_slots-Gives :
      (env : Env) (fixed : ℕ) (has_rest : Bool) (xs : List Value) (m : Machine)
      → Gives m (λ ys next. length ys ≡ length xs) (eval_slots host n ev env fixed has_rest xs m)
  unfolding eval_slots ◌>>=◌
  eval_slots-Gives env zero true (cell x rest ∷ xs) m =
      bound-Gives (any (copy_rest-Keeps (cell x rest) m)) (λ items next p _.
        bound-Gives (any (items-Keeps env items next))
          (λ ys last q _. gives (ys ∷ xs) last (IsLater-refl last) refl))
  eval_slots-Gives env zero has_rest xs m = gives xs m (IsLater-refl m) refl
  eval_slots-Gives env (suc k) has_rest [] m = gives [] m (IsLater-refl m) refl
  eval_slots-Gives env (suc k) has_rest (x ∷ xs) m =
      bound-Gives (any (eval_item-Keeps env x m)) (λ y next p _.
        bound-Gives (eval_slots-Gives env k has_rest xs next)
          (λ ys last q h. gives (y ∷ ys) last (IsLater-refl last) (ap suc h)))

  -- the evaluated arguments fill a frame with a slot for each parameter
  pub eval_frame-Gives :
      (func : Func) (fn args : Value) (env : Env) (m : Machine)
      → (has_keys func.keys ≡ true → func.has_rest ≡ false)
      → Gives m (λ xs next. length xs ≡ slots func) (eval_frame host n ev func fn args env m)
  unfolding ◌>>=◌
  eval_frame-Gives func fn args env m plain =
      bound-Gives (frame_of-Gives host func fn args m plain) (λ frame next p long.
        weaken (λ ys last h. h ∙ long) (eval_slots-Gives env func.fixed func.has_rest frame next))
