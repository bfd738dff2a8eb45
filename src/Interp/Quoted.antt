-- ===== src/Interp/Quoted.antt =====
-- packages/interpreter/src/lisp.ts: the evaluation of quoted values, and a call on them, as `apply` makes it.
use lisptc.Prelude.{
  ℕ, zero, suc, ◌≤◌, ◌<◌, String, true, false, Option, none, some, List, [], ◌∷◌, ◌++◌, map, length,
  get_elem?, take, drop, All, ◌==◌, ltb, ◌≡◌, ◌≢◌, ◌∙◌, refl, sym as flip, ap, arith, Bool-cases,
  inl, inr,
}
use lisptc.Prelude.Result.{Result, ok, err}
use lisptc.Value.{Value, null, sym, cell, arg, object, array_to_list}
use lisptc.Quasiquote.{qq_quote}
use lisptc.Frames.{Func, Called, has_keys}
use lisptc.Frames.Plain.{plain, make_frame-plain, plain-short, plain-rest, plain-exact, plain-more}
use lisptc.Interp.{
  Env, Code, Action, applies, Object, lambda, macro, closure, builtin, Machine, Stop, M, Host,
  bound, ret, ◌>>=◌, find_object,
}
use lisptc.Interp.Expand.{next_list, mapcar, framed, frame_of}
use lisptc.Interp.Parts.{copy_rest, eval_now, closed_object, value, applicable, special_of}
use lisptc.Interp.Forms.{
  eval_item, eval_slots, eval_frame, call_builtin, eval_gen, eval_application, eval_special,
  perform, go_on,
}

abbrev quoted : List Value → List Value
quoted xs = map qq_quote xs

-- a value that stands for itself: no variable, and no function that is yet to be closed
abbrev pub IsDatum : Machine → Value → Type 0
IsDatum m (arg _ _ _) = ⊥
IsDatum m (object n) = (code : Code) → get_elem? m.objects n ≢ some (lambda code)
IsDatum m _ = Unit

pub bind-ok :
    {A B : Type 0} (c : M A) (f : A → M B) {m next : Machine} {a : A}
    → c m ≡ some (ok a, next)
    → (c >>= f) m ≡ f a next
unfolding ◌>>=◌
bind-ok c f e = ap (bound f) e

object_self :
    (x : Value) (env : Env) (o : Option Object) (m : Machine)
    → ((code : Code) → o ≢ some (lambda code))
    → closed_object x env o m ≡ some (ok x, m)
object_self x env none m h = refl
object_self x env (some (lambda code)) m h = absurd (h code refl)
object_self x env (some (macro code)) m h = refl
object_self x env (some (closure code e)) m h = refl
object_self x env (some (builtin name func action)) m h = refl

module _ (host : Host) (m : Machine) (quiet : host.guard "quote" [] m ≡ some (ok tt, m)) where
  quoted_self :
      (n : ℕ) (env : Env) (x : Value)
      → eval_gen host (suc n) (cell (sym "quote") (cell x null)) env m ≡ some (ok x, m)
  unfolding eval_gen eval_special ◌>>=◌ special_of
  quoted_self n env x = rw quiet refl

  -- the value of a quoted value, or of one that needs no quote
  eval_item-qq_quote :
      (fuel n : ℕ) (env : Env) (x : Value)
      → IsDatum m x
      → eval_item host fuel (eval_gen host (suc n)) env (qq_quote x) m ≡ some (ok x, m)
  unfolding qq_quote eval_now ◌>>=◌ find_object
  eval_item-qq_quote fuel n env (sym s) h = quoted_self n env (sym s)
  eval_item-qq_quote fuel n env (cell a d) h = quoted_self n env (cell a d)
  eval_item-qq_quote fuel n env (arg l o x) h = absurd h
  eval_item-qq_quote fuel n env (object i) h =
      object_self (object i) env (get_elem? m.objects i) m h
  eval_item-qq_quote fuel n env _ h = refl

  module _ (fuel n : ℕ) (env : Env) where
    mapcar-quoted :
        (xs : List Value)
        → All (IsDatum m) xs
        → mapcar (eval_item host fuel (eval_gen host (suc n)) env) (array_to_list (quoted xs)) m
          ≡ some (ok (array_to_list xs), m)
    unfolding mapcar array_to_list ◌>>=◌
    mapcar-quoted [] h = refl
    mapcar-quoted (x ∷ xs) (p, h) = rw (eval_item-qq_quote fuel n env x p, mapcar-quoted xs h) refl

    copy_rest-list :
        (xs : List Value) → copy_rest (array_to_list xs) m ≡ some (ok (array_to_list xs), m)
    unfolding copy_rest array_to_list ◌>>=◌
    copy_rest-list [] = refl
    copy_rest-list (x ∷ []) = refl
    copy_rest-list (x ∷ y ∷ xs) = rw (copy_rest-list (y ∷ xs)) refl

    slots-exact :
        (xs : List Value)
        → All (IsDatum m) xs
        → eval_slots host fuel (eval_gen host (suc n)) env (length xs) false (quoted xs) m
          ≡ some (ok xs, m)
    unfolding eval_slots ◌>>=◌
    slots-exact [] h = refl
    slots-exact (x ∷ xs) (p, h) = rw (eval_item-qq_quote fuel n env x p, slots-exact xs h) refl

    slots-rest :
        (k : ℕ) (xs : List Value)
        → k ≤ length xs
        → All (IsDatum m) xs
        → eval_slots host fuel
            (eval_gen host (suc n))
            env
            k
            true
            (take k (quoted xs) ++ array_to_list (drop k (quoted xs)) ∷ [])
            m
          ≡ some (ok (take k xs ++ array_to_list (drop k xs) ∷ []), m)
    unfolding eval_slots array_to_list ◌>>=◌
    slots-rest zero [] le h = refl
    slots-rest zero (x ∷ xs) le h =
        rw (copy_rest-list (quoted (x ∷ xs)), mapcar-quoted (x ∷ xs) h) refl
    slots-rest (suc k) [] le h = absurd (omega (arith, le))
    slots-rest (suc k) (x ∷ xs) le (p, h) =
        rw (eval_item-qq_quote fuel n env x p, slots-rest k xs (omega (arith, le)) h) refl

    length-quoted : (xs : List Value) → length (quoted xs) ≡ length xs
    length-quoted [] = refl
    length-quoted (x ∷ xs) = ap suc (length-quoted xs)

    -- the frame of a call on quoted values, with what is wrong with the number of them
    eval_frame-quoted :
        (func : Func) (fn : Value) (xs : List Value)
        → has_keys func.keys ≡ false
        → All (IsDatum m) xs
        → eval_frame host fuel (eval_gen host (suc n)) func fn (array_to_list (quoted xs)) env m
          ≡ framed host fn (array_to_list (quoted xs)) (plain func xs) m
    unfolding frame_of ◌>>=◌
    eval_frame-quoted func fn xs no_keys h =
        let counted = length-quoted xs in
        rw (make_frame-plain func (quoted xs) no_keys)
          (elim (Bool-cases (ltb (length xs) func.fixed)) [
            | inl less ↦
                let short : length xs < func.fixed = ground (arith, less) in
                rw
                  (
                    plain-short func xs short,
                    plain-short func (quoted xs) (omega (arith, short, counted)),
                  )
                  refl
            | inr more ↦
                let long : func.fixed ≤ length xs = ground (arith, more) in
                elim (Bool-cases func.has_rest) [
                  | inl rest ↦
                      rw
                        (
                          plain-rest func xs rest long,
                          plain-rest func (quoted xs) rest (omega (arith, long, counted)),
                          rest,
                          slots-rest func.fixed xs long h,
                        )
                        refl
                  | inr bare ↦ elim (Bool-cases (length xs == func.fixed)) [
                    | inl equal ↦
                        let same : func.fixed ≡ length xs = ground (arith, equal) in
                        rw
                          (
                            plain-exact func xs bare same,
                            plain-exact func (quoted xs) bare (same ∙ flip counted),
                            bare,
                            same,
                            slots-exact xs h,
                          )
                          refl
                    | inr other ↦
                        let above : func.fixed < length xs = ground (arith, other, long) in
                        rw
                          (
                            plain-more func xs bare above,
                            plain-more func (quoted xs) bare (omega (arith, above, counted)),
                          )
                          refl
                  ]
                ]
          ])

  next_list-list :
      (whole : Value) (xs : List Value)
      → next_list whole (array_to_list xs) m ≡ some (ok (array_to_list xs), m)
  unfolding array_to_list
  next_list-list whole [] = refl
  next_list-list whole (x ∷ xs) = refl

  mapcar-qq_quote :
      (xs : List Value)
      → mapcar (λ x. ret (qq_quote x)) (array_to_list xs) m
        ≡ some (ok (array_to_list (quoted xs)), m)
  unfolding mapcar array_to_list ◌>>=◌
  mapcar-qq_quote [] = refl
  mapcar-qq_quote (x ∷ xs) = rw (mapcar-qq_quote xs) refl

  value-go_on :
      (ev : Value → Env → M Value) (o : Option (Result Stop Value × Machine))
      → bound (go_on host ev) (bound (λ y. ret (value y)) o) ≡ o
  value-go_on ev none = refl
  value-go_on ev (some (ok x, next)) = refl
  value-go_on ev (some (err e, next)) = refl

  called-go_on :
      (ev : Value → Env → M Value) (fn args : Value) (r : Called (List Value))
      (c : List Value → M Value)
      → ((framed host fn args r >>= λ frame. c frame >>= λ y. ret (value y)) >>= go_on host ev) m
        ≡ (framed host fn args r >>= c) m
  unfolding ◌>>=◌
  called-go_on ev fn args (ok frame) c = value-go_on ev (c frame m)
  called-go_on ev fn args (err e) c = refl

  -- `apply` with a builtin without keyword parameters, and a list of values that stand for themselves,
  -- calls the builtin, its hooks included, with those values in its frame, or fails as a call with that
  -- number of arguments does. The hooks let `quote` pass, and do nothing on it.
  pub perform-apply :
      (outer name : String) (func : Func) (action : Action) (b fuel n : ℕ) (xs : List Value)
      → get_elem? m.objects b ≡ some (builtin name func action)
      → has_keys func.keys ≡ false
      → All (IsDatum m) xs
      → perform host fuel
          (eval_gen host (suc (suc n)))
          applies
          outer
          (object b ∷ array_to_list xs ∷ [])
          m
        ≡ (framed host (object b) (array_to_list (quoted xs)) (plain func xs)
              >>= call_builtin host (suc n) (eval_gen host (suc n)) name action)
            m
  unfolding ◌>>=◌ eval_gen eval_application find_object applicable eval_now
  perform-apply outer name func action b fuel n xs found no_keys h =
      rw
        (
          mapcar-qq_quote xs,
          next_list-list (cell (object b) (array_to_list (quoted xs))) (quoted xs),
          found,
          found,
          eval_frame-quoted (suc n) n [] func (object b) xs no_keys h,
        )
        (called-go_on (eval_gen host (suc n)) (object b) (array_to_list (quoted xs)) (plain func xs)
          (call_builtin host (suc n) (eval_gen host (suc n)) name action))
