-- ===== src/Quasiquote/Tests.antt =====
-- Tests of the expansion, and the theorems at an evaluator for quoting, lists and variables.
use lisptc.Prelude.{◌≡◌, refl, true, Option, none, some, ◌===◌, if◌then◌else◌}
use mathlib.Core.Path.{subst}
use lisptc.Prelude.Fallible.{◌>>=◌, >>=-eq-some}
use lisptc.Value.{Value, null, truth, text, sym, cell}
use lisptc.Quasiquote.{list2, qq_expand}
use lisptc.Quasiquote.Meaning.{
  Append, stop, copy, Evals, none_left, next, Appends, last, onto, Evaluator, is_literal, Fills,
  hole, splice, pair, symbol, literal,
}
use lisptc.Quasiquote.Correct.{qq_expand-Fills}

append2 : Value → Value → Option Value
append2 null y = some y
append2 (cell a d) y = do rest ← append2 d y; some (cell a rest)
append2 _ y = none

quoted : Value → Option Value
quoted (cell x null) = some x
quoted _ = none

consed : Value → Option Value
consed (cell x (cell y null)) = some (cell x y)
consed _ = none

apply : Value → Value → Option Value → Option Value → Option Value
unfolding quoted consed
apply (sym s) d listed appended =
    if s === "quote"
    then quoted d
    else if s === "list"
    then listed
    else if s === "append"
    then appended
    else if s === "cons"
    then listed >>= consed
    else none
apply _ d listed appended = none

mutual
  -- `xs` is bound to a list, every other variable to its own name
  ev : Value → Option Value
  ev (sym s) = some (if s === "xs" then cell truth (cell truth null) else text s)
  ev (cell a d) = apply a d (ev_list d) (ev_append d)
  ev x = some x

  ev_list : Value → Option Value
  ev_list null = some null
  ev_list (cell a d) = do x ← ev a; rest ← ev_list d; some (cell x rest)
  ev_list _ = none

  ev_append : Value → Option Value
  ev_append (cell a null) = ev a
  ev_append (cell a d) = do x ← ev a; rest ← ev_append d; append2 x rest
  ev_append _ = none

append2_lem : {x y v : Value} → Append x y v → append2 x y ≡ some v
unfolding append2
append2_lem stop = refl
append2_lem (copy h) = rw (append2_lem h)

ev_append_lem : {args v : Value} → Appends ev args v → ev_append args ≡ some v
unfolding ev
ev_append_lem (last e) = e
ev_append_lem (onto e r k) = rw (e, ev_append_lem r) (append2_lem k)

ev_list_sound : (args v : Value) → ev_list args ≡ some v → Evals ev args v
unfolding ev
ev_list_sound null v h = let same : null ≡ v = cc in subst (Evals ev null) same none_left
ev_list_sound (cell a d) v h =
    let (x, e, f) = >>=-eq-some (ev a) (λ x. ev_list d >>= λ rest. some (cell x rest)) h in
    let (rest, e', f') = >>=-eq-some (ev_list d) (λ rest. some (cell x rest)) f in
    let same : cell x rest ≡ v = cc in
    subst (Evals ev (cell a d)) same (next e (ev_list_sound d rest e'))
ev_list_sound _ v h = cc

ev_list_complete : {args v : Value} → Evals ev args v → ev_list args ≡ some v
unfolding ev
ev_list_complete none_left = refl
ev_list_complete (next e r) = rw (e, ev_list_complete r)

ev-literal : (x : Value) → is_literal x ≡ true → ev x ≡ some x
unfolding ev
ev-literal (sym s) h = cc
ev-literal (cell a d) h = cc
ev-literal _ h = refl

abbrev evaluator : Evaluator
evaluator = record {
  ev = ev;
  ev-literal = ev-literal;
  ev-quote = λ x. unfold ev apply in refl;
  ev-list = λ args v. (
    λ h. ev_list_sound args v (unfold ev apply in h),
    λ h. unfold ev apply in ev_list_complete h,
  );
  ev-cons = λ a b x y p q. unfold ev apply in rw (p, q);
  ev-append = λ args v h. unfold ev apply in ev_append_lem h;
}

-- `(a ,b ,@xs)
abbrev template : Value
template =
    cell (sym "a") (
      cell (list2 (sym "unquote") (sym "b"))
        (cell (list2 (sym "unquote-splicing") (sym "xs")) null))

abbrev filled : Value
filled = cell (sym "a") (cell (text "b") (cell truth (cell truth null)))

template-Fills : Fills ev template filled
unfolding ev
template-Fills =
    pair (symbol refl) (pair (hole refl) (splice refl (literal refl) (copy (copy stop))))

qq_expand-Fills_example : (e : Value) × (qq_expand template ≡ some e) × (ev e ≡ some filled)
qq_expand-Fills_example = qq_expand-Fills evaluator template-Fills
