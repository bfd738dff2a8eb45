-- ===== src/Quasiquote/Meaning.antt =====
-- What a template means, and what its expansion takes from the evaluator.
use lisptc.Prelude.{String, ◌≡◌, ◌↔◌, Bool, true, false, Option, some, ◌===◌, ◌||◌}
use lisptc.Value.{Value, null, sym, cell, arg}

-- `Append x y v`: `_append` of prelude.ts copies the list `x` in front of `y`.
pub data Append : Value → Value → Value → Type 0 where
  stop : {y : Value} → Append null y y
  copy : {a d y r : Value} → Append d y r → Append (cell a d) y (cell a r)

module _ (ev : Value → Option Value) where
  -- the values of a list of forms
  pub data Evals : Value → Value → Type 0 where
    none_left : Evals null null
    next : {a d x y : Value} → ev a ≡ some x → Evals d y → Evals (cell a d) (cell x y)

  -- the macro `append` of prelude.ts
  pub data Appends : Value → Value → Type 0 where
    last : {a x : Value} → ev a ≡ some x → Appends (cell a null) x
    onto :
        {a b d x r v : Value}
        → ev a ≡ some x
        → Appends (cell b d) r
        → Append x r v
        → Appends (cell a (cell b d)) v

abbrev pub is_literal : Value → Bool
is_literal (sym s) = false
is_literal (cell a d) = false
is_literal (arg level offset s) = false
is_literal _ = true

-- The laws of the evaluator on the forms that an expansion is built from.
pub record Evaluator : Type 0 where
  pub ev : Value → Option Value
  pub ev-literal : (x : Value) → is_literal x ≡ true → ev x ≡ some x
  pub ev-quote : (x : Value) → ev (cell (sym "quote") (cell x null)) ≡ some x
  pub ev-list : (args v : Value) → (ev (cell (sym "list") args) ≡ some v) ↔ Evals ev args v
  pub ev-cons :
      (a b x y : Value)
      → ev a ≡ some x
      → ev b ≡ some y
      → ev (cell (sym "cons") (cell a (cell b null))) ≡ some (cell x y)
  pub ev-append : (args v : Value) → Appends ev args v → ev (cell (sym "append") args) ≡ some v

abbrev pub is_special : String → Bool
is_special s = s === "unquote" || s === "unquote-splicing" || s === "quasiquote"

-- `Fills ev x v`: filling the holes of the template `x` gives `v`. The template has no quasiquote
-- of its own, its unquoting forms have one argument each, and a splice stands for items of a list.
pub data Fills (ev : Value → Option Value) : Value → Value → Type 0 where
  hole : {e v : Value} → ev e ≡ some v → Fills ev (cell (sym "unquote") (cell e null)) v
  splice :
      {e xs d r v : Value}
      → ev e ≡ some xs
      → Fills ev d r
      → Append xs r v
      → Fills ev (cell (cell (sym "unquote-splicing") (cell e null)) d) v
  pair : {a d u w : Value} → Fills ev a u → Fills ev d w → Fills ev (cell a d) (cell u w)
  symbol : {s : String} → is_special s ≡ false → Fills ev (sym s) (sym s)
  literal : {x : Value} → is_literal x ≡ true → Fills ev x x
