-- ===== src/Quasiquote.antt =====
-- packages/interpreter/src/quasiquote.ts: a quasiquoted template becomes a form that builds it.
-- `none` is a form on which the source reads a field of `null` and throws. On a dotted form such as
-- `(unquote . 5)` it would carry on with `undefined`, which is `none` here too.
pub mod Meaning
mod Parts
pub mod Correct
pub mod Nested
mod Tests
use lisptc.Prelude.{
  ℕ, zero, suc, ◌+◌, ◌-◌, String, Bool, true, false, Option, none, some, ◌===◌, ◌==◌, ◌&&◌, ◌||◌,
  if◌then◌else◌,
}
use lisptc.Prelude.Fallible.{◌>>=◌}
use lisptc.Value.{Value, null, sym, cell, is_cell}

-- `x === …Sym`
abbrev pub is_sym : String → Value → Bool
is_sym name (sym s) = s === name
is_sym name _ = false

abbrev pub is_null : Value → Bool
is_null null = true
is_null _ = false

abbrev pub list2 : Value → Value → Value
list2 a b = cell a (cell b null)

unfoldable pub qq_quote : Value → Value
qq_quote (sym s) = list2 (sym "quote") (sym s)
qq_quote (cell a d) = list2 (sym "quote") (cell a d)
qq_quote x = x

-- `(x as Cell).car`
car_of : Value → Option Value
car_of (cell a d) = some a
car_of _ = none

as_cell : Value → Option Value
as_cell (cell a d) = some (cell a d)
as_cell _ = none

qq_concat : Value → Value → Option Value
qq_concat null y = some y
qq_concat (cell a d) y = do rest ← qq_concat d y; some (cell a rest)
qq_concat _ y = none

qq_cons_cons : Value → Value → Option Value
qq_cons_cons null y = some y
qq_cons_cons (cell a d) y = do rest ← qq_cons_cons d y; some (cell (sym "cons") (list2 a rest))
qq_cons_cons _ y = none

-- `x instanceof Cell && x.car === sym`
abbrev pub has_head : String → Value → Bool
has_head name (cell a d) = is_sym name a
has_head name _ = false

-- `x.cdr` where `x` is known to be a cell
abbrev pub cdr_of : Value → Value
cdr_of (cell a d) = d
cdr_of _ = null

-- `some none` is the source's `undefined`
unfoldable pub qq_merge : Value → Value → Option (Option Value)
unfolding qq_concat qq_cons_cons
qq_merge h tcar =
    if has_head "list" h
    then if has_head "list" tcar
      then (do merged ← qq_concat h (cdr_of tcar); some (some merged))
      else if is_cell (cdr_of h)
      then (do merged ← qq_cons_cons (cdr_of h) tcar; some (some merged))
      else some none
    else some none

-- the end of `qqExpand1`, with the two expansions at hand
pub join_parts : Value → Value → Option Value
unfolding qq_merge
join_parts h (cell tcar tcdr) = if is_null tcar && is_null tcdr then some (cell h null) else do
  merged ← qq_merge h tcar
  some (elim merged [ none ↦ cell h (cell tcar tcdr) | some m ↦ cell m tcdr ])
join_parts h _ = none

-- the end of `qqExpand0`
pub wrap_append : Value → Value
wrap_append (cell k null) =
    if has_head "list" k || has_head "cons" k then k else cell (sym "append") (cell k null)
wrap_append t = cell (sym "append") t

-- `qqExpand0` and `qqExpand2`, with `qqExpand1` of the same value passed in
pub expand0_by : (ℕ → Option Value) → Value → ℕ → Option Value
unfolding car_of wrap_append qq_quote
expand0_by expand1 (cell a d) level =
    if is_sym "unquote" a && level == 0
    then car_of d
    else (do t ← expand1 level; some (wrap_append t))
expand0_by expand1 x level = some (qq_quote x)

wrap_list : Option Value → Option Value
wrap_list r = do form ← r; some (cell (sym "list") (cell form null))

pub expand2_by : (ℕ → Option Value) → Value → ℕ → Option Value
unfolding wrap_list car_of
expand2_by expand1 (cell a d) level =
    if is_sym "unquote" a
    then if level == 0
      then some (cell (sym "list") d)
      else wrap_list (expand0_by expand1 (cell a d) (level - 1))
    else if is_sym "unquote-splicing" a
    then if level == 0 then car_of d else wrap_list (expand0_by expand1 (cell a d) (level - 1))
    else if is_sym "quasiquote" a
    then wrap_list (expand0_by expand1 (cell a d) (level + 1))
    else wrap_list (expand0_by expand1 (cell a d) level)
expand2_by expand1 x level = wrap_list (expand0_by expand1 x level)

abbrev next_level : Value → ℕ → ℕ
next_level a level =
    if is_sym "unquote" a then level - 1 else if is_sym "quasiquote" a then level + 1 else level

pub qq_expand1 : Value → ℕ → Option Value
unfolding expand0_by expand2_by join_parts as_cell
qq_expand1 (cell a d) level =
    let below = (do
      h ← expand2_by (qq_expand1 a) a (next_level a level)
      t ← qq_expand1 d (next_level a level)
      join_parts h t) in
    if is_sym "unquote" a && level == 0 then as_cell d else below
qq_expand1 x level = some (cell (qq_quote x) null)

unfoldable pub qq_expand0 : Value → ℕ → Option Value
unfolding qq_expand1
qq_expand0 x level = expand0_by (qq_expand1 x) x level

unfoldable pub qq_expand : Value → Option Value
unfolding qq_expand0
qq_expand x = qq_expand0 x 0
