-- ===== src/Compile/Scoped/Nested.antt =====
-- Scanning source text for the scopes of nested functions, one after the other.
use lisptc.Prelude.{ℕ, zero, suc, ◌≡◌, refl, true, false, List, [], ◌∷◌, map, Bool-cases, inl, inr}
use lisptc.Prelude.Result.{ok}
use lisptc.Value.{Value, cell, arg}
use lisptc.Compile.{Table, ArgTable, is_sym, is_unquote, make_arg_table}
use lisptc.Compile.Params.{make_arg_table-IsArgTable}
use lisptc.Compile.Scopes.{IsSource, scan_all}
use lisptc.Compile.Scoped.{
  Slots, Scoped, ScopedItems, ScopedQq, ScopedQqItems, plain, quotation, template, form, ends, item,
  datum, deeper, hole, higher, list, data_end, data_item,
}
use lisptc.Compile.Scoped.Scanned.{scan-Scoped}

unquote-ScopedQq :
    {ns : Slots} {head rest : Value} (level : ℕ)
    → is_sym "quasiquote" head ≡ false
    → is_unquote head ≡ true
    → Scoped ns rest
    → ((l : ℕ) → ScopedQq ns l rest)
    → ScopedQq ns level (cell head rest)
unquote-ScopedQq zero qq u h k = hole qq u h
unquote-ScopedQq (suc level) qq u h k = higher qq u (k level)

-- source text has nothing resolved
mutual
  source-Scoped : (x : Value) → IsSource x → Scoped [] x
  source-Scoped (cell head rest) (h, k) = elim (Bool-cases (is_sym "quote" head)) [
    | inl q ↦ quotation q
    | inr q ↦ elim (Bool-cases (is_sym "quasiquote" head)) [
      | inl qq ↦ template q qq (source-ScopedQq 0 rest k)
      | inr qq ↦ form q qq (source-Scoped head h) (source-ScopedItems rest k)
    ]
  ]
  source-Scoped (arg _ _ _) h = elim h [ ]
  source-Scoped _ h = plain tt

  source-ScopedItems : (x : Value) → IsSource x → ScopedItems [] x
  source-ScopedItems (cell head rest) (h, k) =
      item (source-Scoped head h) (source-ScopedItems rest k)
  source-ScopedItems _ h = ends refl

  source-ScopedQq : (level : ℕ) (x : Value) → IsSource x → ScopedQq [] level x
  source-ScopedQq level (cell head rest) (h, k) = elim (Bool-cases (is_sym "quasiquote" head)) [
    | inl qq ↦ deeper qq (source-ScopedQq (suc level) rest k)
    | inr qq ↦ elim (Bool-cases (is_unquote head)) [
      | inl u ↦ unquote-ScopedQq level qq u (source-Scoped rest k) (λ l. source-ScopedQq l rest k)
      | inr u ↦ list qq u (source-ScopedQq level head h) (source-ScopedQqItems level rest k)
    ]
  ]
  source-ScopedQq level _ h = datum refl

  source-ScopedQqItems : (level : ℕ) (x : Value) → IsSource x → ScopedQqItems [] level x
  source-ScopedQqItems level (cell head rest) (h, k) =
      data_item (source-ScopedQq level head h) (source-ScopedQqItems level rest k)
  source-ScopedQqItems level _ h = data_end refl

abbrev pub tables : List ArgTable → List Table
tables ts = map (λ t. t.table) ts

abbrev pub arities : List ArgTable → Slots
arities ts = map (λ t. t.arity) ts

-- what makeArgTable makes of the parameter lists
abbrev pub AreMade : List Value → List ArgTable → Type 0
AreMade [] [] = Unit
AreMade (p ∷ ps) (t ∷ ts) = (make_arg_table p ≡ ok t) × AreMade ps ts
AreMade _ _ = ⊥

-- Source text, scanned for the parameters of the functions round it one after the other, is well scoped
-- for the numbers of their parameters, if makeArgTable accepts each parameter list: outside quotes,
-- every resolved variable names one of those functions and an offset below its number of parameters.
pub scan_all-Scoped :
    (ps : List Value) (ts : List ArgTable) (x : Value)
    → AreMade ps ts
    → IsSource x
    → Scoped (arities ts) (scan_all (tables ts) x)
scan_all-Scoped [] [] x made source = source-Scoped x source
scan_all-Scoped (p ∷ ps) (t ∷ ts) x (made, later) source =
    let (numbered, long, _, _) = make_arg_table-IsArgTable p t made in
    scan-Scoped t numbered long (scan_all (tables ts) x) (scan_all-Scoped ps ts x later source)
scan_all-Scoped [] (_ ∷ _) x made source = elim made [ ]
scan_all-Scoped (_ ∷ _) [] x made source = elim made [ ]
