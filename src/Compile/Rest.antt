-- ===== src/Compile/Rest.antt =====
-- A rest parameter is the last parameter, and there are no keywords with it.
use mathlib.Core.Path.{subst}
use lisptc.Prelude.{◌<◌, ◌≡◌, String, true, false, arith}
use lisptc.Prelude.Dict
use lisptc.Prelude.Result.{OnOk, OnOk-if, OnOk-if_cases, OnOk-bind, OnOk-then, ok}
use lisptc.Value.{Value, null, cell}
use lisptc.Compile.{
  ArgTable, no_args, with_name, add_name, add_arg, variable_of, args_from, rest_arg, named_keys,
  has_none, make_arg_table, is_sym,
}

abbrev pub IsRestLast : ArgTable → Type 0
IsRestLast t = t.has_rest ≡ true → (0 < t.arity) × (t.keyed ≡ false)

-- what one more name keeps
add_arg-OnOk :
    (P : ArgTable → Type 0) (x : Value) (t : ArgTable)
    → ((name : String) → P (with_name name t))
    → OnOk P (add_arg x t)
unfolding add_arg add_name
add_arg-OnOk P x t h =
    OnOk-then P (variable_of x) (λ name. add_name name t)
      (λ name. OnOk-if P (Dict.has name t.table) _ _ tt (h name))

mutual
  unfolding args_from

  args_from-IsRestLast : (t : ArgTable) (x : Value) → IsRestLast t → OnOk IsRestLast (args_from t x)
  args_from-IsRestLast t null h = h
  args_from-IsRestLast t (cell x rest) h =
      let keyed = λ (more : t.has_rest ≡ false).
        args_from-IsRestLast (record t { keyed = true }) rest (λ last. absurd cc) in
      let named = λ (more : t.has_rest ≡ false).
        OnOk-bind IsRestLast IsRestLast (add_arg x t) (λ next. args_from next rest)
          (add_arg-OnOk IsRestLast x t (λ name last. absurd cc))
          (λ next g. args_from-IsRestLast next rest g) in
      OnOk-if_cases IsRestLast t.has_rest _ _ (λ last. tt)
        (λ more.
          OnOk-if IsRestLast (is_sym "&key" x) _ _ (OnOk-if IsRestLast t.keyed _ _ tt (keyed more))
            (OnOk-if IsRestLast (is_sym "&rest" x) _ _
              (OnOk-if_cases IsRestLast t.keyed _ _ (λ _. tt)
                (λ plain. rest_arg-IsRestLast t rest plain))
              (named more)))
  args_from-IsRestLast t _ h = tt

  rest_arg-IsRestLast :
      (t : ArgTable) (x : Value) → t.keyed ≡ false → OnOk IsRestLast (rest_arg t x)
  rest_arg-IsRestLast t (cell x rest) h = OnOk-if IsRestLast (is_sym "&rest" x) _ _ tt (
      OnOk-bind IsRestLast IsRestLast (add_arg x (record t { has_rest = true }))
        (λ next. args_from next rest)
        (add_arg-OnOk IsRestLast x (record t { has_rest = true }) (λ name e. (omega arith, h)))
        (λ next g. args_from-IsRestLast next rest g))
  rest_arg-IsRestLast t _ h = tt

named_keys-IsRestLast : (t : ArgTable) → IsRestLast t → OnOk IsRestLast (named_keys t)
named_keys-IsRestLast t h =
    OnOk-if IsRestLast t.keyed _ _ (OnOk-if IsRestLast (has_none t.keys) _ _ tt h) h

make-IsRestLast : (x : Value) → OnOk IsRestLast (make_arg_table x)
unfolding make_arg_table
make-IsRestLast null = λ last. absurd cc
make-IsRestLast (cell x rest) =
    OnOk-bind IsRestLast IsRestLast (args_from no_args (cell x rest)) named_keys
      (args_from-IsRestLast no_args (cell x rest) (λ last. absurd cc)) named_keys-IsRestLast
make-IsRestLast _ = tt

pub make_arg_table-IsRestLast : (x : Value) (t : ArgTable) → make_arg_table x ≡ ok t → IsRestLast t
make_arg_table-IsRestLast x t e = subst (OnOk IsRestLast) e (make-IsRestLast x)
