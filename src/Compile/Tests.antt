-- ===== src/Compile/Tests.antt =====
-- Runs of the resolving of variables, and the theorems on them.
use lisptc.Prelude.{◌≡◌, refl, true, false, none, some, List, [], ◌∷◌}
use lisptc.Prelude.Result.{ok, err}
use lisptc.Prelude.Dict
use lisptc.Value.{Value, null, truth, text, sym, arg, array_to_list}
use lisptc.Compile.{
  ArgTable, make_arg_table, args_from, rest_arg, add_arg, add_name, variable_of, scan_for_args,
  second_key, set_value, get_value, Table,
}
use lisptc.Compile.Scopes.{scan_all, replace, search, IsSource, IsUndotted}
use lisptc.Compile.Scopes.Resolved.{scan_all-replace}
use lisptc.Compile.Variables.{
  Calls, tables, frames, value_of, read_variable, read_variable-scan_all,
}
use lisptc.Compile.Params.{IsArgTable, make_arg_table-IsArgTable}
use lisptc.Compile.Scoped.{Scoped}
use lisptc.Compile.Scoped.Nested.{scan_all-Scoped}

abbrev parameters : Value
parameters = array_to_list (sym "x" ∷ sym "&key" ∷ sym "limit" ∷ [])

abbrev expected : ArgTable
expected = record {
  table = ("x", 0) ∷ ("limit", 1) ∷ [];
  has_rest = false;
  arity = 2;
  keyed = true;
  keys = "limit" ∷ [];
}

make_arg_table-parameters : make_arg_table parameters ≡ ok expected
unfolding make_arg_table args_from rest_arg add_arg add_name variable_of array_to_list Dict.put
    Dict.has
make_arg_table-parameters = refl

make_arg_table-IsArgTable_example : IsArgTable expected
make_arg_table-IsArgTable_example =
    make_arg_table-IsArgTable parameters expected make_arg_table-parameters

make_arg_table-second_key :
    make_arg_table (array_to_list (sym "&key" ∷ sym "x" ∷ sym "&key" ∷ [])) ≡ err second_key
unfolding make_arg_table args_from rest_arg add_arg add_name variable_of array_to_list Dict.put
    Dict.has
make_arg_table-second_key = refl

-- the scopes of `(lambda (x) (lambda (y) …))`, the inner one first
abbrev scopes : List Table
scopes = (("y", 0) ∷ []) ∷ (("x", 0) ∷ []) ∷ []

abbrev form : Value
form = array_to_list (sym "f" ∷ sym "x" ∷ array_to_list (sym "quote" ∷ sym "x" ∷ []) ∷ sym "y" ∷ [])

form-IsSource : IsSource form
unfolding array_to_list
form-IsSource = (tt, (tt, ((tt, (tt, tt)), (tt, tt))))

form-IsUndotted : IsUndotted form
unfolding array_to_list
form-IsUndotted = (refl, tt, (refl, tt, (refl, (refl, tt, (refl, tt, tt)), (refl, tt, tt))))

scan_all-replace_example : scan_all scopes form ≡ replace (search 0 scopes) form
scan_all-replace_example = scan_all-replace scopes form form-IsSource form-IsUndotted

scan_all-form :
    scan_all scopes form
    ≡ array_to_list
        (sym "f" ∷ arg 1 0 "x" ∷ array_to_list (sym "quote" ∷ sym "x" ∷ []) ∷ arg 0 0 "y" ∷ [])
unfolding scan_for_args array_to_list Dict.get
scan_all-form = refl

abbrev calls : Calls
calls = (("y", 0) ∷ [], text "in" ∷ []) ∷ (("x", 0) ∷ ("y", 1) ∷ [], truth ∷ text "out" ∷ []) ∷ []

read_variable-scan_all_example :
    read_variable (scan_all (tables calls) (sym "y")) (frames calls) (λ _. none)
    ≡ value_of calls (λ _. none) "y"
read_variable-scan_all_example = read_variable-scan_all calls (λ _. none) "y"

value_of-calls : value_of calls (λ _. none) "y" ≡ some (text "in")
unfolding Dict.get
value_of-calls = refl

get_value-set_value :
    get_value 1 0 (set_value 1 0 null ((text "a" ∷ []) ∷ (text "b" ∷ []) ∷ [])) ≡ some null
unfolding get_value set_value
get_value-set_value = refl

abbrev of_y : ArgTable
of_y = record { table = ("y", 0) ∷ []; has_rest = false; arity = 1; keyed = false; keys = [] }

make_arg_table-of_y : make_arg_table (array_to_list (sym "y" ∷ [])) ≡ ok of_y
unfolding make_arg_table args_from rest_arg add_arg add_name variable_of array_to_list Dict.put
    Dict.has
make_arg_table-of_y = refl

-- `form` inside `(lambda (x &key limit) (lambda (y) …))`
scan_all-Scoped_example : Scoped (1 ∷ 2 ∷ []) (scan_all (of_y.table ∷ expected.table ∷ []) form)
scan_all-Scoped_example =
    scan_all-Scoped (array_to_list (sym "y" ∷ []) ∷ parameters ∷ []) (of_y ∷ expected ∷ []) form
      (make_arg_table-of_y, (make_arg_table-parameters, tt)) form-IsSource
