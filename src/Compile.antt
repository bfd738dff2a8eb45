-- ===== src/Compile.antt =====
-- packages/interpreter/src/compile.ts: how the body of a lambda or macro has its variables resolved,
-- and packages/interpreter/src/func.ts: what a resolved variable reads.
-- Macro expansion and the compiling of inner lambdas, which call the evaluator, are in Interp/Expand.
pub mod Scopes
pub mod Variables
pub mod Params
pub mod Scoped
pub mod Rest
mod Tests
use lisptc.Prelude.{
  ℕ, zero, suc, ◌-◌, ◌+◌, String, Bool, true, false, Option, none, some, List, [], ◌∷◌, ◌++◌, ◌===◌,
  ◌==◌, ◌||◌, if◌then◌else◌, get_elem?, set,
}
use lisptc.Prelude.Dict
use lisptc.Prelude.Dict.{Dict}
use lisptc.Prelude.Result.{Result, ok, err, ◌>>=◌}
use lisptc.Value.{Value, null, sym, cell, arg}

-- the offset of each parameter: `Arg(0, offset, sym)` under `sym`
abbrev pub Table : Type 0
Table = Dict ℕ

abbrev pub is_sym : String → Value → Bool
is_sym name (sym s) = s === name
is_sym name _ = false

abbrev pub is_unquote : Value → Bool
is_unquote head = is_sym "unquote" head || is_sym "unquote-splicing" head

abbrev pub found_or : Option ℕ → String → Value → Value
found_or none name other = other
found_or (some offset) name other = arg 0 offset name

-- `mapcar` maps the items of a list and leaves what ends it.
unfoldable mutual
  pub scan_for_args : Value → Table → Value
  scan_for_args (sym name) table = found_or (Dict.get name table) name (sym name)
  scan_for_args (arg level offset name) table =
      found_or (Dict.get name table) name (arg (suc level) offset name)
  scan_for_args (cell head rest) table =
      let quasi = cell head (scan_for_qq rest table 0) in
      let items = cell (scan_for_args head table) (scan_items rest table) in
      if is_sym "quote" head
      then cell head rest
      else if is_sym "quasiquote" head
      then quasi
      else items
  scan_for_args x table = x

  pub scan_items : Value → Table → Value
  scan_items (cell head rest) table = cell (scan_for_args head table) (scan_items rest table)
  scan_items x table = x

  pub scan_for_qq : Value → Table → ℕ → Value
  scan_for_qq (cell head rest) table level =
      let deeper = cell head (scan_for_qq rest table (suc level)) in
      let hole = cell head (scan_for_args rest table) in
      let higher = cell head (scan_for_qq rest table (level - 1)) in
      let items = cell (scan_for_qq head table level) (scan_qq_items rest table level) in
      if is_sym "quasiquote" head
      then deeper
      else if is_unquote head
      then if level == 0 then hole else higher
      else items
  scan_for_qq x table level = x

  pub scan_qq_items : Value → Table → ℕ → Value
  scan_qq_items (cell head rest) table level =
      cell (scan_for_qq head table level) (scan_qq_items rest table level)
  scan_qq_items x table level = x

-- frames, the innermost first
abbrev pub Env : Type 0
Env = List (List Value)

-- `Arg.getValue`: `none` where the program reads past the frames
unfoldable pub get_value : ℕ → ℕ → Env → Option Value
get_value level offset [] = none
get_value zero offset (frame ∷ env) = get_elem? frame offset
get_value (suc level) offset (frame ∷ env) = get_value level offset env

-- `Arg.setValue`
unfoldable pub set_value : ℕ → ℕ → Value → Env → Env
set_value level offset x [] = []
set_value zero offset x (frame ∷ env) = set frame offset x ∷ env
set_value (suc level) offset x (frame ∷ env) = frame ∷ set_value level offset x env

pub data CompileError : Type 0 where
  arglist_expected proper_list_expected not_variable duplicated_name : CompileError
  second_rest second_key rest_after_key key_without_names : CompileError

pub record ArgTable : Type 0 where
  pub table : Table
  pub has_rest : Bool
  pub arity : ℕ
  pub keyed : Bool
  pub keys : List String

abbrev pub no_args : ArgTable
no_args = record { table = []; has_rest = false; arity = 0; keyed = false; keys = [] }

unfoldable pub variable_of : Value → Result CompileError String
variable_of (sym name) = ok name
variable_of (arg level offset name) = ok name
variable_of _ = err not_variable

abbrev pub with_name : String → ArgTable → ArgTable
with_name name t = record t {
  table = Dict.put name t.arity t.table;
  arity = suc t.arity;
  keys = if t.keyed then t.keys ++ name ∷ [] else t.keys;
}

unfoldable pub add_name : String → ArgTable → Result CompileError ArgTable
add_name name t = if Dict.has name t.table then err duplicated_name else ok (with_name name t)

-- `addArg`, and what the loop does with the name
unfoldable pub add_arg : Value → ArgTable → Result CompileError ArgTable
add_arg x t = variable_of x >>= λ name. add_name name t

unfoldable mutual
  pub args_from : ArgTable → Value → Result CompileError ArgTable
  args_from t null = ok t
  args_from t (cell x rest) =
      let keyed = args_from (record t { keyed = true }) rest in
      let named = add_arg x t >>= λ next. args_from next rest in
      let remaining = rest_arg t rest in
      if t.has_rest
      then err second_rest
      else if is_sym "&key" x
      then if t.keyed then err second_key else keyed
      else if is_sym "&rest" x
      then if t.keyed then err rest_after_key else remaining
      else named
  args_from t _ = err proper_list_expected

  -- the parameter behind `&rest`
  pub rest_arg : ArgTable → Value → Result CompileError ArgTable
  rest_arg t null = err not_variable
  rest_arg t (cell x rest) =
      let named = add_arg x (record t { has_rest = true }) >>= λ next. args_from next rest in
      if is_sym "&rest" x then err not_variable else named
  rest_arg t _ = err proper_list_expected

abbrev pub has_none : List String → Bool
has_none [] = true
has_none (_ ∷ _) = false

abbrev pub named_keys : ArgTable → Result CompileError ArgTable
named_keys t = if t.keyed then if has_none t.keys then err key_without_names else ok t else ok t

unfoldable pub make_arg_table : Value → Result CompileError ArgTable
make_arg_table null = ok no_args
make_arg_table (cell x rest) = args_from no_args (cell x rest) >>= named_keys
make_arg_table _ = err arglist_expected
