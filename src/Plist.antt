-- ===== src/Plist.antt =====
-- packages/interpreter/src/plist.ts: keyword lists. `none` is a throw, also where the code reads the
-- `car` of what is no cell.
pub mod Reading
pub mod Splitting
mod Tests
use lisptc.Prelude.{
  String, Bool, true, false, not, Option, none, some, List, [], ◌∷◌, map, any, all, ◌===◌, ◌&&◌,
  ◌||◌, if◌then◌else◌,
}
use lisptc.Prelude.Dict
use lisptc.Prelude.Dict.{Dict}
use lisptc.Prelude.Fallible.{◌>>=◌}
use lisptc.Value.{Value, null, text, sym, key, cell, array_to_list}

unfoldable pub key_name : Value → Option String
key_name (key name) = some name
key_name (sym name) = some name
key_name (text name) = some name
key_name _ = none

unfoldable pub parse_from : Dict Value → Value → Option (Dict Value)
parse_from out null = some out
parse_from out (cell k (cell value rest)) =
    key_name k >>= λ name. parse_from (Dict.put name value out) rest
parse_from out _ = none

unfoldable pub parse_plist : Value → Option (Dict Value)
parse_plist list = parse_from [] list

abbrev pub included : String → List String → Bool
included name allowed = any (λ other. other === name) allowed

abbrev pub is_null : Value → Bool
is_null null = true
is_null _ = false

-- a keyword that something follows, or that is an option
abbrev pub starts_options : Value → Value → List String → Bool
starts_options (key name) rest allowed = not (is_null rest) || included name allowed
starts_options _ rest allowed = false

unfoldable pub split_values : Value → List String → Option (List Value × Value)
split_values null allowed = some ([], null)
split_values (cell x rest) allowed =
    let later = split_values rest allowed in
    if starts_options x rest allowed
    then some ([], cell x rest)
    else later >>= λ parts. some (x ∷ parts.0, parts.1)
split_values _ allowed = none

pub record KeywordArgs : Type 0 where
  pub values : Value
  pub options : Value

unfoldable pub split_keyword_args : Value → List String → Option KeywordArgs
split_keyword_args list allowed = split_values list allowed >>= λ parts.
    some (record { values = array_to_list parts.0; options = parts.1 })

abbrev pub allow : List String → Dict Value → Option (Dict Value)
allow allowed opts = if all (λ e. included e.0 allowed) opts then some opts else none

unfoldable pub plist_options : Value → List String → Option (Dict Value)
plist_options list allowed = parse_plist list >>= λ opts. allow allowed opts
