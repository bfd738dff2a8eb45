-- ===== src/Compile/Variables.antt =====
-- What a resolved variable reads when it runs.
use lisptc.Prelude.{
  ℕ, suc, ◌≡◌, refl, ap, ◌∙◌, String, Option, none, some, List, [], ◌∷◌, map, get_elem?,
}
use lisptc.Prelude.Dict
use lisptc.Value as V
use lisptc.Value.{Value, arg}
use lisptc.Compile.{Table, Env, get_value}
use lisptc.Compile.Scopes.{here_or, search, replace, scan_all}
use lisptc.Compile.Scopes.Names.{shifted, search-suc}
use lisptc.Compile.Scopes.Resolved.{scan_all-replace}

-- the scopes round a form, each with the frame of its call
abbrev pub Calls : Type 0
Calls = List (Table × List Value)

abbrev pub tables : Calls → List Table
tables c = map (λ e. e.0) c

abbrev pub frames : Calls → Env
frames c = map (λ e. e.1) c

abbrev pub found_in : Option ℕ → List Value → Option Value → Option Value
found_in none frame other = other
found_in (some offset) frame other = get_elem? frame offset

-- the value of a name: in the innermost call that has it, or else the global one
abbrev pub value_of : Calls → (String → Option Value) → String → Option Value
value_of [] globals name = globals name
value_of ((table, frame) ∷ calls) globals name =
    found_in (Dict.get name table) frame (value_of calls globals name)

-- how the evaluator reads a variable
abbrev pub read_variable : Value → Env → (String → Option Value) → Option Value
read_variable (arg level offset name) env globals = get_value level offset env
read_variable (V.sym name) env globals = globals name
read_variable _ env globals = none

abbrev IsVariable : Value → Type 0
IsVariable (arg _ _ _) = Unit
IsVariable (V.sym _) = Unit
IsVariable _ = ⊥

here_or-IsVariable :
    (found : Option ℕ) (level : ℕ) (name : String) (other : Value)
    → IsVariable other
    → IsVariable (here_or found level name other)
here_or-IsVariable none level name other h = h
here_or-IsVariable (some offset) level name other h = tt

search-IsVariable :
    (level : ℕ) (ts : List Table) (name : String) → IsVariable (search level ts name)
search-IsVariable level [] name = tt
search-IsVariable level (t ∷ ts) name =
    here_or-IsVariable (Dict.get name t) level name _ (search-IsVariable (suc level) ts name)

-- a frame more inside
read_variable-shifted :
    (x : Value) (frame : List Value) (env : Env) (globals : String → Option Value)
    → IsVariable x
    → read_variable (shifted x) (frame ∷ env) globals ≡ read_variable x env globals
unfolding get_value
read_variable-shifted (arg level offset name) frame env globals h = refl
read_variable-shifted (V.sym name) frame env globals h = refl
read_variable-shifted _ frame env globals h = elim h [ ]

read_variable-here_or :
    (found : Option ℕ) (frame : List Value) (env : Env) (globals : String → Option Value)
    (name : String) (other : Value) (value : Option Value)
    → read_variable other (frame ∷ env) globals ≡ value
    → read_variable (here_or found 0 name other) (frame ∷ env) globals ≡ found_in found frame value
unfolding get_value
read_variable-here_or none frame env globals name other value e = e
read_variable-here_or (some offset) frame env globals name other value e = refl

read_variable-search :
    (calls : Calls) (globals : String → Option Value) (name : String)
    → read_variable (search 0 (tables calls) name) (frames calls) globals
      ≡ value_of calls globals name
read_variable-search [] globals name = refl
read_variable-search ((table, frame) ∷ calls) globals name =
    read_variable-here_or (Dict.get name table) frame (frames calls) globals name
      (search 1 (tables calls) name) _
      (ap (λ x. read_variable x (frame ∷ frames calls) globals) (search-suc 0 (tables calls) name)
        ∙ read_variable-shifted (search 0 (tables calls) name) frame (frames calls) globals
            (search-IsVariable 0 (tables calls) name)
        ∙ read_variable-search calls globals name)

-- A name in the body of nested lambdas, scanned for their parameters one after the other, reads when
-- it runs what the innermost call with a parameter of that name holds for it, or else the global.
pub read_variable-scan_all :
    (calls : Calls) (globals : String → Option Value) (name : String)
    → read_variable (scan_all (tables calls) (V.sym name)) (frames calls) globals
      ≡ value_of calls globals name
unfolding replace
read_variable-scan_all calls globals name =
    ap (λ x. read_variable x (frames calls) globals)
      (scan_all-replace (tables calls) (V.sym name) tt tt)
    ∙ read_variable-search calls globals name
