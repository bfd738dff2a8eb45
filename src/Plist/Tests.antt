-- ===== src/Plist/Tests.antt =====
-- Runs on keyword lists, and the theorems on them.
use lisptc.Prelude.{◌≡◌, some, List, [], ◌∷◌, String}
use lisptc.Prelude.Dict
use lisptc.Prelude.Fallible.{◌>>=◌}
use lisptc.Value.{Value, truth, text, key, sym}
use lisptc.Plist.{parse_plist}
use lisptc.Plist.Reading.{written, parse_plist-written}

abbrev twice : List (String × Value)
twice = ("limit", text "1") ∷ ("limit", truth) ∷ []

parse_plist-written_example :
    (parse_plist (written twice) >>= λ m. some (Dict.get "limit" m)) ≡ some (some truth)
parse_plist-written_example = parse_plist-written twice "limit"

abbrev arguments : List Value
arguments = sym "x" ∷ key "limit" ∷ truth ∷ []
