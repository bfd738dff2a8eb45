-- ===== src/Plist/Reading.antt =====
-- What a keyword list that was written is read as.
use lisptc.Prelude.{
  String, true, ◌≡◌, refl, sym, ap, ◌∙◌, Option, none, some, List, [], ◌∷◌, all, ◌===◌,
  if◌then◌else◌, arith, All, Bool-cases, inl, inr,
}
use lisptc.Prelude.Dict
use lisptc.Prelude.Dict.{Dict, get-put}
use lisptc.Prelude.Fallible.{◌>>=◌, >>=-eq-some}
use lisptc.Value.{Value, null, key, cell}
use lisptc.Plist.{key_name, parse_from, parse_plist, plist_options, included, allow}

-- a keyword list with these names and values
abbrev pub written : List (String × Value) → Value
written [] = null
written ((name, value) ∷ rest) = cell (key name) (cell value (written rest))

abbrev or_held : Option Value → Option Value → Option Value
or_held none held = held
or_held (some value) held = some value

-- the value of the last entry of that name, or else what is held
abbrev pub last_of : String → List (String × Value) → Option Value → Option Value
last_of name [] held = held
last_of name ((other, value) ∷ rest) held =
    last_of name rest (if other === name then some value else held)

abbrev put_all : List (String × Value) → Dict Value → Dict Value
put_all [] m = m
put_all ((name, value) ∷ rest) m = put_all rest (Dict.put name value m)

parse_from-written :
    (entries : List (String × Value)) (out : Dict Value)
    → parse_from out (written entries) ≡ some (put_all entries out)
unfolding parse_from key_name
parse_from-written [] out = refl
parse_from-written ((name, value) ∷ rest) out = parse_from-written rest (Dict.put name value out)

get-put_all :
    (name : String) (entries : List (String × Value)) (m : Dict Value)
    → Dict.get name (put_all entries m) ≡ last_of name entries (Dict.get name m)
get-put_all name [] m = refl
get-put_all name ((other, value) ∷ rest) m =
    get-put_all name rest (Dict.put other value m)
    ∙ ap (last_of name rest) (get-put other name value m)

-- parsePlist reads every keyword list, and finds for each name the last value that the list gives it.
pub parse_plist-written :
    (entries : List (String × Value)) (name : String)
    → (parse_plist (written entries) >>= λ m. some (Dict.get name m))
      ≡ some (last_of name entries none)
unfolding parse_plist Dict.get
parse_plist-written entries name =
    ap (λ m. m >>= λ d. some (Dict.get name d)) (parse_from-written entries [])
    ∙ ap some (get-put_all name entries [])

all-All :
    (allowed : List String) (opts : Dict Value)
    → all (λ e. included e.0 allowed) opts ≡ true
    → All (λ e. included e.0 allowed ≡ true) opts
all-All allowed [] h = tt
all-All allowed (e ∷ opts) h = ground (arith, all-All allowed opts)

-- If plistOptions gives options, then each of their names is an allowed one, and they are what
-- parsePlist reads.
plist_options-allowed :
    (list : Value) (allowed : List String) (opts : Dict Value)
    → plist_options list allowed ≡ some opts
    → All (λ e. included e.0 allowed ≡ true) opts × (parse_plist list ≡ some opts)
unfolding plist_options
plist_options-allowed list allowed opts h =
    let (read, parsed, passed) = >>=-eq-some (parse_plist list) (allow allowed) h in
    elim (Bool-cases (all (λ e. included e.0 allowed) read)) [
      | inl good ↦
          let same : read ≡ opts = ground (arith, passed, good) in
          (
            all-All allowed opts (ap (all (λ e. included e.0 allowed)) (sym same) ∙ good),
            parsed ∙ ap some same,
          )
      | inr bad ↦ ground (arith, passed, bad)
    ]
