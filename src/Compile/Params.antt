-- ===== src/Compile/Params.antt =====
-- What a parameter list is read as.
use mathlib.Core.Path.{subst}
use lisptc.Prelude.{
  append_assoc, append-nil, ℕ, suc, ◌+◌, ◌≡◌, refl, ap, sym, ◌∙◌, String, Bool, true, false, List,
  [], ◌∷◌, ◌++◌, map, length, length-append, ◌===◌, ===_iff, if◌then◌else◌, Bool-cases, inl, inr,
  arith,
}
use lisptc.Prelude.Dict
use lisptc.Prelude.Dict.{Dict, has-put}
use lisptc.Prelude.Result.{OnOk, OnOk-if, OnOk-bind, OnOk-then, ok}
use lisptc.Value.{Value, null, cell}
use lisptc.Compile.{
  Table, ArgTable, no_args, with_name, add_name, add_arg, variable_of, args_from, rest_arg,
  named_keys, has_none, make_arg_table, is_sym,
}

-- `n`, `n + 1`, … for the entries of a table, and no name twice
abbrev pub IsNumbered : ℕ → Table → Type 0
IsNumbered n [] = Unit
IsNumbered n ((name, offset) ∷ t) = (offset ≡ n) × (Dict.has name t ≡ false) × IsNumbered (suc n) t

abbrev pub names : Table → List String
names t = map (λ e. e.0) t

put-new :
    (name : String) (offset : ℕ) (t : Table)
    → Dict.has name t ≡ false
    → Dict.put name offset t ≡ t ++ (name, offset) ∷ []
unfolding Dict.has Dict.put
put-new name offset [] h = refl
put-new name offset ((other, o) ∷ t) h = ground (arith, put-new name offset t)

has-append :
    (other : String) (t : Table) (name : String) (o : ℕ)
    → Dict.has other t ≡ false
    → (name === other) ≡ false
    → Dict.has other (t ++ (name, o) ∷ []) ≡ false
unfolding Dict.has
has-append other [] name o once apart = rw apart refl
has-append other ((first, p) ∷ t) name o once apart = ground (arith, has-append other t name o)

IsNumbered-append :
    (n : ℕ) (t : Table) (name : String) (o : ℕ)
    → IsNumbered n t
    → Dict.has name t ≡ false
    → o ≡ n + length t
    → IsNumbered n (t ++ (name, o) ∷ [])
unfolding Dict.has
IsNumbered-append n [] name o h fresh place = (omega (arith, place), refl, tt)
IsNumbered-append n ((other, p) ∷ t) name o (here, once, h) fresh place =
    let absent : Dict.has name t ≡ false = ground (arith, fresh) in
    let apart : (name === other) ≡ false =
      ground (arith, fresh, ===_iff other name, ===_iff name other) in
    (
      here,
      has-append other t name o once apart,
      IsNumbered-append (suc n) t name o h absent (omega (arith, place)),
    )

names-append :
    (t : Table) (name : String) (o : ℕ) → names (t ++ (name, o) ∷ []) ≡ names t ++ name ∷ []
names-append [] name o = refl
names-append (e ∷ t) name o = ap (λ ns. e.0 ∷ ns) (names-append t name o)

-- the entries are numbered in order, and the keywords are the last names
abbrev pub IsArgTable : ArgTable → Type 0
IsArgTable t =
    IsNumbered 0 t.table
    × (length t.table ≡ t.arity)
    × ((front : List String) × (names t.table ≡ front ++ t.keys))
    × (t.keyed ≡ false → t.keys ≡ [])

-- the names in front of the keywords, when one more name comes
front-with_name :
    (keyed : Bool) (held front keys : List String) (name : String)
    → held ≡ front ++ keys
    → (keyed ≡ false → keys ≡ [])
    → (more : List String) × (held ++ name ∷ []
        ≡ more ++ (if keyed then keys ++ name ∷ [] else keys))
front-with_name true held front keys name e none_yet =
    (front, ap (λ l. l ++ name ∷ []) e ∙ append_assoc front keys (name ∷ []))
front-with_name false held front keys name e none_yet = (
  held ++ name ∷ [],
  sym (append-nil (held ++ name ∷ [])) ∙ ap (λ l. (held ++ name ∷ []) ++ l) (sym (none_yet refl)),
)

keys-with_name :
    (keyed : Bool) (keys : List String) (name : String)
    → (keyed ≡ false → keys ≡ [])
    → keyed ≡ false
    → (if keyed then keys ++ name ∷ [] else keys) ≡ []
keys-with_name true keys name none_yet e = ground arith
keys-with_name false keys name none_yet e = none_yet refl

with_name-IsArgTable :
    (name : String) (t : ArgTable)
    → Dict.has name t.table ≡ false
    → IsArgTable t
    → IsArgTable (with_name name t)
with_name-IsArgTable name t fresh (numbered, long, (front, e), none_yet) =
    let put = put-new name t.arity t.table fresh in
    let (more, e2) = front-with_name t.keyed (names t.table) front t.keys name e none_yet in
    (
      rw put (IsNumbered-append 0 t.table name t.arity numbered fresh (omega (arith, long))),
      ap length put ∙ length-append t.table ((name, t.arity) ∷ []) ∙ omega (arith, long),
      (more, ap names put ∙ names-append t.table name t.arity ∙ e2),
      keys-with_name t.keyed t.keys name none_yet,
    )

add_name-IsArgTable :
    (name : String) (t : ArgTable) → IsArgTable t → OnOk IsArgTable (add_name name t)
unfolding add_name
add_name-IsArgTable name t h = elim (Bool-cases (Dict.has name t.table)) [
  | inl there ↦ rw there tt
  | inr fresh ↦ rw fresh (with_name-IsArgTable name t fresh h)
]

add_arg-IsArgTable : (x : Value) (t : ArgTable) → IsArgTable t → OnOk IsArgTable (add_arg x t)
unfolding add_arg
add_arg-IsArgTable x t h =
    OnOk-then IsArgTable (variable_of x) (λ name. add_name name t)
      (λ name. add_name-IsArgTable name t h)

keyed-IsArgTable : (t : ArgTable) → IsArgTable t → IsArgTable (record t { keyed = true })
keyed-IsArgTable t (numbered, long, front, none_yet) = (numbered, long, front, λ e. ground arith)

mutual
  unfolding args_from

  args_from-IsArgTable : (t : ArgTable) (x : Value) → IsArgTable t → OnOk IsArgTable (args_from t x)
  args_from-IsArgTable t null h = h
  args_from-IsArgTable t (cell x rest) h =
      let named =
        OnOk-bind IsArgTable IsArgTable (add_arg x t) (λ next. args_from next rest)
          (add_arg-IsArgTable x t h) (λ next g. args_from-IsArgTable next rest g) in
      let keyed = args_from-IsArgTable (record t { keyed = true }) rest (keyed-IsArgTable t h) in
      let remaining = rest_arg-IsArgTable t rest h in
      OnOk-if IsArgTable t.has_rest _ _ tt (
        OnOk-if IsArgTable (is_sym "&key" x) _ _ (OnOk-if IsArgTable t.keyed _ _ tt keyed) (
          OnOk-if IsArgTable (is_sym "&rest" x) _ _ (OnOk-if IsArgTable t.keyed _ _ tt remaining)
            named))
  args_from-IsArgTable t _ h = tt

  rest_arg-IsArgTable : (t : ArgTable) (x : Value) → IsArgTable t → OnOk IsArgTable (rest_arg t x)
  rest_arg-IsArgTable t (cell x rest) h = OnOk-if IsArgTable (is_sym "&rest" x) _ _ tt (
      OnOk-bind IsArgTable IsArgTable (add_arg x (record t { has_rest = true }))
        (λ next. args_from next rest) (add_arg-IsArgTable x (record t { has_rest = true }) h)
        (λ next g. args_from-IsArgTable next rest g))
  rest_arg-IsArgTable t _ h = tt

named_keys-IsArgTable : (t : ArgTable) → IsArgTable t → OnOk IsArgTable (named_keys t)
named_keys-IsArgTable t h =
    OnOk-if IsArgTable t.keyed _ _ (OnOk-if IsArgTable (has_none t.keys) _ _ tt h) h

make-IsArgTable : (x : Value) → OnOk IsArgTable (make_arg_table x)
unfolding make_arg_table
make-IsArgTable null = (tt, refl, ([], refl), λ e. refl)
make-IsArgTable (cell x rest) =
    OnOk-bind IsArgTable IsArgTable (args_from no_args (cell x rest)) named_keys
      (args_from-IsArgTable no_args (cell x rest) (tt, refl, ([], refl), λ e. refl))
      named_keys-IsArgTable
make-IsArgTable _ = tt

-- If makeArgTable accepts a parameter list, then no name stands in its table twice, the offsets are
-- 0, 1, … in order up to the arity, and the keywords are the last names, none without &key.
pub make_arg_table-IsArgTable : (x : Value) (t : ArgTable) → make_arg_table x ≡ ok t → IsArgTable t
make_arg_table-IsArgTable x t e = subst (OnOk IsArgTable) e (make-IsArgTable x)
