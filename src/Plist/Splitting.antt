-- ===== src/Plist/Splitting.antt =====
-- Where the options of a list of arguments start.
use lisptc.Prelude.{
  String, Bool, true, ◌≡◌, refl, some, List, [], ◌∷◌, ◌++◌, if◌then◌else◌, arith, Bool-cases, inl,
  inr,
}
use lisptc.Value.{Value, array_to_list}
use lisptc.Plist.{starts_options, split_values, split_keyword_args}

-- the items before the first that starts the options, and the items from there on
abbrev pub values_of : List Value → List String → List Value
values_of [] allowed = []
values_of (x ∷ xs) allowed =
    if starts_options x (array_to_list xs) allowed then [] else x ∷ values_of xs allowed

abbrev pub options_of : List Value → List String → List Value
options_of [] allowed = []
options_of (x ∷ xs) allowed =
    if starts_options x (array_to_list xs) allowed then x ∷ xs else options_of xs allowed

split_values-list :
    (xs : List Value) (allowed : List String)
    → split_values (array_to_list xs) allowed
      ≡ some (values_of xs allowed, array_to_list (options_of xs allowed))
unfolding split_values array_to_list
split_values-list [] allowed = refl
split_values-list (x ∷ xs) allowed =
    elim (Bool-cases (starts_options x (array_to_list xs) allowed)) [
      | inl found ↦ rw found refl
      | inr other ↦ rw (other, split_values-list xs allowed) refl
    ]

values_of-append :
    (xs : List Value) (allowed : List String) → values_of xs allowed ++ options_of xs allowed ≡ xs
values_of-append [] allowed = refl
values_of-append (x ∷ xs) allowed = ground (arith, values_of-append xs allowed)

abbrev pub is_option_list : List Value → List String → Bool
is_option_list [] allowed = true
is_option_list (x ∷ xs) allowed = starts_options x (array_to_list xs) allowed

options_of-start :
    (xs : List Value) (allowed : List String)
    → is_option_list (options_of xs allowed) allowed ≡ true
options_of-start [] allowed = refl
options_of-start (x ∷ xs) allowed =
    elim (Bool-cases (starts_options x (array_to_list xs) allowed)) [
      | inl found ↦ rw (found, found) refl
      | inr other ↦ rw other (options_of-start xs allowed)
    ]

-- splitKeywordArgs succeeds on every proper list: the values and then the options are the list again,
-- and the options, if there are any, start with a keyword that a value follows or that is allowed.
split_keyword_args_lem :
    (xs : List Value) (allowed : List String)
    → (vs : List Value) × (os : List Value) × (split_keyword_args (array_to_list xs) allowed
        ≡ some (record { values = array_to_list vs; options = array_to_list os }))
      × (vs ++ os ≡ xs)
      × (is_option_list os allowed ≡ true)
unfolding split_keyword_args
split_keyword_args_lem xs allowed = (
  values_of xs allowed,
  options_of xs allowed,
  rw (split_values-list xs allowed) refl,
  values_of-append xs allowed,
  options_of-start xs allowed,
)
