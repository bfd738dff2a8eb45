-- ===== src/Value/Json/Tests.antt =====
-- Runs of the JSON conversions, and the round trip at one value.
use lisptc.Prelude.{◌≡◌, refl, false, none, some}
use lisptc.Prelude.Int.{pos}
use lisptc.Value.{integral, Value, key, cell, truth}
use lisptc.Value.Json.{
  Json, bool, number, text, array, object, nil, item, end, field, exact, to_json, json_to_lisp,
  finish, is_plist, plist_entries, object_of,
}
use lisptc.Value.Json.RoundTrip.{
  a_bool, a_number, a_text, an_array, an_object, no_items, more_items, no_fields, more_fields,
  to_json-exact,
}

-- {"a": [false, 1], "b": [["x", 1]]}
abbrev sample : Json
sample = object (
    field "a" (array (item (bool false) (item (number (integral (pos 1))) nil)))
      (field "b" (array (item (array (item (text "x") nil)) nil)) end))

to_json-exact_example : to_json (exact sample) ≡ some sample
to_json-exact_example = to_json-exact sample (
    an_object (
      more_fields refl
        (an_array (more_items (a_bool false) (more_items (a_number _ refl) no_items)))
        (more_fields refl
          (an_array (more_items (an_array (more_items (a_text "x") no_items)) no_items))
          no_fields)))

-- A key that appears twice has no JSON form, nor has a dotted pair.
twice : Value
twice = cell (key "a") (cell truth (cell (key "a") (cell truth Value.null)))

twice_refused : to_json twice ≡ none
unfolding twice to_json finish is_plist plist_entries object_of
twice_refused = refl

-- The lossy reading cannot tell false from null.
false_is_null : json_to_lisp (bool false) ≡ json_to_lisp Json.null
unfolding json_to_lisp
false_is_null = refl
