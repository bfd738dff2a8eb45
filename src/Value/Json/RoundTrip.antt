-- ===== src/Value/Json/RoundTrip.antt =====
-- JSON that is written as a Lisp value by `exactJsonToLisp` is read back by `lispToJson`.
use lisptc.Prelude.{
  String, ◌≡◌, refl, ap, ◌∙◌, Bool, true, false, not, ◌&&◌, Option, some, List, [], ◌∷◌, map, arith,
  inl, inr, Bool-cases,
}
use lisptc.Prelude.Fallible.{◌>>=◌}
use lisptc.Value.{Number, Value, cell}
use lisptc.Value.Json.{
  Json, null, bool, number, text, array, object, Items, nil, item, Fields, end, field, Entry,
  is_finite, has_key, is_alist, is_plist, writes_as_array, tagged, exact, exact_items, exact_list,
  exact_fields, object_of, array_of, value_of, json_of, finish, to_json, to_json_cdr, entries,
  empty_array, alist_entry, is_empty_array,
}

-- What `JSON.parse` can return: finite numbers, and no key twice in one object.
mutual
  pub data IsJson : Json → Type 0 where
    a_null : IsJson null
    a_bool : (b : Bool) → IsJson (bool b)
    a_number : (n : Number) → is_finite n ≡ true → IsJson (number n)
    a_text : (s : String) → IsJson (text s)
    an_array : {xs : Items} → AreJson xs → IsJson (array xs)
    an_object : {fs : Fields} → HoldJson fs → IsJson (object fs)

  pub data AreJson : Items → Type 0 where
    no_items : AreJson nil
    more_items : {x : Json} {xs : Items} → IsJson x → AreJson xs → AreJson (item x xs)

  pub data HoldJson : Fields → Type 0 where
    no_fields : HoldJson end
    more_fields :
        {k : String} {v : Json} {fs : Fields}
        → has_key k fs ≡ false
        → IsJson v
        → HoldJson fs
        → HoldJson (field k v fs)

abbrev entry_of : Value → Entry
entry_of v = record { value = v; json = to_json v; cdr_json = to_json_cdr v }

-- the items of a written array, and of a written object, as `lispToJson` finds them
abbrev Listed : Items → Type 0
Listed xs =
    (es : List Entry) × (entries (exact_list xs) ≡ some es)
    × (map value_of es ≡ exact_items xs)
    × (array_of (map json_of es) ≡ some xs)

abbrev Named : Fields → Type 0
Named fs =
    (es : List Entry) × (entries (exact_fields fs) ≡ some es)
    × (is_alist (map value_of es) ≡ true)
    × (object_of (map alist_entry es) ≡ some fs)

plain_tests_of :
    (a b c : Bool) → (not a && not b && not c) ≡ true → (a ≡ false) × (b ≡ false) × (c ≡ false)
plain_tests_of a b c h = ground arith

plain_tests :
    (v : Value) (vs : List Value)
    → writes_as_array (v ∷ vs) ≡ true
    → (is_empty_array v ≡ false) × (is_plist (v ∷ vs) ≡ false) × (is_alist (v ∷ vs) ≡ false)
unfolding writes_as_array
plain_tests v vs h = plain_tests_of (is_empty_array v) (is_plist (v ∷ vs)) (is_alist (v ∷ vs)) h

finish_plain :
    (e : Entry) (es : List Entry)
    → writes_as_array (map value_of (e ∷ es)) ≡ true
    → finish e es ≡ (do xs ← array_of (map json_of (e ∷ es)); some (array xs))
unfolding finish
finish_plain e es h = let (a, b, c) = plain_tests e.value (map value_of es) h in rw (a, b, c)

finish_named :
    (k : String) (v : Value) (j c : Option Json) (es : List Entry)
    → is_alist (map value_of es) ≡ true
    → (let e : Entry = record { value = cell (Value.text k) v; json = j; cdr_json = c } in
        finish e es ≡ (do fs ← object_of (map alist_entry (e ∷ es)); some (object fs)))
unfolding finish is_plist is_alist
finish_named k v j c [] h = refl
finish_named k v j c (x ∷ es) h = rw h

array_of-cons :
    {x : Json} {xs : Items} {j : Option Json} (js : List (Option Json))
    → j ≡ some x
    → array_of js ≡ some xs
    → array_of (j ∷ js) ≡ some (item x xs)
unfolding array_of
array_of-cons js h k = rw (h, k)

object_of-cons :
    {k : String} {x : Json} {fs : Fields} {j : Option Json} (es : List (String × Option Json))
    → has_key k fs ≡ false
    → j ≡ some x
    → object_of es ≡ some fs
    → object_of ((k, j) ∷ es) ≡ some (field k x fs)
unfolding object_of
object_of-cons es fresh h e = rw (h, e, fresh)

to_json-cell :
    (a d : Value) (es : List Entry)
    → entries d ≡ some es
    → to_json (cell a d) ≡ finish (entry_of a) es
unfolding to_json
to_json-cell a d es e = rw e

entries-cell :
    (a d : Value) (es : List Entry)
    → entries d ≡ some es
    → entries (cell a d) ≡ some (entry_of a ∷ es)
unfolding to_json
entries-cell a d es e = rw e

finish_tagged :
    (es : List Entry) {xs : Items}
    → array_of (map json_of es) ≡ some xs
    → finish (entry_of empty_array) es ≡ some (array xs)
unfolding finish
finish_tagged es e = rw e

-- both ways to write an array with items
tagged_lem :
    (x : Json) (xs : Items) (es : List Entry)
    → to_json (exact x) ≡ some x
    → entries (exact_list xs) ≡ some es
    → map value_of es ≡ exact_items xs
    → array_of (map json_of es) ≡ some xs
    → to_json (tagged (exact x ∷ exact_items xs) (cell (exact x) (exact_list xs)))
      ≡ some (array (item x xs))
unfolding tagged
tagged_lem x xs es ex e1 e2 e3 = elim (Bool-cases (writes_as_array (exact x ∷ exact_items xs))) [
  | inl plain ↦
      let values = ap (λ vs. writes_as_array (exact x ∷ vs)) e2 ∙ plain in
      rw plain (
        to_json-cell (exact x) (exact_list xs) es e1
        ∙ finish_plain (entry_of (exact x)) es values
        ∙ ap (λ r. r >>= λ ys. some (array ys)) (array_of-cons _ ex e3))
  | inr other ↦ rw other (
      to_json-cell empty_array _ _ (entries-cell (exact x) (exact_list xs) es e1)
      ∙ finish_tagged (entry_of (exact x) ∷ es) (array_of-cons _ ex e3))
]

to_json_cdr_lem :
    (k : String) (v : Value) {j : Json}
    → to_json v ≡ some j
    → to_json_cdr (cell (Value.text k) v) ≡ some j
unfolding to_json
to_json_cdr_lem k v h = h

named_lem :
    {k : String} {v : Json} {fs : Fields}
    → has_key k fs ≡ false
    → to_json (exact v) ≡ some v
    → Named fs
    → to_json (cell (cell (Value.text k) (exact v)) (exact_fields fs))
      ≡ some (object (field k v fs))
named_lem {k} {v} {fs} fresh h (es, e1, e2, e3) =
    to_json-cell (cell (Value.text k) (exact v)) (exact_fields fs) es e1
    ∙ finish_named k (exact v) _ _ es e2
    ∙ ap (λ r. r >>= λ gs. some (object gs))
        (object_of-cons _ fresh (to_json_cdr_lem k (exact v) h) e3)

number_lem : (n : Number) → is_finite n ≡ true → to_json (Value.number n) ≡ some (number n)
unfolding to_json
number_lem n h = rw h

Named-field :
    {k : String} {v : Json} {fs : Fields}
    → has_key k fs ≡ false
    → to_json (exact v) ≡ some v
    → Named fs
    → Named (field k v fs)
unfolding exact is_alist
Named-field {k} {v} {fs} fresh h (es, e1, e2, e3) =
    let a = cell (Value.text k) (exact v) in
    (
      entry_of a ∷ es,
      entries-cell a (exact_fields fs) es e1,
      e2,
      object_of-cons _ fresh (to_json_cdr_lem k (exact v) h) e3,
    )

mutual
  unfolding exact to_json array_of object_of is_alist

  to_json-IsJson : {j : Json} → IsJson j → to_json (exact j) ≡ some j
  to_json-IsJson a_null = refl
  to_json-IsJson (a_bool true) = refl
  to_json-IsJson (a_bool false) = refl
  to_json-IsJson (a_number n h) = number_lem n h
  to_json-IsJson (a_text s) = refl
  to_json-IsJson (an_array no_items) = refl
  to_json-IsJson (an_array (more_items {x} {xs} h hs)) =
      let (es, e1, e2, e3) = entries-AreJson hs in tagged_lem x xs es (to_json-IsJson h) e1 e2 e3
  to_json-IsJson (an_object no_fields) = refl
  to_json-IsJson (an_object (more_fields fresh h hs)) =
      named_lem fresh (to_json-IsJson h) (entries-HoldJson hs)

  entries-AreJson : {xs : Items} → AreJson xs → Listed xs
  entries-AreJson no_items = ([], refl, refl, refl)
  entries-AreJson (more_items {x} {xs} h hs) =
      let (es, e1, e2, e3) = entries-AreJson hs in
      (
        entry_of (exact x) ∷ es,
        entries-cell (exact x) (exact_list xs) es e1,
        ap (λ vs. exact x ∷ vs) e2,
        array_of-cons (map json_of es) (to_json-IsJson h) e3,
      )

  entries-HoldJson : {fs : Fields} → HoldJson fs → Named fs
  entries-HoldJson no_fields = ([], refl, refl, refl)
  entries-HoldJson (more_fields fresh h hs) =
      Named-field fresh (to_json-IsJson h) (entries-HoldJson hs)

-- lispToJson reads back, without loss, the Lisp value that exactJsonToLisp writes for a JSON
-- value, if no object has a key twice and every number is finite.
pub to_json-exact : (j : Json) → IsJson j → to_json (exact j) ≡ some j
to_json-exact j h = to_json-IsJson h
