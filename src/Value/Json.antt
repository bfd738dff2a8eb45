-- ===== src/Value/Json.antt =====
-- packages/interpreter/src/objects.ts: JSON as Lisp values, read and written.
-- An object is its entries in the order of `Object.entries`; the move of integer-like keys to the
-- front, which a JavaScript object makes by itself, is not modelled.
pub mod RoundTrip
mod Tests
use lisptc.Prelude.{
  ℕ, zero, suc, ◌+◌, ◌-◌, ◌/◌, ◌%◌, ◌^◌, String, Bool, true, false, not, ◌&&◌, ◌||◌, Option, none,
  some, List, [], ◌∷◌, map, ◌===◌, ◌==◌, leb, if◌then◌else◌,
}
use lisptc.Prelude.Int.{ℤ, pos, negsuc}
use lisptc.Prelude.Fallible.{◌>>=◌}
use lisptc.Value.{Number, integral, real, Value, truth, bigint, sym, key, cell, arg}

mutual
  pub data Json : Type 0 where
    null : Json
    bool : Bool → Json
    number : Number → Json
    text : String → Json
    array : Items → Json
    object : Fields → Json

  pub data Items : Type 0 where
    nil : Items
    item : Json → Items → Items

  pub data Fields : Type 0 where
    end : Fields
    field : String → Json → Fields → Fields

abbrev pub json_false : Value
json_false = key "false"

abbrev pub empty_array : Value
empty_array = key "[]"

abbrev pub empty_object : Value
empty_object = key "{}"

-- `jsonToLisp` on a JSON value
unfoldable mutual
  pub json_to_lisp : Json → Value
  json_to_lisp null = Value.null
  json_to_lisp (bool true) = truth
  json_to_lisp (bool false) = Value.null
  json_to_lisp (number n) = Value.number n
  json_to_lisp (text s) = Value.text s
  json_to_lisp (array xs) = items_to_lisp xs
  json_to_lisp (object fs) = fields_to_lisp fs

  pub items_to_lisp : Items → Value
  items_to_lisp nil = Value.null
  items_to_lisp (item x xs) = cell (json_to_lisp x) (items_to_lisp xs)

  pub fields_to_lisp : Fields → Value
  fields_to_lisp end = Value.null
  fields_to_lisp (field k v fs) = cell (cell (Value.text k) (json_to_lisp v)) (fields_to_lisp fs)

-- What `lispToJson` may ask of an item of a list: the item, its own JSON, and that of its cdr.
pub record Entry : Type 0 where
  pub value : Value
  pub json : Option Json
  pub cdr_json : Option Json

abbrev pub is_key : Value → Bool
is_key (key _) = true
is_key _ = false

abbrev pub is_empty_array : Value → Bool
is_empty_array (key s) = s === "[]"
is_empty_array _ = false

-- a cell with a string car
abbrev pub is_named : Value → Bool
is_named (cell (Value.text _) _) = true
is_named _ = false

-- `isPlist`: an even number of items, with a keyword at each even place
unfoldable pub is_plist : List Value → Bool
is_plist [] = true
is_plist (x ∷ []) = false
is_plist (x ∷ y ∷ xs) = is_key x && is_plist xs

unfoldable pub is_alist : List Value → Bool
is_alist [] = true
is_alist (x ∷ xs) = is_named x && is_alist xs

abbrev pub starts_empty_array : List Value → Bool
starts_empty_array [] = false
starts_empty_array (x ∷ xs) = is_empty_array x

unfoldable pub writes_as_array : List Value → Bool
writes_as_array items =
    not (starts_empty_array items) && not (is_plist items) && not (is_alist items)

-- the branch of `exactJsonToLisp` for an array with items
unfoldable pub tagged : List Value → Value → Value
unfolding writes_as_array
tagged items list = if writes_as_array items then list else cell empty_array list

unfoldable mutual
  pub exact : Json → Value
  exact null = Value.null
  exact (bool true) = truth
  exact (bool false) = json_false
  exact (number n) = Value.number n
  exact (text s) = Value.text s
  exact (array nil) = empty_array
  exact (array (item x xs)) = tagged (exact x ∷ exact_items xs) (cell (exact x) (exact_list xs))
  exact (object end) = empty_object
  exact (object (field k v fs)) = cell (cell (Value.text k) (exact v)) (exact_fields fs)

  pub exact_items : Items → List Value
  exact_items nil = []
  exact_items (item x xs) = exact x ∷ exact_items xs

  pub exact_list : Items → Value
  exact_list nil = Value.null
  exact_list (item x xs) = cell (exact x) (exact_list xs)

  pub exact_fields : Fields → Value
  exact_fields end = Value.null
  exact_fields (field k v fs) = cell (cell (Value.text k) (exact v)) (exact_fields fs)

-- `Number.isFinite`: the exponent bits of a double are not all set
abbrev pub is_finite : Number → Bool
is_finite (integral n) = true
is_finite (real bits) = not (bits / 2 ^ 52 % 2 ^ 11 == 2047)

-- `Number.isSafeInteger`
abbrev pub is_safe : ℤ → Bool
is_safe (pos n) = leb n (2 ^ 53 - 1)
is_safe (negsuc n) = leb (n + 1) (2 ^ 53 - 1)

abbrev pub has_key : String → Fields → Bool
has_key k end = false
has_key k (field j v fs) = j === k || has_key k fs

-- `objectOf`: `none` where a key appears twice
unfoldable pub object_of : List (String × Option Json) → Option Fields
object_of [] = some end
object_of ((k, v) ∷ entries) = do
  x ← v
  fs ← object_of entries
  if has_key k fs then none else some (field k x fs)

unfoldable pub array_of : List (Option Json) → Option Items
array_of [] = some nil
array_of (v ∷ vs) = do x ← v; xs ← array_of vs; some (item x xs)

abbrev key_name : Value → String
key_name (key s) = s
key_name (cell (Value.text s) _) = s
key_name _ = ""

-- the entries of a plist: every second item is a value
unfoldable pub plist_entries : List Entry → List (String × Option Json)
plist_entries (k ∷ v ∷ es) = (key_name k.value, v.json) ∷ plist_entries es
plist_entries _ = []

abbrev alist_entry : Entry → String × Option Json
alist_entry e = (key_name e.value, e.cdr_json)

abbrev pub value_of : Entry → Value
value_of e = e.value

abbrev pub json_of : Entry → Option Json
json_of e = e.json

-- the end of `lispToJson`, on the items of a list
unfoldable pub finish : Entry → List Entry → Option Json
finish e es =
    let values = map value_of (e ∷ es) in
    if is_empty_array e.value
    then (do xs ← array_of (map json_of es); some (array xs))
    else if is_plist values
    then (do fs ← object_of (plist_entries (e ∷ es)); some (object fs))
    else if is_alist values
    then (do fs ← object_of (map alist_entry (e ∷ es)); some (object fs))
    else (do xs ← array_of (map json_of (e ∷ es)); some (array xs))

-- `lispToJson`, with `properItems` in the same recursion; `none` is a `TypeError`
unfoldable mutual
  pub to_json : Value → Option Json
  to_json Value.null = some null
  to_json truth = some (bool true)
  to_json (Value.text s) = some (text s)
  to_json (Value.number n) = if is_finite n then some (number n) else none
  to_json (bigint n) = if is_safe n then some (number (integral n)) else none
  to_json (key s) = some (
      if s === "false"
      then bool false
      else if s === "[]"
      then array nil
      else if s === "{}"
      then object end
      else text s)
  to_json (cell a d) = do
    es ← entries d
    finish (record { value = a; json = to_json a; cdr_json = to_json_cdr a }) es
  to_json _ = none

  pub to_json_cdr : Value → Option Json
  to_json_cdr (cell a d) = to_json d
  to_json_cdr _ = none

  pub entries : Value → Option (List Entry)
  entries Value.null = some []
  entries (cell a d) = do
    es ← entries d
    some (record { value = a; json = to_json a; cdr_json = to_json_cdr a } ∷ es)
  entries _ = none
