-- ===== src/Frames.antt =====
-- packages/interpreter/src/func.ts: the frame of a call, made from the arguments that it is given.
-- A function takes `fixed` arguments, of which the last are its keywords, and a list of the others if
-- it has a rest parameter. The texts of the errors are left out.
pub mod Plain
pub mod Slots
pub mod Keyed
pub mod Lengths
mod Tests
use lisptc.Prelude.{
  ℕ, zero, suc, ◌+◌, ◌-◌, String, Bool, true, false, not, Option, none, some, List, [], ◌∷◌, ◌++◌,
  any, length, set, replicate, ltb, ◌==◌, ◌===◌, ◌&&◌, ◌||◌, if◌then◌else◌,
}
use lisptc.Prelude.Result.{Result, ok, err, ◌>>=◌}
use lisptc.Value.{Value, null, key, cell}

-- `carity` is the number of all parameters, negative where the last is a rest parameter.
pub record Func : Type 0 where
  pub fixed : ℕ
  pub has_rest : Bool
  pub keys : List String

pub data CallError : Type 0 where
  arity_not_matched proper_list_expected : CallError
  keyword_expected no_such_keyword keyword_without_value given_twice : CallError

abbrev pub Called : Type 0 → Type 0
Called A = Result CallError A

-- `cdrCell`
abbrev pub as_list : Value → Called Value
as_list null = ok null
as_list (cell x rest) = ok (cell x rest)
as_list _ = err proper_list_expected

-- `ArityException`, which counts the arguments first
unfoldable pub arity_error : Value → CallError
arity_error null = arity_not_matched
arity_error (cell _ rest) = arity_error rest
arity_error _ = proper_list_expected

abbrev pub with_first : Value → Option (List Value × Value) → Option (List Value × Value)
with_first x none = none
with_first x (some (values, left)) = some (x ∷ values, left)

-- the loop of `makeFrame`: the values taken, and the arguments left; `none` if they run out
unfoldable pub take_fixed : ℕ → Value → Called (Option (List Value × Value))
take_fixed zero left = ok (some ([], left))
take_fixed (suc n) (cell x rest) =
    let later = take_fixed n rest in
    as_list rest >>= λ _. later >>= λ taken. ok (with_first x taken)
take_fixed (suc n) _ = ok none

abbrev pub is_null : Value → Bool
is_null null = true
is_null _ = false

abbrev pub finish_plain : Func → Value → Option (List Value × Value) → Called (List Value)
finish_plain f supplied none = err (arity_error supplied)
finish_plain f supplied (some (values, left)) =
    if f.has_rest
    then ok (values ++ left ∷ [])
    else if is_null left
    then ok values
    else err (arity_error supplied)

unfoldable pub plain_frame : Func → Value → Called (List Value)
plain_frame f supplied = take_fixed f.fixed supplied >>= finish_plain f supplied

abbrev pub is_key : Value → Bool
is_key (key _) = true
is_key _ = false

abbrev pub starts_pairs : Value → Bool
starts_pairs null = true
starts_pairs (cell x _) = is_key x
starts_pairs _ = false

abbrev with_value : Value → List Value × Value → Called (List Value × Value)
with_value x (values, left) = ok (x ∷ values, left)

-- the arguments in front of the first keyword, at most as many as there are parameters
unfoldable pub take_values : ℕ → Value → Called (List Value × Value)
take_values zero left = ok ([], left)
take_values (suc n) (cell x rest) =
    let later = take_values n rest in
    if is_key x then ok ([], cell x rest) else as_list rest >>= λ _. later >>= with_value x
take_values (suc n) left = ok ([], left)

unfoldable pub required : Func → ℕ
required f = f.fixed - length f.keys

abbrev pub next_of : Option ℕ → Option ℕ
next_of none = none
next_of (some at) = some (suc at)

-- `indexOf`
unfoldable pub offset_of : String → List String → Option ℕ
offset_of name [] = none
offset_of name (k ∷ keys) =
    let later = offset_of name keys in if k === name then some 0 else next_of later

abbrev pub mem : ℕ → List ℕ → Bool
mem n ns = any (λ m. m == n) ns

abbrev pub below : ℕ → List ℕ
below zero = []
below (suc n) = n ∷ below n

abbrev pub on_slot : Option ℕ → (ℕ → Called (List Value)) → Called (List Value)
on_slot none put = err no_such_keyword
on_slot (some at) put = put at

-- the keywords and their values, put into the frame where no argument was taken before
unfoldable pub give : Func → List ℕ → List Value → Value → Called (List Value)
give f taken frame null = ok frame
give f taken frame (cell (key name) null) =
    on_slot (offset_of name f.keys) (λ at. err keyword_without_value)
give f taken frame (cell (key name) (cell x rest)) = on_slot (offset_of name f.keys) (λ at.
    if mem (required f + at) taken
    then err given_twice
    else as_list rest >>= λ _.
        give f ((required f + at) ∷ taken) (set frame (required f + at) x) rest)
give f taken frame (cell (key name) _) =
    on_slot (offset_of name f.keys) (λ at. err proper_list_expected)
give f taken frame (cell _ _) = err keyword_expected
give f taken frame _ = err proper_list_expected

abbrev pub finish_keyed : Func → Value → List Value × Value → Called (List Value)
finish_keyed f supplied (values, left) =
    if ltb (length values) (required f) || not (starts_pairs left)
    then err (arity_error supplied)
    else give f (below (length values)) (values ++ replicate (f.fixed - length values) null) left

unfoldable pub keyed_frame : Func → Value → Called (List Value)
keyed_frame f supplied = take_values f.fixed supplied >>= finish_keyed f supplied

abbrev pub has_keys : List String → Bool
has_keys [] = false
has_keys (_ ∷ _) = true

unfoldable pub make_frame : Func → Value → Called (List Value)
make_frame f supplied = if has_keys f.keys then keyed_frame f supplied else plain_frame f supplied
