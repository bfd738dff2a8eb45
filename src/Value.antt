-- ===== src/Value.antt =====
-- packages/interpreter/src/objects.ts: the values that the reader builds and the evaluator works on.
-- A symbol is interned, so it is its name; `null` is both the empty list and false.
pub mod Json
use lisptc.Prelude.{ℕ, String, Bool, true, false, List, [], ◌∷◌}
use lisptc.Prelude.Int.{ℤ}

-- A JavaScript number: an integral one, or the bits of any other double.
pub data Number : Type 0 where
  integral : ℤ → Number
  real : ℕ → Number

-- `arg` is the resolved variable of func.ts, and `object` any other host value, by its identity.
pub data Value : Type 0 where
  null truth : Value
  number : Number → Value
  bigint : ℤ → Value
  text : String → Value
  sym key : String → Value
  cell : Value → Value → Value
  arg : ℕ → ℕ → String → Value
  object : ℕ → Value

abbrev pub is_cell : Value → Bool
is_cell (cell _ _) = true
is_cell _ = false

unfoldable pub array_to_list : List Value → Value
array_to_list [] = null
array_to_list (x ∷ xs) = cell x (array_to_list xs)
