-- ===== src/Compile/Scoped.antt =====
-- Which slots the variables of a compiled form may name: those of the scopes round it.
pub mod Scanned
pub mod Nested
use lisptc.Prelude.{ℕ, zero, suc, ◌≡◌, String, true, false, List, ◌∷◌, ltb}
use lisptc.Value.{Value, cell, arg, is_cell}
use lisptc.Compile.{is_sym, is_unquote}

-- the scopes, the innermost first, by the numbers of their slots
abbrev pub Slots : Type 0
Slots = List ℕ

-- the scope `level` has a slot `offset`
pub data HasSlot : Slots → ℕ → ℕ → Type 0 where
  here : {n offset : ℕ} {ns : Slots} → ltb offset n ≡ true → HasSlot (n ∷ ns) zero offset
  there :
      {n level offset : ℕ} {ns : Slots}
      → HasSlot ns level offset
      → HasSlot (n ∷ ns) (suc level) offset

abbrev pub IsPlain : Value → Type 0
IsPlain (arg _ _ _) = ⊥
IsPlain (cell _ _) = ⊥
IsPlain _ = Unit

-- Nothing under a quote is a variable, and under a quasiquote what is as many unquotes deep.
mutual
  pub data Scoped (ns : Slots) : Value → Type 0 where
    plain : {x : Value} → IsPlain x → Scoped ns x
    slot :
        {level offset : ℕ} {name : String}
        → HasSlot ns level offset
        → Scoped ns (arg level offset name)
    quotation : {head rest : Value} → is_sym "quote" head ≡ true → Scoped ns (cell head rest)
    template :
        {head rest : Value}
        → is_sym "quote" head ≡ false
        → is_sym "quasiquote" head ≡ true
        → ScopedQq ns zero rest
        → Scoped ns (cell head rest)
    form :
        {head rest : Value}
        → is_sym "quote" head ≡ false
        → is_sym "quasiquote" head ≡ false
        → Scoped ns head
        → ScopedItems ns rest
        → Scoped ns (cell head rest)

  pub data ScopedItems (ns : Slots) : Value → Type 0 where
    ends : {x : Value} → is_cell x ≡ false → ScopedItems ns x
    item :
        {head rest : Value} → Scoped ns head → ScopedItems ns rest → ScopedItems ns (cell head rest)

  pub data ScopedQq (ns : Slots) : ℕ → Value → Type 0 where
    datum : {level : ℕ} {x : Value} → is_cell x ≡ false → ScopedQq ns level x
    deeper :
        {level : ℕ} {head rest : Value}
        → is_sym "quasiquote" head ≡ true
        → ScopedQq ns (suc level) rest
        → ScopedQq ns level (cell head rest)
    hole :
        {head rest : Value}
        → is_sym "quasiquote" head ≡ false
        → is_unquote head ≡ true
        → Scoped ns rest
        → ScopedQq ns zero (cell head rest)
    higher :
        {level : ℕ} {head rest : Value}
        → is_sym "quasiquote" head ≡ false
        → is_unquote head ≡ true
        → ScopedQq ns level rest
        → ScopedQq ns (suc level) (cell head rest)
    list :
        {level : ℕ} {head rest : Value}
        → is_sym "quasiquote" head ≡ false
        → is_unquote head ≡ false
        → ScopedQq ns level head
        → ScopedQqItems ns level rest
        → ScopedQq ns level (cell head rest)

  pub data ScopedQqItems (ns : Slots) : ℕ → Value → Type 0 where
    data_end : {level : ℕ} {x : Value} → is_cell x ≡ false → ScopedQqItems ns level x
    data_item :
        {level : ℕ} {head rest : Value}
        → ScopedQq ns level head
        → ScopedQqItems ns level rest
        → ScopedQqItems ns level (cell head rest)
