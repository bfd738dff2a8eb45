-- ===== src/Compile/Scoped/Scanned.antt =====
-- Scanning a form for one more scope.
use lisptc.Prelude.{
  ℕ, zero, suc, ◌-◌, ◌+◌, ◌<◌, ◌≡◌, refl, String, false, Option, none, some, [], ◌∷◌, length, ◌==◌,
  ◌===◌, Bool-cases, Option-cases, inl, inr, arith,
}
use lisptc.Prelude.Dict
use lisptc.Value as V
use lisptc.Value.{Value, null, cell, arg, is_cell}
use lisptc.Compile.{
  Table, ArgTable, is_sym, is_unquote, found_or, scan_for_args, scan_items, scan_for_qq,
  scan_qq_items,
}
use lisptc.Compile.Params.{IsNumbered}
use lisptc.Compile.Scopes.Heads.{cells-is_sym, deep-is_sym}
use lisptc.Compile.Scoped.{
  Slots, HasSlot, here, there, IsPlain, Scoped, ScopedItems, ScopedQq, ScopedQqItems, plain, slot,
  quotation, template, form, ends, item, datum, deeper, hole, higher, list, data_end, data_item,
}

found_or-is_sym :
    (found : Option ℕ) (name k : String) (x : Value)
    → is_sym k x ≡ false
    → is_sym k (found_or found name x) ≡ false
found_or-is_sym none name k x h = h
found_or-is_sym (some offset) name k x h = refl

scan-is_sym :
    (t : Table) (k : String) (x : Value) → is_sym k x ≡ false → is_sym k (scan_for_args x t) ≡ false
unfolding scan_for_args
scan-is_sym t k (V.sym name) h = found_or-is_sym (Dict.get name t) name k (V.sym name) h
scan-is_sym t k (arg level offset name) h =
    found_or-is_sym (Dict.get name t) name k (arg (suc level) offset name) refl
scan-is_sym t k (cell head rest) h =
    cells-is_sym k (is_sym "quote" head) (is_sym "quasiquote" head) _ _ _ _ _ _
scan-is_sym t k _ h = refl

scan_qq-is_sym :
    (t : Table) (k : String) (x : Value) (level : ℕ)
    → is_sym k x ≡ false
    → is_sym k (scan_for_qq x t level) ≡ false
unfolding scan_for_qq
scan_qq-is_sym t k (cell head rest) level h =
    deep-is_sym k (is_sym "quasiquote" head) (is_unquote head) (level == 0) _ _ _ _ _ _ _ _
scan_qq-is_sym t k (V.sym name) level h = h
scan_qq-is_sym t k _ level h = refl

scan_qq-is_unquote :
    (t : Table) (x : Value) (level : ℕ)
    → is_unquote x ≡ false
    → is_unquote (scan_for_qq x t level) ≡ false
scan_qq-is_unquote t x level h =
    let plain : is_sym "unquote" x ≡ false = ground (arith, h) in
    let splicing : is_sym "unquote-splicing" x ≡ false = ground (arith, h) in
    rw
      (
        scan_qq-is_sym t "unquote" x level plain,
        scan_qq-is_sym t "unquote-splicing" x level splicing,
      )
      refl

-- what is no cell is left alone behind the items of a list, and in a template
abbrev IsLeft : Table → Value → Type 0
IsLeft t x =
    (scan_items x t ≡ x)
    × ((level : ℕ) → (scan_for_qq x t level ≡ x) × (scan_qq_items x t level ≡ x))

left : (t : Table) (x : Value) → is_cell x ≡ false → IsLeft t x
unfolding scan_items
left t (cell _ _) h = ground arith
left t _ h = (refl, λ level. (refl, refl))

-- the offsets of a table are below its length
get-IsNumbered :
    (n : ℕ) (t : Table) (name : String) (offset : ℕ)
    → IsNumbered n t
    → Dict.get name t ≡ some offset
    → offset < n + length t
unfolding Dict.get
get-IsNumbered n [] name offset h e = ground arith
get-IsNumbered n ((other, o) ∷ t) name offset (place, once, h) e =
    elim (Bool-cases (other === name)) [
      | inl same ↦
          let found : some o ≡ some offset = rw same at e in
          let at : o ≡ offset = ground (arith, found) in omega (arith, at, place)
      | inr apart ↦
          let later : Dict.get name t ≡ some offset = rw apart at e in
          omega (arith, get-IsNumbered (suc n) t name offset h later)
    ]

module _ (t : ArgTable) (numbered : IsNumbered 0 t.table) (long : length t.table ≡ t.arity) where
  slot-get :
      (ns : Slots) (name : String) (offset : ℕ)
      → Dict.get name t.table ≡ some offset
      → HasSlot (t.arity ∷ ns) 0 offset
  slot-get ns name offset e =
      let below = get-IsNumbered 0 t.table name offset numbered e in
      here (ground (arith, below, long))

  found-Scoped :
      {ns : Slots} (name : String) (x : Value)
      → Scoped (t.arity ∷ ns) x
      → Scoped (t.arity ∷ ns) (found_or (Dict.get name t.table) name x)
  found-Scoped {ns} name x h = elim (Option-cases (Dict.get name t.table)) [
    | inl e ↦ rw e h
    | inr (offset, e) ↦ rw e (slot (slot-get ns name offset e))
  ]

  plain-Scoped :
      {ns : Slots} (x : Value) → IsPlain x → Scoped (t.arity ∷ ns) (scan_for_args x t.table)
  unfolding scan_for_args
  plain-Scoped (V.sym name) h = found-Scoped name (V.sym name) (plain tt)
  plain-Scoped (arg _ _ _) h = elim h [ ]
  plain-Scoped (cell _ _) h = elim h [ ]
  plain-Scoped _ h = plain tt

  mutual
    unfolding scan_for_args

    pub scan-Scoped :
        {ns : Slots} (x : Value) → Scoped ns x → Scoped (t.arity ∷ ns) (scan_for_args x t.table)
    scan-Scoped x (plain h) = plain-Scoped x h
    scan-Scoped (arg level offset name) (slot h) =
        found-Scoped name (arg (suc level) offset name) (slot (there h))
    scan-Scoped (cell head rest) (quotation q) = rw q (quotation q)
    scan-Scoped (cell head rest) (template q qq h) =
        rw (q, qq) (template q qq (scan_qq-Scoped 0 rest h))
    scan-Scoped (cell head rest) (form q qq h k) =
        rw (q, qq)
          (form (scan-is_sym t.table "quote" head q) (scan-is_sym t.table "quasiquote" head qq)
            (scan-Scoped head h) (scan_items-Scoped rest k))

    scan_items-Scoped :
        {ns : Slots} (x : Value)
        → ScopedItems ns x
        → ScopedItems (t.arity ∷ ns) (scan_items x t.table)
    scan_items-Scoped x (ends h) = rw ((left t.table x h).0) (ends h)
    scan_items-Scoped (cell head rest) (item h k) =
        item (scan-Scoped head h) (scan_items-Scoped rest k)

    scan_qq-Scoped :
        {ns : Slots} (level : ℕ) (x : Value)
        → ScopedQq ns level x
        → ScopedQq (t.arity ∷ ns) level (scan_for_qq x t.table level)
    scan_qq-Scoped level x (datum h) = rw (((left t.table x h).1 level).0) (datum h)
    scan_qq-Scoped level (cell head rest) (deeper qq h) =
        rw qq (deeper qq (scan_qq-Scoped (suc level) rest h))
    scan_qq-Scoped zero (cell head rest) (hole qq u h) = rw (qq, u) (hole qq u (scan-Scoped rest h))
    scan_qq-Scoped (suc level) (cell head rest) (higher qq u h) =
        let inside : (suc level == 0) ≡ false = ground arith in
        let out : suc level - 1 ≡ level = omega arith in
        rw (qq, u, inside, out) (higher qq u (scan_qq-Scoped level rest h))
    scan_qq-Scoped level (cell head rest) (list qq u h k) =
        rw (qq, u)
          (list (scan_qq-is_sym t.table "quasiquote" head level qq)
            (scan_qq-is_unquote t.table head level u) (scan_qq-Scoped level head h)
            (scan_qq_items-Scoped level rest k))

    scan_qq_items-Scoped :
        {ns : Slots} (level : ℕ) (x : Value)
        → ScopedQqItems ns level x
        → ScopedQqItems (t.arity ∷ ns) level (scan_qq_items x t.table level)
    scan_qq_items-Scoped level x (data_end h) = rw (((left t.table x h).1 level).1) (data_end h)
    scan_qq_items-Scoped level (cell head rest) (data_item h k) =
        data_item (scan_qq-Scoped level head h) (scan_qq_items-Scoped level rest k)
