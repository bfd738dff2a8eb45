-- ===== src/SplitLayout/Pruning.antt =====
-- packages/shared/src/split-layout.ts: what removes panes and tabs, and puts tabs into a pane.
use lisptc.Prelude.{
  ℕ, suc, ◌-◌, String, Bool, false, not, Option, none, some, List, [], ◌∷◌, ◌++◌, any, filter,
  ◌===◌, ◌==◌, ltb, if◌then◌else◌, length, take, drop, get_elem?,
}
use lisptc.SplitLayout.{
  Tab, Pane, Node, Nodes, pane, split, end, child, SplitLayout, Sizes, Direction, even, is_empty,
  size, panes, all_tabs,
}

-- `ids.includes(layout.focused ?? "")`
abbrev pub or_no_id : Option String → String
or_no_id none = ""
or_no_id (some id) = id

abbrev pub bounded : Option ℕ → ℕ → ℕ
bounded none n = n
bounded (some index) n = if ltb index n then index else n

abbrev pub is_active : String → Option String → Bool
is_active id none = false
is_active id (some active) = active === id

module _ {ℓ} {T : Type ℓ} where
  abbrev pub keep : Option (Node T) → Nodes T → Nodes T
  keep none rest = rest
  keep (some node) rest = child node rest

  -- a split over the children that were kept, of `before` many
  unfoldable pub settled : String → Direction → Sizes → ℕ → Nodes T → Option (Node T)
  settled id direction sizes before end = none
  settled id direction sizes before (child node end) = some node
  settled id direction sizes before (child one (child two rest)) = some (
      split id direction (child one (child two rest))
        (if suc (suc (size rest)) == before then sizes else even (suc (suc (size rest)))))

  unfoldable mutual
    pub settle : Node T → (Pane T → Bool) → Option (Node T)
    settle (pane p) gone = if gone p then none else some (pane p)
    settle (split id direction children sizes) gone =
        settled id direction sizes (size children) (settle_all children gone)

    pub settle_all : Nodes T → (Pane T → Bool) → Nodes T
    settle_all end gone = end
    settle_all (child node rest) gone = keep (settle node gone) (settle_all rest gone)

  abbrev pub emptied : Pane T → Bool
  emptied p = is_empty p.tabs

  abbrev pub keep_all : Pane T → Bool
  keep_all p = false

  abbrev pub settle_root : Option (Node T) → (Pane T → Bool) → Option (Node T)
  settle_root none gone = none
  settle_root (some root) gone = settle root gone

  abbrev pub first_id : List (Pane T) → Option String
  first_id [] = none
  first_id (p ∷ _) = some p.id

  unfoldable pub focus_among : Option String → List (Pane T) → Option String
  focus_among focused held =
      if any (λ p. p.id === or_no_id focused) held then focused else first_id held

  unfoldable pub rooted : Option (Node T) → Option (Node T)
  rooted root = if is_empty (all_tabs (record { root = root; focused = none })) then none else root

  unfoldable pub prune : SplitLayout T → (Pane T → Bool) → SplitLayout T
  prune layout gone =
      let root = rooted (settle_root layout.root gone) in
      record {
        root = root;
        focused = focus_among layout.focused (panes (record { root = root; focused = none }));
      }

  unfoldable pub without_id : String → List (Tab T) → List (Tab T)
  without_id id tabs = filter (λ t. not (t.id === id)) tabs

  unfoldable pub with_tab : Tab T → Option ℕ → Pane T → Pane T
  with_tab tab index p =
      let tabs = without_id tab.id p.tabs in
      let at = bounded index (length tabs) in
      record p { tabs = take at tabs ++ tab ∷ drop at tabs; active = some tab.id }

  unfoldable pub index_of : String → List (Tab T) → Option ℕ
  index_of id [] = none
  index_of id (t ∷ rest) =
      let later = index_of id rest in
      if t.id === id then some 0 else elim later [ none ↦ none | some at ↦ some (suc at) ]

  abbrev pub tab_id : Option (Tab T) → Option String
  tab_id none = none
  tab_id (some t) = some t.id

  unfoldable pub next_active : Pane T → String → ℕ → List (Tab T) → Option String
  next_active p id at tabs =
      if is_active id p.active
      then tab_id (get_elem? tabs (if ltb at (length tabs - 1) then at else length tabs - 1))
      else p.active

  unfoldable pub without_at : Pane T → String → Option ℕ → Pane T
  without_at p id none = p
  without_at p id (some at) =
      let tabs = without_id id p.tabs in record p { tabs = tabs; active = next_active p id at tabs }

  unfoldable pub without_tab : String → Pane T → Pane T
  without_tab id p = without_at p id (index_of id p.tabs)
