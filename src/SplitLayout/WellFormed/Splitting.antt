-- ===== src/SplitLayout/WellFormed/Splitting.antt =====
-- Opening a tab on an edge of a node keeps a layout well-formed.
use lisptc.Prelude.{
  suc, ◌≡◌, refl, ap, String, Bool, true, false, Option, none, some, [], ◌∷◌, ◌===◌, if◌then◌else◌,
  arith, Bool-cases, inl, inr,
}
use lisptc.SplitLayout.{
  Tab, Pane, Node, Nodes, pane, split, end, child, SplitLayout, Direction, Edge, right, bottom,
  Parent, even, nodes_of, node_id, size, next_id,
}
use lisptc.SplitLayout.Placing.{
  Placement, at_focus, to_right, to_down, in_pane, full, axis_of, is_after, same_direction,
  add_last, add_beside, fallback, widened, paired, split_node, split_in_parent, split_self,
  split_root, split_at, open_tab, fresh_pane,
}
use lisptc.SplitLayout.WellFormed.{
  IsWellFormed, AllWellFormed, OnSome, HasGoodShape, find-OnSome, length-even, map_node-WellFormed,
  parent_of-HasGoodShape, nodes_of-WellFormed,
}
use lisptc.SplitLayout.WellFormed.Opening.{HasGoodRoot, open_in-HasGoodRoot, open_by-HasGoodRoot}

module _ {ℓ} {T : Type ℓ} where
  size-add_last :
      (children : Nodes T) (node : Node T) → size (add_last children node) ≡ suc (size children)
  size-add_last end node = refl
  size-add_last (child first rest) node = ap suc (size-add_last rest node)

  add_last-WellFormed :
      (children : Nodes T) (node : Node T)
      → AllWellFormed children
      → IsWellFormed node
      → AllWellFormed (add_last children node)
  add_last-WellFormed end node h k = (k, tt)
  add_last-WellFormed (child first rest) node (h, t) k = (h, add_last-WellFormed rest node t k)

  -- one more child, and they are all well-formed
  abbrev Grown : Nodes T → Nodes T → Type 0
  Grown children more = (size more ≡ suc (size children)) × AllWellFormed more

  add_beside-Grown :
      (after : Bool) (id : String) (node : Node T) (children : Nodes T)
      → AllWellFormed children
      → IsWellFormed node
      → Grown children (add_beside after id node children)
  unfolding add_beside
  add_beside-Grown after id node end h k = (refl, (k, tt))
  add_beside-Grown after id node (child first rest) (h, t) k =
      ground (arith, add_beside-Grown after id node rest t k)

  Grown-at_end :
      (after : Bool) (children : Nodes T) (node : Node T)
      → AllWellFormed children
      → IsWellFormed node
      → Grown children (if after then add_last children node else child node children)
  Grown-at_end true children node h k =
      (size-add_last children node, add_last-WellFormed children node h k)
  Grown-at_end false children node h k = (refl, (k, h))

  widened-HasGoodRoot :
      (layout : SplitLayout T) (root : Node T) (at : String) (tab : Tab T) (fresh : Pane T)
      (parent : Parent T) (more : Nodes T)
      → layout.root ≡ some root
      → HasGoodRoot layout
      → IsWellFormed root
      → HasGoodShape parent
      → Grown parent.children more
      → HasGoodRoot (widened layout root at tab fresh parent more)
  unfolding widened fallback
  widened-HasGoodRoot layout root at tab fresh parent more e h good (two, sized, _) (one, all) =
      elim (Bool-cases (full parent.direction (size parent.children))) [
        | inl full ↦ rw full (open_in-HasGoodRoot layout tab _ h)
        | inr room ↦ rw room (
            map_node-WellFormed root parent.id _
              (λ n _. (omega (arith, one, two), length-even (size more), all)) good)
      ]

  paired-WellFormed :
      (after : Bool) (n : Node T) (p : Pane T) (id : String) (direction : Direction)
      → IsWellFormed n
      → IsWellFormed (split id direction (paired after n (pane p)) (even 2))
  paired-WellFormed true n p id direction h = (omega arith, length-even 2, (h, (tt, tt)))
  paired-WellFormed false n p id direction h = (omega arith, length-even 2, (tt, (h, tt)))

  split_node-HasGoodRoot :
      (layout : SplitLayout T) (root : Node T) (at : String) (edge : Edge) (fresh : Pane T)
      → IsWellFormed root
      → HasGoodRoot (split_node layout root at edge fresh)
  unfolding split_node
  split_node-HasGoodRoot layout root at edge fresh good =
      map_node-WellFormed root at _
        (λ n h.
          paired-WellFormed (is_after edge) n fresh (next_id layout "s" (fresh.id ∷ []))
            (axis_of edge) h)
        good

  split_in_parent-HasGoodRoot :
      (layout : SplitLayout T) (root : Node T) (at : String) (edge : Edge) (tab : Tab T)
      (fresh : Pane T) (parent : Option (Parent T))
      → layout.root ≡ some root
      → HasGoodRoot layout
      → IsWellFormed root
      → OnSome HasGoodShape parent
      → HasGoodRoot (split_in_parent layout root at edge tab fresh parent)
  unfolding split_in_parent
  split_in_parent-HasGoodRoot layout root at edge tab fresh none e h good k =
      split_node-HasGoodRoot layout root at edge fresh good
  split_in_parent-HasGoodRoot layout root at edge tab fresh (some parent) e h good k =
      elim (Bool-cases (same_direction parent.direction (axis_of edge))) [
        | inl same ↦ rw same (
            widened-HasGoodRoot layout root at tab fresh parent _ e h good k
              (add_beside-Grown (is_after edge) at (pane fresh) parent.children k.2 tt))
        | inr other ↦ rw other (split_node-HasGoodRoot layout root at edge fresh good)
      ]

  pub split_self-HasGoodRoot :
      (layout : SplitLayout T) (root : Node T) (at : String) (edge : Edge) (tab : Tab T)
      (fresh : Pane T) (self : Option (Node T))
      → layout.root ≡ some root
      → HasGoodRoot layout
      → IsWellFormed root
      → OnSome IsWellFormed self
      → HasGoodRoot (split_self layout root at edge tab fresh self)
  unfolding split_self
  split_self-HasGoodRoot layout root at edge tab fresh none e h good k =
      open_in-HasGoodRoot layout tab none h
  split_self-HasGoodRoot layout root at edge tab fresh (some (pane p)) e h good k =
      split_in_parent-HasGoodRoot layout root at edge tab fresh _ e h good
        (parent_of-HasGoodShape root at good)
  split_self-HasGoodRoot layout root at edge tab fresh (some (split id direction children sizes)) e
        h good k =
      elim (Bool-cases (same_direction direction (axis_of edge))) [
        | inl same ↦ rw same (
            widened-HasGoodRoot layout root at tab fresh _ _ e h good k
              (Grown-at_end (is_after edge) children (pane fresh) k.2 tt))
        | inr other ↦ rw other (
            split_in_parent-HasGoodRoot layout root at edge tab fresh _ e h good
              (parent_of-HasGoodShape root at good))
      ]

  split_root-HasGoodRoot :
      (layout : SplitLayout T) (at : String) (edge : Edge) (tab : Tab T) (root : Option (Node T))
      → layout.root ≡ root
      → HasGoodRoot layout
      → OnSome IsWellFormed root
      → HasGoodRoot (split_root layout at edge tab root)
  unfolding split_root
  split_root-HasGoodRoot layout at edge tab none e h k = open_in-HasGoodRoot layout tab none h
  split_root-HasGoodRoot layout at edge tab (some root) e h k =
      split_self-HasGoodRoot layout root at edge tab (fresh_pane layout tab) _ e h k (
        find-OnSome IsWellFormed (λ n. node_id n === at) (nodes_of root)
          (nodes_of-WellFormed root k))

  pub split_at-HasGoodRoot :
      (layout : SplitLayout T) (at : String) (edge : Edge) (tab : Tab T)
      → HasGoodRoot layout
      → HasGoodRoot (split_at layout at edge tab)
  unfolding split_at
  split_at-HasGoodRoot layout at edge tab h =
      split_root-HasGoodRoot layout at edge tab layout.root refl h h

  pub open_tab-HasGoodRoot :
      (layout : SplitLayout T) (tab : Tab T) (placement : Placement)
      → HasGoodRoot layout
      → HasGoodRoot (open_tab layout tab placement)
  unfolding open_tab
  open_tab-HasGoodRoot layout tab at_focus h = open_in-HasGoodRoot layout tab none h
  open_tab-HasGoodRoot layout tab to_right h =
      open_by-HasGoodRoot _ layout tab (λ p. split_at-HasGoodRoot layout p.id right tab h) h
  open_tab-HasGoodRoot layout tab to_down h =
      open_by-HasGoodRoot _ layout tab (λ p. split_at-HasGoodRoot layout p.id bottom tab h) h
  open_tab-HasGoodRoot layout tab (in_pane id) h = open_in-HasGoodRoot layout tab (some id) h
