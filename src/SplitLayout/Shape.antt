-- ===== src/SplitLayout/Shape.antt =====
-- packages/shared/src/split-layout.ts: `joinPane`, `flip` and `resizeSplit`.
use lisptc.Prelude.{
  ℕ, suc, String, Option, none, some, List, [], ◌∷◌, ◌++◌, find, ◌===◌, if◌then◌else◌, get_elem?,
}
use lisptc.Prelude.Dict
use lisptc.Prelude.Dict.{Dict}
use lisptc.SplitLayout.{
  Pane, Node, Nodes, pane, split, end, child, SplitLayout, Sizes, Fraction, Parent, nodes, panes,
  panes_among, map_node, map_pane, map_root, node_id, parent_of,
}
use lisptc.SplitLayout.Pruning.{prune}
use lisptc.SplitLayout.Placing.{flipped, focus_in}
use lisptc.SplitLayout.Moving.{is_named}

abbrev pub or_active : Option String → Option String → Option String
or_active none active = active
or_active (some id) active = some id

abbrev pub given_or : Option Fraction → Option (Option Fraction) → Option Fraction
given_or none none = none
given_or none (some size) = size
given_or (some size) held = some size

module _ {ℓ} {T : Type ℓ} where
  abbrev pub parent_in : Option (Node T) → String → Option (Parent T)
  parent_in none id = none
  parent_in (some root) id = parent_of root id

  abbrev pub first_child : Nodes T → Option (Node T)
  first_child end = none
  first_child (child node rest) = some node

  abbrev pub or_node : Option (Node T) → Option (Node T) → Option (Node T)
  or_node none other = other
  or_node (some node) other = some node

  -- the child before the first of that id, or else the one after it
  unfoldable pub sibling : Option (Node T) → String → Nodes T → Option (Node T)
  sibling before id end = before
  sibling before id (child node rest) =
      let later = sibling (some node) id rest in
      if node_id node === id then or_node before (first_child rest) else later

  abbrev pub first_pane : List (Pane T) → Option (Pane T)
  first_pane [] = none
  first_pane (p ∷ _) = some p

  abbrev pub take_over : Pane T → Pane T → Pane T
  take_over leaving p = record p {
    tabs = p.tabs ++ leaving.tabs;
    active = or_active leaving.active p.active;
  }

  abbrev pub vacate : Pane T → Pane T
  vacate p = record p { tabs = []; active = none }

  unfoldable pub join_into :
      SplitLayout T → String → Option (Pane T) → Option (Pane T) → SplitLayout T
  join_into layout pane_id none leaving = layout
  join_into layout pane_id (some into) none = layout
  join_into layout pane_id (some into) (some leaving) =
      prune
        (focus_in (map_pane (map_pane layout into.id (take_over leaving)) pane_id vacate) into.id)
        (is_named pane_id)

  unfoldable pub join_found : SplitLayout T → String → Option (Parent T) → SplitLayout T
  join_found layout pane_id none = layout
  join_found layout pane_id (some parent) =
      join_into layout pane_id
        (first_pane (panes_among (nodes (sibling none pane_id parent.children))))
        (find (is_named pane_id) (panes layout))

  unfoldable pub join_pane : SplitLayout T → String → SplitLayout T
  join_pane layout pane_id = join_found layout pane_id (parent_in layout.root pane_id)

  unfoldable pub flip_found : SplitLayout T → Option (Parent T) → SplitLayout T
  flip_found layout none = layout
  flip_found layout (some parent) = record layout {
    root =
        map_root
          (λ root.
            map_node root parent.id
              (λ _. split parent.id (flipped parent.direction) parent.children parent.sizes))
          layout.root;
  }

  unfoldable pub flip : SplitLayout T → String → SplitLayout T
  flip layout pane_id = flip_found layout (parent_in layout.root pane_id)

  -- one size for each child, from index `i` on
  unfoldable pub resized : Dict Fraction → Sizes → ℕ → Nodes T → Sizes
  resized given held i end = []
  resized given held i (child node rest) =
      given_or (Dict.get (node_id node) given) (get_elem? held i) ∷ resized given held (suc i) rest

  unfoldable pub resize_node : Dict Fraction → Node T → Node T
  resize_node given (pane p) = pane p
  resize_node given (split id direction children sizes) =
      split id direction children (resized given sizes 0 children)

  unfoldable pub resize_split : SplitLayout T → String → Dict Fraction → SplitLayout T
  resize_split layout split_id given = record layout {
    root = map_root (λ root. map_node root split_id (resize_node given)) layout.root;
  }
