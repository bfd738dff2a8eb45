-- ===== src/SplitLayout/Placing.antt =====
-- packages/shared/src/split-layout.ts: the operations of a layout.
-- `splitAt` falls back on `openTab` at a pane or at the focus, where `openTab` splits nothing:
-- `open_in` is that part of `openTab`, so that neither needs the other.
use lisptc.Prelude.{
  ℕ, String, Bool, true, false, Option, none, some, List, [], ◌∷◌, map, any, find, ◌===◌, leb,
  if◌then◌else◌,
}
use lisptc.SplitLayout.{
  Tab, Pane, Node, Nodes, pane, split, end, child, SplitLayout, Direction, row, column, Edge, left,
  right, top, bottom, Parent, even, size, nodes_of, panes, pane_of, next_id, map_node, map_pane,
  node_id, parent_of,
}
use lisptc.SplitLayout.Pruning.{with_tab}

pub data Placement : Type 0 where
  at_focus to_right to_down : Placement
  in_pane : String → Placement

pub data Drop : Type 0 where
  onto : String → Option ℕ → Drop
  pane_edge node_edge : String → Edge → Drop

unfoldable pub full : Direction → ℕ → Bool
full row count = false
full column count = leb 3 count

unfoldable pub axis_of : Edge → Direction
axis_of left = row
axis_of right = row
axis_of top = column
axis_of bottom = column

abbrev pub is_after : Edge → Bool
is_after left = false
is_after right = true
is_after top = false
is_after bottom = true

abbrev pub same_direction : Direction → Direction → Bool
same_direction row row = true
same_direction row column = false
same_direction column row = false
same_direction column column = true

abbrev pub flipped : Direction → Direction
flipped row = column
flipped column = row

abbrev pub is_id : Option String → String → Bool
is_id none id = false
is_id (some focused) id = id === focused

module _ {ℓ} {T : Type ℓ} where
  abbrev pub add_last : Nodes T → Node T → Nodes T
  add_last end node = child node end
  add_last (child first rest) node = child first (add_last rest node)

  -- beside the first child of that id, which `parentOf` has found
  unfoldable pub add_beside : Bool → String → Node T → Nodes T → Nodes T
  add_beside after id node end = child node end
  add_beside after id node (child first rest) =
      let later = add_beside after id node rest in
      if node_id first === id
      then if after then child first (child node rest) else child node (child first rest)
      else child first later

  unfoldable pub focus_in : SplitLayout T → String → SplitLayout T
  focus_in layout pane_id = record layout { focused = some pane_id }

  unfoldable pub fresh_pane : SplitLayout T → Tab T → Pane T
  fresh_pane layout tab = record {
    id = next_id layout "p" [];
    tabs = tab ∷ [];
    active = some tab.id;
  }

  abbrev pub activate : String → Pane T → Pane T
  activate tab_id p = record p { active = some tab_id }

  unfoldable pub focus_found : SplitLayout T → String → Option (Pane T) → SplitLayout T
  focus_found layout tab_id none = layout
  focus_found layout tab_id (some p) = focus_in (map_pane layout p.id (activate tab_id)) p.id

  unfoldable pub focus_tab : SplitLayout T → String → SplitLayout T
  focus_tab layout tab_id = focus_found layout tab_id (pane_of layout tab_id)

  unfoldable pub swap_tab : String → Tab T → List (Tab T) → List (Tab T)
  swap_tab tab_id tab = map (λ t. if t.id === tab_id then tab else t)

  abbrev pub pane_or : Option (Pane T) → Pane T → Pane T
  pane_or none other = other
  pane_or (some p) other = p

  unfoldable pub place_among :
      (Pane T → SplitLayout T) → SplitLayout T → Tab T → List (Pane T) → SplitLayout T
  place_among place layout tab [] = record {
    root = some (pane (fresh_pane layout tab));
    focused = some (fresh_pane layout tab).id;
  }
  place_among place layout tab (first ∷ rest) =
      place (pane_or (find (λ p. is_id layout.focused p.id) (first ∷ rest)) first)

  unfoldable pub open_found :
      (Pane T → SplitLayout T) → SplitLayout T → Tab T → Option (Pane T) → SplitLayout T
  open_found place layout tab none = place_among place layout tab (panes layout)
  open_found place layout tab (some held) =
      focus_tab (map_pane layout held.id (λ p. record p { tabs = swap_tab tab.id tab p.tabs }))
        tab.id

  -- `openTab` up to where the placement counts
  unfoldable pub open_by : (Pane T → SplitLayout T) → SplitLayout T → Tab T → SplitLayout T
  open_by place layout tab = open_found place layout tab (pane_of layout tab.id)

  abbrev pub has_pane_id : Option String → Pane T → Bool
  has_pane_id none p = false
  has_pane_id (some id) p = p.id === id

  -- into the pane of that id, or into the focused one
  unfoldable pub put_in : SplitLayout T → Tab T → Option String → Pane T → SplitLayout T
  put_in layout tab wanted focused =
      let target = pane_or (find (has_pane_id wanted) (panes layout)) focused in
      focus_in (map_pane layout target.id (with_tab tab none)) target.id

  unfoldable pub open_in : SplitLayout T → Tab T → Option String → SplitLayout T
  open_in layout tab wanted = open_by (put_in layout tab wanted) layout tab

  -- the node's id if it is a pane's
  unfoldable pub fallback : SplitLayout T → String → Tab T → SplitLayout T
  fallback layout node_id tab =
      open_in layout tab (if any (λ p. p.id === node_id) (panes layout) then some node_id else none)

  unfoldable pub widened :
      SplitLayout T → Node T → String → Tab T → Pane T → Parent T → Nodes T → SplitLayout T
  widened layout root at tab fresh parent children =
      let split_here : SplitLayout T = record {
        root = some (
            map_node root parent.id
              (λ _. split parent.id parent.direction children (even (size children))));
        focused = some fresh.id;
      } in
      if full parent.direction (size parent.children) then fallback layout at tab else split_here

  abbrev pub paired : Bool → Node T → Node T → Nodes T
  paired after node fresh =
      if after then child node (child fresh end) else child fresh (child node end)

  unfoldable pub split_node : SplitLayout T → Node T → String → Edge → Pane T → SplitLayout T
  split_node layout root at edge fresh = record {
    root = some (
        map_node root at (λ node.
          split (next_id layout "s" (fresh.id ∷ [])) (axis_of edge)
            (paired (is_after edge) node (pane fresh)) (even 2)));
    focused = some fresh.id;
  }

  unfoldable pub split_in_parent :
      SplitLayout T → Node T → String → Edge → Tab T → Pane T → Option (Parent T) → SplitLayout T
  split_in_parent layout root at edge tab fresh none = split_node layout root at edge fresh
  split_in_parent layout root at edge tab fresh (some parent) =
      if same_direction parent.direction (axis_of edge)
      then widened layout root at tab fresh parent
          (add_beside (is_after edge) at (pane fresh) parent.children)
      else split_node layout root at edge fresh

  unfoldable pub split_self :
      SplitLayout T → Node T → String → Edge → Tab T → Pane T → Option (Node T) → SplitLayout T
  split_self layout root at edge tab fresh (some (split id direction children sizes)) =
      if same_direction direction (axis_of edge)
      then widened layout root at tab fresh
          (record { id = id; direction = direction; children = children; sizes = sizes })
          (if is_after edge then add_last children (pane fresh) else child (pane fresh) children)
      else split_in_parent layout root at edge tab fresh (parent_of root at)
  split_self layout root at edge tab fresh (some (pane p)) =
      split_in_parent layout root at edge tab fresh (parent_of root at)
  split_self layout root at edge tab fresh none = open_in layout tab none

  unfoldable pub split_root :
      SplitLayout T → String → Edge → Tab T → Option (Node T) → SplitLayout T
  split_root layout at edge tab none = open_in layout tab none
  split_root layout at edge tab (some root) =
      split_self layout root at edge tab (fresh_pane layout tab)
        (find (λ n. node_id n === at) (nodes_of root))

  unfoldable pub split_at : SplitLayout T → String → Edge → Tab T → SplitLayout T
  split_at layout at edge tab = split_root layout at edge tab layout.root

  unfoldable pub open_tab : SplitLayout T → Tab T → Placement → SplitLayout T
  open_tab layout tab at_focus = open_in layout tab none
  open_tab layout tab to_right = open_by (λ p. split_at layout p.id right tab) layout tab
  open_tab layout tab to_down = open_by (λ p. split_at layout p.id bottom tab) layout tab
  open_tab layout tab (in_pane id) = open_in layout tab (some id)
