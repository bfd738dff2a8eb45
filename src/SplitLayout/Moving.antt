-- ===== src/SplitLayout/Moving.antt =====
-- packages/shared/src/split-layout.ts: the operations that close, move, replace and join.
use lisptc.Prelude.{
  ℕ, String, Bool, true, false, not, Option, none, some, any, find, ◌===◌, ◌==◌, ◌&&◌,
  if◌then◌else◌, length,
}
use lisptc.SplitLayout.{
  Tab, Pane, Node, SplitLayout, Edge, nodes, panes, pane_of, map_pane, node_id,
}
use lisptc.SplitLayout.Pruning.{prune, keep_all, emptied, with_tab, without_tab}
use lisptc.SplitLayout.Placing.{
  Drop, onto, pane_edge, node_edge, at_focus, focus_in, focus_tab, swap_tab, split_at, open_tab,
}

abbrev pub target_of : Drop → String
target_of (onto id index) = id
target_of (pane_edge id edge) = id
target_of (node_edge id edge) = id

abbrev pub is_there {ℓ} : {A : Type ℓ} → Option A → Bool
is_there none = false
is_there (some _) = true

module _ {ℓ} {T : Type ℓ} where
  abbrev pub tab_named : Pane T → String → Option (Tab T)
  tab_named p tab_id = find (λ t. t.id === tab_id) p.tabs

  abbrev pub is_fixed : Option (Tab T) → Bool
  is_fixed none = false
  is_fixed (some t) = t.fixed

  unfoldable pub close_found : SplitLayout T → String → Option (Pane T) → SplitLayout T
  close_found layout tab_id none = layout
  close_found layout tab_id (some p) =
      if is_fixed (tab_named p tab_id)
      then layout
      else prune (map_pane layout p.id (without_tab tab_id)) keep_all

  unfoldable pub close_tab : SplitLayout T → String → SplitLayout T
  close_tab layout tab_id = close_found layout tab_id (pane_of layout tab_id)

  abbrev pub is_named : String → Pane T → Bool
  is_named id p = p.id === id

  unfoldable pub close_pane_found : SplitLayout T → String → Option (Pane T) → SplitLayout T
  close_pane_found layout pane_id none = layout
  close_pane_found layout pane_id (some p) =
      if any (λ t. t.fixed) p.tabs then layout else prune layout (is_named pane_id)

  unfoldable pub close_pane : SplitLayout T → String → SplitLayout T
  close_pane layout pane_id =
      close_pane_found layout pane_id (find (is_named pane_id) (panes layout))

  unfoldable pub lift_found : SplitLayout T → String → Option (Pane T) → SplitLayout T
  lift_found layout tab_id none = layout
  lift_found layout tab_id (some source) =
      prune (map_pane layout source.id (without_tab tab_id)) (λ p. p.id === source.id && emptied p)

  unfoldable pub lift : SplitLayout T → String → SplitLayout T
  lift layout tab_id = lift_found layout tab_id (pane_of layout tab_id)

  unfoldable pub put_at : SplitLayout T → String → Tab T → Option ℕ → SplitLayout T
  put_at layout pane_id tab index = focus_in (map_pane layout pane_id (with_tab tab index)) pane_id

  unfoldable pub place : SplitLayout T → Tab T → Drop → SplitLayout T
  place layout tab (onto id index) =
      if any (is_named id) (panes layout)
      then put_at layout id tab index
      else open_tab layout tab at_focus
  place layout tab (pane_edge id edge) = split_at layout id edge tab
  place layout tab (node_edge id edge) = split_at layout id edge tab

  abbrev pub is_at : String → Node T → Bool
  is_at id n = node_id n === id

  unfoldable pub split_lifted : SplitLayout T → Tab T → Edge → Option (Node T) → SplitLayout T
  split_lifted lifted tab edge none = open_tab lifted tab at_focus
  split_lifted lifted tab edge (some root) = split_at lifted (node_id root) edge tab

  -- where the target of the drop went away with the tab
  unfoldable pub place_lost : SplitLayout T → Tab T → Drop → SplitLayout T
  place_lost lifted tab (onto id index) = open_tab lifted tab at_focus
  place_lost lifted tab (pane_edge id edge) = split_lifted lifted tab edge lifted.root
  place_lost lifted tab (node_edge id edge) = split_lifted lifted tab edge lifted.root

  unfoldable pub place_lifted : SplitLayout T → Tab T → Drop → SplitLayout T
  place_lifted lifted tab drop =
      if any (is_at (target_of drop)) (nodes lifted.root)
      then place lifted tab drop
      else place_lost lifted tab drop

  unfoldable pub move_away : SplitLayout T → String → Drop → Pane T → Tab T → SplitLayout T
  move_away layout tab_id drop source tab =
      if target_of drop === source.id && length source.tabs == 1
      then layout
      else place_lifted (lift layout tab_id) tab drop

  unfoldable pub move_held : SplitLayout T → String → Drop → Pane T → Tab T → SplitLayout T
  move_held layout tab_id (onto id index) source tab =
      if id === source.id
      then put_at layout source.id tab index
      else move_away layout tab_id (onto id index) source tab
  move_held layout tab_id (pane_edge id edge) source tab =
      move_away layout tab_id (pane_edge id edge) source tab
  move_held layout tab_id (node_edge id edge) source tab =
      move_away layout tab_id (node_edge id edge) source tab

  -- `pane_of` finds a pane that has the tab, so the second case below does not arise.
  unfoldable pub move_tab_of :
      SplitLayout T → String → Drop → Pane T → Option (Tab T) → SplitLayout T
  move_tab_of layout tab_id drop source none = layout
  move_tab_of layout tab_id drop source (some tab) = move_held layout tab_id drop source tab

  unfoldable pub move_found : SplitLayout T → String → Drop → Option (Pane T) → SplitLayout T
  move_found layout tab_id drop none = layout
  move_found layout tab_id drop (some source) =
      move_tab_of layout tab_id drop source (tab_named source tab_id)

  unfoldable pub move_tab : SplitLayout T → String → Drop → SplitLayout T
  move_tab layout tab_id drop = move_found layout tab_id drop (pane_of layout tab_id)

  unfoldable pub drop_tab : SplitLayout T → Tab T → Drop → SplitLayout T
  drop_tab layout tab drop =
      if is_there (pane_of layout tab.id)
      then move_tab (open_tab layout tab at_focus) tab.id drop
      else place layout tab drop

  abbrev pub fixed_in : Option (Pane T) → String → Bool
  fixed_in none tab_id = false
  fixed_in (some p) tab_id = is_fixed (tab_named p tab_id)

  abbrev pub renamed_active : String → Tab T → Option String → Option String
  renamed_active tab_id tab none = none
  renamed_active tab_id tab (some active) = if active === tab_id then some tab.id else some active

  abbrev pub replace_in : String → Tab T → Pane T → Pane T
  replace_in tab_id tab p = record p {
    tabs = swap_tab tab_id tab p.tabs;
    active = renamed_active tab_id tab p.active;
  }

  unfoldable pub replace_found : SplitLayout T → String → Tab T → Option (Pane T) → SplitLayout T
  replace_found layout tab_id tab none = open_tab layout tab at_focus
  replace_found layout tab_id tab (some p) =
      focus_in (map_pane layout p.id (replace_in tab_id tab)) p.id

  unfoldable pub replace_tab : SplitLayout T → String → Tab T → SplitLayout T
  replace_tab layout tab_id tab =
      if not (tab_id === tab.id) && is_there (pane_of layout tab.id)
      then focus_tab
          (open_tab (if fixed_in (pane_of layout tab_id) tab_id then layout else lift layout tab_id)
            tab at_focus)
          tab.id
      else replace_found layout tab_id tab (pane_of layout tab_id)
