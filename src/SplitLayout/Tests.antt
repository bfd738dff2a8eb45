-- ===== src/SplitLayout/Tests.antt =====
-- Runs of the layout operations, and the theorems at concrete layouts.
use lisptc.Prelude.{ℕ, arith, ◌≡◌, refl, false, some, [], ◌∷◌, String}
use lisptc.SplitLayout.{
  Tab, SplitLayout, pane, split, end, child, row, empty_layout, nodes, next_id, nodes_of, panes,
  all_tabs, tabs_of, numeral, free_from, even, panes_among, map_node, pane_of, holds, parent_of,
}
use lisptc.SplitLayout.Placing.{
  at_focus, to_right, open_tab, open_in, open_by, open_found, place_among, fresh_pane, split_at,
  split_root, split_self, split_in_parent, split_node, axis_of,
}
use lisptc.SplitLayout.Flat.{flatten, unflatten}
use lisptc.SplitLayout.Flat.RoundTrip.{unflatten-flatten}
use lisptc.SplitLayout.WellFormed.Opening.{HasGoodRoot}
use lisptc.SplitLayout.WellFormed.Reached.{
  show, close, turn, run, start, step, Reachable-WellFormed,
}

abbrev tab : String → Tab ℕ
tab id = record { id = id; content = 7; fixed = false }

abbrev two_panes : SplitLayout ℕ
two_panes = run (show (tab "b") to_right) (run (show (tab "a") at_focus) empty_layout)

two_panes-eq : two_panes ≡ record {
  root = some (
      split "s1" row
        (child
          (pane record { id = "p1"; tabs = tab "a" ∷ []; active = some "a" })
          (child (pane record { id = "p2"; tabs = tab "b" ∷ []; active = some "b" }) end))
        (even 2));
  focused = some "p2";
}
unfolding run open_tab open_in open_by open_found place_among fresh_pane split_at split_root
    split_self split_in_parent split_node axis_of parent_of next_id free_from numeral nodes nodes_of
    panes panes_among map_node pane_of holds
two_panes-eq = refl

Reachable-WellFormed_example : HasGoodRoot (run (close "a") (run (turn "p1") two_panes))
Reachable-WellFormed_example = Reachable-WellFormed (run (close "a") (run (turn "p1") two_panes)) (
    step (run (turn "p1") two_panes) (close "a") (
      step two_panes (turn "p1") (
        step (run (show (tab "a") at_focus) empty_layout) (show (tab "b") to_right)
          (step empty_layout (show (tab "a") at_focus) start))))

unflatten-flatten_example : unflatten (flatten two_panes) ≡ two_panes
unfolding run open_tab open_in open_by open_found place_among fresh_pane split_at split_root
    split_self split_in_parent split_node axis_of parent_of next_id free_from numeral nodes nodes_of
    panes panes_among map_node pane_of holds all_tabs tabs_of even
unflatten-flatten_example =
    unflatten-flatten two_panes (refl, (refl, (refl, tt))) (omega arith, refl, (tt, (tt, tt))) refl
      refl
