-- ===== src/SplitLayout/WellFormed/Reached.antt =====
-- Every layout that the operations make out of the empty one is well-formed.
use lisptc.Prelude.{String, ◌===◌, not, ◌&&◌, if◌then◌else◌}
use lisptc.Prelude.Dict.{Dict}
use lisptc.SplitLayout.{Tab, SplitLayout, Fraction, pane_of, empty_layout}
use lisptc.SplitLayout.Placing.{Placement, at_focus, Drop, focus_tab, open_tab}
use lisptc.SplitLayout.Moving.{
  close_tab, close_pane, move_tab, drop_tab, replace_tab, place, lift, is_there, fixed_in,
  replace_found,
}
use lisptc.SplitLayout.Shape.{join_pane, flip, resize_split}
use lisptc.SplitLayout.WellFormed.Opening.{HasGoodRoot, focus_tab-HasGoodRoot, map_root-WellFormed}
use lisptc.SplitLayout.WellFormed.Splitting.{open_tab-HasGoodRoot}
use lisptc.SplitLayout.WellFormed.Changing.{
  either_way, close_found-HasGoodRoot, close_pane_found-HasGoodRoot, lift-HasGoodRoot,
  place-HasGoodRoot, move_found-HasGoodRoot, replace_found-HasGoodRoot, join_found-HasGoodRoot,
  parent_in-HasGoodShape, flip_found-HasGoodRoot, resize_node-WellFormed,
}

pub data Action {ℓ} (T : Type ℓ) : Type ℓ where
  focus close shut join turn : String → Action T
  show : Tab T → Placement → Action T
  move : String → Drop → Action T
  drop_on : Tab T → Drop → Action T
  replace : String → Tab T → Action T
  resize : String → Dict Fraction → Action T

module _ {ℓ} {T : Type ℓ} where
  -- one call of an operation that the module exports
  unfoldable pub run : Action T → SplitLayout T → SplitLayout T
  run (focus id) layout = focus_tab layout id
  run (close id) layout = close_tab layout id
  run (shut id) layout = close_pane layout id
  run (join id) layout = join_pane layout id
  run (turn id) layout = flip layout id
  run (show tab placement) layout = open_tab layout tab placement
  run (move id drop) layout = move_tab layout id drop
  run (drop_on tab drop) layout = drop_tab layout tab drop
  run (replace id tab) layout = replace_tab layout id tab
  run (resize id sizes) layout = resize_split layout id sizes

  pub data Reachable : SplitLayout T → Type ℓ where
    start : Reachable empty_layout
    step :
        (layout : SplitLayout T) (action : Action T)
        → Reachable layout
        → Reachable (run action layout)

  move_tab-HasGoodRoot :
      (layout : SplitLayout T) (id : String) (drop : Drop)
      → HasGoodRoot layout
      → HasGoodRoot (move_tab layout id drop)
  unfolding move_tab
  move_tab-HasGoodRoot layout id drop h =
      move_found-HasGoodRoot layout id drop (pane_of layout id) h

  drop_tab-HasGoodRoot :
      (layout : SplitLayout T) (tab : Tab T) (drop : Drop)
      → HasGoodRoot layout
      → HasGoodRoot (drop_tab layout tab drop)
  unfolding drop_tab
  drop_tab-HasGoodRoot layout tab drop h =
      either_way HasGoodRoot (is_there (pane_of layout tab.id))
        (move_tab (open_tab layout tab at_focus) tab.id drop) (place layout tab drop)
        (move_tab-HasGoodRoot (open_tab layout tab at_focus) tab.id drop
          (open_tab-HasGoodRoot layout tab at_focus h))
        (place-HasGoodRoot layout tab drop h)

  replace_tab-HasGoodRoot :
      (layout : SplitLayout T) (id : String) (tab : Tab T)
      → HasGoodRoot layout
      → HasGoodRoot (replace_tab layout id tab)
  unfolding replace_tab
  replace_tab-HasGoodRoot layout id tab h =
      let cleared = if fixed_in (pane_of layout id) id then layout else lift layout id in
      either_way HasGoodRoot (not (id === tab.id) && is_there (pane_of layout tab.id))
        (focus_tab (open_tab cleared tab at_focus) tab.id)
        (replace_found layout id tab (pane_of layout id))
        (focus_tab-HasGoodRoot (open_tab cleared tab at_focus) tab.id (
          open_tab-HasGoodRoot cleared tab at_focus (
            either_way HasGoodRoot (fixed_in (pane_of layout id) id) layout (lift layout id) h
              (lift-HasGoodRoot layout id h))))
        (replace_found-HasGoodRoot layout id tab (pane_of layout id) h)

  run-HasGoodRoot :
      (action : Action T) (layout : SplitLayout T)
      → HasGoodRoot layout
      → HasGoodRoot (run action layout)
  unfolding run close_tab close_pane join_pane flip resize_split
  run-HasGoodRoot (focus id) layout h = focus_tab-HasGoodRoot layout id h
  run-HasGoodRoot (close id) layout h = close_found-HasGoodRoot layout id _ h
  run-HasGoodRoot (shut id) layout h = close_pane_found-HasGoodRoot layout id _ h
  run-HasGoodRoot (join id) layout h = join_found-HasGoodRoot layout id _ h
  run-HasGoodRoot (turn id) layout h =
      flip_found-HasGoodRoot layout _ h (parent_in-HasGoodShape layout.root id h)
  run-HasGoodRoot (show tab placement) layout h = open_tab-HasGoodRoot layout tab placement h
  run-HasGoodRoot (move id drop) layout h = move_tab-HasGoodRoot layout id drop h
  run-HasGoodRoot (drop_on tab drop) layout h = drop_tab-HasGoodRoot layout tab drop h
  run-HasGoodRoot (replace id tab) layout h = replace_tab-HasGoodRoot layout id tab h
  run-HasGoodRoot (resize id sizes) layout h =
      map_root-WellFormed layout.root id _ (resize_node-WellFormed sizes) h

  -- In a layout that calls of the operations make out of the empty one, each split has two children
  -- or more and exactly one size for each child.
  pub Reachable-WellFormed : (layout : SplitLayout T) → Reachable layout → HasGoodRoot layout
  Reachable-WellFormed _ start = tt
  Reachable-WellFormed _ (step layout action r) =
      run-HasGoodRoot action layout (Reachable-WellFormed layout r)
