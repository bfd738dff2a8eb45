-- ===== src/SplitLayout/WellFormed/Opening.antt =====
-- Opening a tab in a pane keeps a layout well-formed.
use lisptc.Prelude.{String, Option, none, some, List, [], ◌∷◌}
use lisptc.SplitLayout.{
  Tab, Pane, Node, pane, split, SplitLayout, panes, pane_of, map_node, map_pane, map_root, on_pane,
}
use lisptc.SplitLayout.Placing.{
  focus_in, focus_found, focus_tab, place_among, open_found, open_by, put_in, open_in,
}
use lisptc.SplitLayout.WellFormed.{IsWellFormed, OnSome, map_node-WellFormed}

abbrev pub HasGoodRoot {ℓ} : {T : Type ℓ} → SplitLayout T → Type 0
HasGoodRoot layout = OnSome IsWellFormed layout.root

module _ {ℓ} {T : Type ℓ} where
  pub map_root-WellFormed :
      (root : Option (Node T)) (id : String) (f : Node T → Node T)
      → ((n : Node T) → IsWellFormed n → IsWellFormed (f n))
      → OnSome IsWellFormed root
      → OnSome IsWellFormed (map_root (λ n. map_node n id f) root)
  map_root-WellFormed none id f k h = tt
  map_root-WellFormed (some root) id f k h = map_node-WellFormed root id f k h

  on_pane-WellFormed :
      (f : Pane T → Pane T) (n : Node T) → IsWellFormed n → IsWellFormed (on_pane f n)
  on_pane-WellFormed f (pane p) h = tt
  on_pane-WellFormed f (split id direction children sizes) h = h

  pub map_pane-HasGoodRoot :
      (layout : SplitLayout T) (id : String) (f : Pane T → Pane T)
      → HasGoodRoot layout
      → HasGoodRoot (map_pane layout id f)
  unfolding map_pane
  map_pane-HasGoodRoot layout id f h =
      map_root-WellFormed layout.root id (on_pane f) (on_pane-WellFormed f) h

  focus_found-HasGoodRoot :
      (layout : SplitLayout T) (id : String) (held : Option (Pane T))
      → HasGoodRoot layout
      → HasGoodRoot (focus_found layout id held)
  unfolding focus_found focus_in
  focus_found-HasGoodRoot layout id none h = h
  focus_found-HasGoodRoot layout id (some p) h = map_pane-HasGoodRoot layout p.id _ h

  pub focus_tab-HasGoodRoot :
      (layout : SplitLayout T) (id : String)
      → HasGoodRoot layout
      → HasGoodRoot (focus_tab layout id)
  unfolding focus_tab
  focus_tab-HasGoodRoot layout id h = focus_found-HasGoodRoot layout id (pane_of layout id) h

  place_among-HasGoodRoot :
      (place : Pane T → SplitLayout T) (layout : SplitLayout T) (tab : Tab T) (held : List (Pane T))
      → ((p : Pane T) → HasGoodRoot (place p))
      → HasGoodRoot (place_among place layout tab held)
  unfolding place_among
  place_among-HasGoodRoot place layout tab [] k = tt
  place_among-HasGoodRoot place layout tab (first ∷ rest) k = k _

  open_found-HasGoodRoot :
      (place : Pane T → SplitLayout T) (layout : SplitLayout T) (tab : Tab T)
      (held : Option (Pane T))
      → ((p : Pane T) → HasGoodRoot (place p))
      → HasGoodRoot layout
      → HasGoodRoot (open_found place layout tab held)
  unfolding open_found
  open_found-HasGoodRoot place layout tab none k h =
      place_among-HasGoodRoot place layout tab (panes layout) k
  open_found-HasGoodRoot place layout tab (some held) k h =
      focus_tab-HasGoodRoot _ tab.id (map_pane-HasGoodRoot layout held.id _ h)

  pub open_by-HasGoodRoot :
      (place : Pane T → SplitLayout T) (layout : SplitLayout T) (tab : Tab T)
      → ((p : Pane T) → HasGoodRoot (place p))
      → HasGoodRoot layout
      → HasGoodRoot (open_by place layout tab)
  unfolding open_by
  open_by-HasGoodRoot place layout tab k h =
      open_found-HasGoodRoot place layout tab (pane_of layout tab.id) k h

  pub focus_in-HasGoodRoot :
      (layout : SplitLayout T) (id : String) → HasGoodRoot layout → HasGoodRoot (focus_in layout id)
  unfolding focus_in
  focus_in-HasGoodRoot layout id h = h

  pub open_in-HasGoodRoot :
      (layout : SplitLayout T) (tab : Tab T) (wanted : Option String)
      → HasGoodRoot layout
      → HasGoodRoot (open_in layout tab wanted)
  unfolding open_in put_in
  open_in-HasGoodRoot layout tab wanted h =
      open_by-HasGoodRoot _ layout tab
        (λ p. focus_in-HasGoodRoot _ _ (map_pane-HasGoodRoot layout _ _ h)) h
