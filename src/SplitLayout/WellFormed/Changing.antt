-- ===== src/SplitLayout/WellFormed/Changing.antt =====
-- Closing, moving, replacing, joining and resizing keep a layout well-formed.
use lisptc.Prelude.{
  ℕ, suc, ◌≡◌, refl, String, Bool, true, false, Option, none, some, any, ◌===◌, ◌&&◌, if◌then◌else◌,
  length, ◌==◌,
}
use lisptc.Prelude.Dict.{Dict}
use lisptc.SplitLayout.{
  Tab, Pane, Node, Nodes, pane, split, end, child, SplitLayout, Sizes, Fraction, Edge, Parent,
  pane_of, node_id, size, nodes, panes,
}
use lisptc.SplitLayout.Pruning.{prune, settle_root, rooted}
use lisptc.SplitLayout.Placing.{at_focus, Drop, onto, pane_edge, node_edge, open_tab}
use lisptc.SplitLayout.Moving.{
  close_found, tab_named, close_pane_found, is_named, lift, lift_found, put_at, place, split_lifted,
  place_lost, place_lifted, target_of, is_at, move_away, move_held, move_tab_of, move_found,
  replace_found,
}
use lisptc.SplitLayout.Shape.{parent_in, join_into, join_found, flip_found, resized, resize_node}
use lisptc.SplitLayout.WellFormed.{
  IsWellFormed, OnSome, HasGoodShape, settle-WellFormed, parent_of-HasGoodShape,
}
use lisptc.SplitLayout.WellFormed.Opening.{
  HasGoodRoot, map_root-WellFormed, map_pane-HasGoodRoot, focus_in-HasGoodRoot,
}
use lisptc.SplitLayout.WellFormed.Splitting.{split_at-HasGoodRoot, open_tab-HasGoodRoot}

pub either_way {κ} :
    {A : Type κ} (P : A → Type 0) (b : Bool) (x y : A) → P x → P y → P (if b then x else y)
either_way P true x y h k = h
either_way P false x y h k = k

module _ {ℓ} {T : Type ℓ} where
  settle_root-WellFormed :
      (root : Option (Node T)) (gone : Pane T → Bool)
      → OnSome IsWellFormed root
      → OnSome IsWellFormed (settle_root root gone)
  settle_root-WellFormed none gone h = tt
  settle_root-WellFormed (some root) gone h = settle-WellFormed root gone h

  rooted-WellFormed :
      (root : Option (Node T)) → OnSome IsWellFormed root → OnSome IsWellFormed (rooted root)
  unfolding rooted
  rooted-WellFormed root h = either_way (OnSome IsWellFormed) _ none root tt h

  prune-HasGoodRoot :
      (layout : SplitLayout T) (gone : Pane T → Bool)
      → HasGoodRoot layout
      → HasGoodRoot (prune layout gone)
  unfolding prune
  prune-HasGoodRoot layout gone h = rooted-WellFormed _ (settle_root-WellFormed layout.root gone h)

  pub close_found-HasGoodRoot :
      (layout : SplitLayout T) (id : String) (held : Option (Pane T))
      → HasGoodRoot layout
      → HasGoodRoot (close_found layout id held)
  unfolding close_found
  close_found-HasGoodRoot layout id none h = h
  close_found-HasGoodRoot layout id (some p) h =
      either_way HasGoodRoot _ layout _ h
        (prune-HasGoodRoot _ _ (map_pane-HasGoodRoot layout p.id _ h))

  pub close_pane_found-HasGoodRoot :
      (layout : SplitLayout T) (id : String) (held : Option (Pane T))
      → HasGoodRoot layout
      → HasGoodRoot (close_pane_found layout id held)
  unfolding close_pane_found
  close_pane_found-HasGoodRoot layout id none h = h
  close_pane_found-HasGoodRoot layout id (some p) h =
      either_way HasGoodRoot _ layout _ h (prune-HasGoodRoot layout _ h)

  lift_found-HasGoodRoot :
      (layout : SplitLayout T) (id : String) (held : Option (Pane T))
      → HasGoodRoot layout
      → HasGoodRoot (lift_found layout id held)
  unfolding lift_found
  lift_found-HasGoodRoot layout id none h = h
  lift_found-HasGoodRoot layout id (some p) h =
      prune-HasGoodRoot _ _ (map_pane-HasGoodRoot layout p.id _ h)

  put_at-HasGoodRoot :
      (layout : SplitLayout T) (id : String) (tab : Tab T) (index : Option ℕ)
      → HasGoodRoot layout
      → HasGoodRoot (put_at layout id tab index)
  unfolding put_at
  put_at-HasGoodRoot layout id tab index h =
      focus_in-HasGoodRoot _ id (map_pane-HasGoodRoot layout id _ h)

  pub place-HasGoodRoot :
      (layout : SplitLayout T) (tab : Tab T) (drop : Drop)
      → HasGoodRoot layout
      → HasGoodRoot (place layout tab drop)
  unfolding place
  place-HasGoodRoot layout tab (onto id index) h =
      either_way HasGoodRoot (any (is_named id) (panes layout)) (put_at layout id tab index)
        (open_tab layout tab at_focus) (put_at-HasGoodRoot layout id tab index h)
        (open_tab-HasGoodRoot layout tab at_focus h)
  place-HasGoodRoot layout tab (pane_edge id edge) h = split_at-HasGoodRoot layout id edge tab h
  place-HasGoodRoot layout tab (node_edge id edge) h = split_at-HasGoodRoot layout id edge tab h

  split_lifted-HasGoodRoot :
      (layout : SplitLayout T) (tab : Tab T) (edge : Edge) (root : Option (Node T))
      → HasGoodRoot layout
      → HasGoodRoot (split_lifted layout tab edge root)
  unfolding split_lifted
  split_lifted-HasGoodRoot layout tab edge none h = open_tab-HasGoodRoot layout tab at_focus h
  split_lifted-HasGoodRoot layout tab edge (some root) h =
      split_at-HasGoodRoot layout (node_id root) edge tab h

  place_lost-HasGoodRoot :
      (layout : SplitLayout T) (tab : Tab T) (drop : Drop)
      → HasGoodRoot layout
      → HasGoodRoot (place_lost layout tab drop)
  unfolding place_lost
  place_lost-HasGoodRoot layout tab (onto id index) h = open_tab-HasGoodRoot layout tab at_focus h
  place_lost-HasGoodRoot layout tab (pane_edge id edge) h =
      split_lifted-HasGoodRoot layout tab edge layout.root h
  place_lost-HasGoodRoot layout tab (node_edge id edge) h =
      split_lifted-HasGoodRoot layout tab edge layout.root h

  place_lifted-HasGoodRoot :
      (layout : SplitLayout T) (tab : Tab T) (drop : Drop)
      → HasGoodRoot layout
      → HasGoodRoot (place_lifted layout tab drop)
  unfolding place_lifted
  place_lifted-HasGoodRoot layout tab drop h =
      either_way HasGoodRoot (any (is_at (target_of drop)) (nodes layout.root))
        (place layout tab drop) (place_lost layout tab drop) (place-HasGoodRoot layout tab drop h)
        (place_lost-HasGoodRoot layout tab drop h)

  pub lift-HasGoodRoot :
      (layout : SplitLayout T) (id : String) → HasGoodRoot layout → HasGoodRoot (lift layout id)
  unfolding lift
  lift-HasGoodRoot layout id h = lift_found-HasGoodRoot layout id (pane_of layout id) h

  move_away-HasGoodRoot :
      (layout : SplitLayout T) (id : String) (drop : Drop) (source : Pane T) (tab : Tab T)
      → HasGoodRoot layout
      → HasGoodRoot (move_away layout id drop source tab)
  unfolding move_away
  move_away-HasGoodRoot layout id drop source tab h =
      either_way HasGoodRoot (target_of drop === source.id && length source.tabs == 1) layout
        (place_lifted (lift layout id) tab drop) h
        (place_lifted-HasGoodRoot (lift layout id) tab drop (lift-HasGoodRoot layout id h))

  move_held-HasGoodRoot :
      (layout : SplitLayout T) (id : String) (drop : Drop) (source : Pane T) (tab : Tab T)
      → HasGoodRoot layout
      → HasGoodRoot (move_held layout id drop source tab)
  unfolding move_held
  move_held-HasGoodRoot layout id (onto to index) source tab h =
      either_way HasGoodRoot (to === source.id) (put_at layout source.id tab index)
        (move_away layout id (onto to index) source tab)
        (put_at-HasGoodRoot layout source.id tab index h)
        (move_away-HasGoodRoot layout id (onto to index) source tab h)
  move_held-HasGoodRoot layout id (pane_edge to edge) source tab h =
      move_away-HasGoodRoot layout id (pane_edge to edge) source tab h
  move_held-HasGoodRoot layout id (node_edge to edge) source tab h =
      move_away-HasGoodRoot layout id (node_edge to edge) source tab h

  move_tab_of-HasGoodRoot :
      (layout : SplitLayout T) (id : String) (drop : Drop) (source : Pane T) (tab : Option (Tab T))
      → HasGoodRoot layout
      → HasGoodRoot (move_tab_of layout id drop source tab)
  unfolding move_tab_of
  move_tab_of-HasGoodRoot layout id drop source none h = h
  move_tab_of-HasGoodRoot layout id drop source (some tab) h =
      move_held-HasGoodRoot layout id drop source tab h

  pub move_found-HasGoodRoot :
      (layout : SplitLayout T) (id : String) (drop : Drop) (source : Option (Pane T))
      → HasGoodRoot layout
      → HasGoodRoot (move_found layout id drop source)
  unfolding move_found
  move_found-HasGoodRoot layout id drop none h = h
  move_found-HasGoodRoot layout id drop (some source) h =
      move_tab_of-HasGoodRoot layout id drop source (tab_named source id) h

  pub replace_found-HasGoodRoot :
      (layout : SplitLayout T) (id : String) (tab : Tab T) (held : Option (Pane T))
      → HasGoodRoot layout
      → HasGoodRoot (replace_found layout id tab held)
  unfolding replace_found
  replace_found-HasGoodRoot layout id tab none h = open_tab-HasGoodRoot layout tab at_focus h
  replace_found-HasGoodRoot layout id tab (some p) h =
      focus_in-HasGoodRoot _ p.id (map_pane-HasGoodRoot layout p.id _ h)

  join_into-HasGoodRoot :
      (layout : SplitLayout T) (id : String) (into leaving : Option (Pane T))
      → HasGoodRoot layout
      → HasGoodRoot (join_into layout id into leaving)
  unfolding join_into
  join_into-HasGoodRoot layout id none leaving h = h
  join_into-HasGoodRoot layout id (some into) none h = h
  join_into-HasGoodRoot layout id (some into) (some leaving) h = prune-HasGoodRoot _ _ (
      focus_in-HasGoodRoot _ into.id
        (map_pane-HasGoodRoot _ id _ (map_pane-HasGoodRoot layout into.id _ h)))

  pub join_found-HasGoodRoot :
      (layout : SplitLayout T) (id : String) (parent : Option (Parent T))
      → HasGoodRoot layout
      → HasGoodRoot (join_found layout id parent)
  unfolding join_found
  join_found-HasGoodRoot layout id none h = h
  join_found-HasGoodRoot layout id (some parent) h = join_into-HasGoodRoot layout id _ _ h

  pub parent_in-HasGoodShape :
      (root : Option (Node T)) (id : String)
      → OnSome IsWellFormed root
      → OnSome HasGoodShape (parent_in root id)
  parent_in-HasGoodShape none id h = tt
  parent_in-HasGoodShape (some root) id h = parent_of-HasGoodShape root id h

  pub flip_found-HasGoodRoot :
      (layout : SplitLayout T) (parent : Option (Parent T))
      → HasGoodRoot layout
      → OnSome HasGoodShape parent
      → HasGoodRoot (flip_found layout parent)
  unfolding flip_found
  flip_found-HasGoodRoot layout none h k = h
  flip_found-HasGoodRoot layout (some parent) h k =
      map_root-WellFormed layout.root parent.id _ (λ _ _. k) h

  length-resized :
      (given : Dict Fraction) (held : Sizes) (i : ℕ) (children : Nodes T)
      → length (resized given held i children) ≡ size children
  unfolding resized
  length-resized given held i end = refl
  length-resized given held i (child node rest) = cc (length-resized given held (suc i) rest)

  pub resize_node-WellFormed :
      (given : Dict Fraction) (n : Node T) → IsWellFormed n → IsWellFormed (resize_node given n)
  unfolding resize_node
  resize_node-WellFormed given (pane p) h = tt
  resize_node-WellFormed given (split id direction children sizes) (two, _, h) =
      (two, length-resized given sizes 0 children, h)
