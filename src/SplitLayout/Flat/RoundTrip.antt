-- ===== src/SplitLayout/Flat/RoundTrip.antt =====
-- A layout is built again from the list of its nodes.
use lisptc.Prelude.{
  ℕ, zero, suc, ◌+◌, ◌≤◌, ◌≡◌, refl, ap, sym as flip, ◌∙◌, String, Bool, true, false, Option, none,
  some, List, [], ◌∷◌, ◌++◌, map, any, length, length-append, ◌||◌, ◌===◌, ===_iff, ◌==◌, ==_iff,
  All, arith,
}
use lisptc.Prelude.Dict
use lisptc.Prelude.Dict.{Dict}
use lisptc.Prelude.Seen.{listed}
use lisptc.SplitLayout.{
  Node, Nodes, Sizes, Direction, pane, split, end, child, SplitLayout, node_id, nodes, nodes_of,
  nodes_in, panes, all_tabs, is_empty, size,
}
use lisptc.SplitLayout.Pruning.{
  keep_all, prune, settle, settle_all, settled, settle_root, rooted, focus_among, or_no_id,
}
use lisptc.SplitLayout.WellFormed.{IsWellFormed, AllWellFormed, OnSome}
use lisptc.SplitLayout.WellFormed.Opening.{HasGoodRoot}
use lisptc.SplitLayout.Flat.{
  FlatNode, flat_of, flat_id, ids_of, by_id, build_all, build, build_root, root_id, flatten,
  unflatten,
}
use lisptc.SplitLayout.Flat.Fuel.{build-enough}

module _ {ℓ} {T : Type ℓ} where
  abbrev pub has_id : String → List (Node T) → Bool
  has_id id [] = false
  has_id id (n ∷ ns) = (node_id n === id) || has_id id ns

  abbrev pub HasDistinctIds : List (Node T) → Type 0
  HasDistinctIds [] = Unit
  HasDistinctIds (n ∷ ns) = (has_id (node_id n) ns ≡ false) × HasDistinctIds ns

  -- what the table says of a node, and that it is not one of those above
  abbrev IsKnown : Dict (FlatNode T) → List String → Node T → Type ℓ
  IsKnown table seen n =
      (Dict.get (node_id n) table ≡ some (flat_of n)) × (listed (node_id n) seen ≡ false)

  has_id-append :
      (id : String) (ms ns : List (Node T)) → has_id id (ms ++ ns) ≡ (has_id id ms || has_id id ns)
  has_id-append id [] ns = refl
  has_id-append id (m ∷ ms) ns = ground (arith, has_id-append id ms ns)

  HasDistinctIds-append :
      (ms ns : List (Node T)) → HasDistinctIds (ms ++ ns) → HasDistinctIds ms × HasDistinctIds ns
  HasDistinctIds-append [] ns h = (tt, h)
  HasDistinctIds-append (m ∷ ms) ns (p, h) =
      let (k, l) = HasDistinctIds-append ms ns h in
      let left : has_id (node_id m) ms ≡ false =
        ground (arith, p, has_id-append (node_id m) ms ns) in
      ((left, k), l)

  flat_id-flat_of : (n : Node T) → flat_id (flat_of n) ≡ node_id n
  flat_id-flat_of (pane p) = refl
  flat_id-flat_of (split id direction children sizes) = refl

  get-by_id :
      (id : String) (ns : List (Node T)) (table : Dict (FlatNode T))
      → has_id id ns ≡ false
      → Dict.get id (by_id (map flat_of ns) table) ≡ Dict.get id table
  unfolding by_id
  get-by_id id [] table h = refl
  get-by_id id (n ∷ ns) table h =
      let apart : (node_id n === id) ≡ false = ground (arith, h) in
      let rest : has_id id ns ≡ false = ground (arith, h) in
      get-by_id id ns _ rest
      ∙ Dict.get-put (flat_id (flat_of n)) id (flat_of n) table
      ∙ rw (flat_id-flat_of n, apart) refl

  by_id-IsKnown :
      (ns : List (Node T)) (table : Dict (FlatNode T))
      → HasDistinctIds ns
      → All (IsKnown (by_id (map flat_of ns) table) []) ns
  unfolding by_id
  by_id-IsKnown [] table h = tt
  by_id-IsKnown (n ∷ ns) table (p, h) =
      let self : (node_id n === node_id n) ≡ true = (===_iff (node_id n) (node_id n)).1 refl in
      (
        (
          get-by_id (node_id n) ns _ p
              ∙ Dict.get-put (flat_id (flat_of n)) (node_id n) (flat_of n) table
              ∙ rw (flat_id-flat_of n, self) refl,
          refl,
        ),
        by_id-IsKnown ns _ h,
      )

  below-IsKnown :
      (table : Dict (FlatNode T)) (id : String) (seen : List String) (ns : List (Node T))
      → has_id id ns ≡ false
      → All (IsKnown table seen) ns
      → All (IsKnown table (id ∷ seen)) ns
  below-IsKnown table id seen [] h k = tt
  below-IsKnown table id seen (n ∷ ns) h ((e, l), k) =
      let apart : (id === node_id n) ≡ false =
        ground (arith, h, ===_iff id (node_id n), ===_iff (node_id n) id) in
      let rest : has_id id ns ≡ false = ground (arith, h) in
      ((e, rw apart l), below-IsKnown table id seen ns rest k)

  IsKnown-split :
      (table : Dict (FlatNode T)) (seen : List String) (ms ns : List (Node T))
      → All (IsKnown table seen) (ms ++ ns)
      → All (IsKnown table seen) ms × All (IsKnown table seen) ns
  IsKnown-split table seen [] ns h = (tt, h)
  IsKnown-split table seen (m ∷ ms) ns (p, h) =
      let (k, l) = IsKnown-split table seen ms ns h in ((p, k), l)

  -- a node that the table knows is built again, and so are the children of a split
  mutual
    unfolding nodes_of build

    build-node :
        (fuel : ℕ) (table : Dict (FlatNode T)) (seen : List String) (node : Node T)
        → length (nodes_of node) ≤ fuel
        → HasDistinctIds (nodes_of node)
        → All (IsKnown table seen) (nodes_of node)
        → build fuel table (node_id node) seen ≡ some node
    build-node zero table seen (pane p) le d k = absurd (omega (arith, le))
    build-node zero table seen (split id direction children sizes) le d k =
        absurd (omega (arith, le))
    build-node (suc fuel) table seen (pane p) le d ((e, l), k) = rw (l, e) refl
    build-node (suc fuel) table seen (split id direction children sizes) le (p, d) ((e, l), k) =
        let again =
          build-children fuel table (id ∷ seen) children (omega (arith, le)) d
            (below-IsKnown table id seen (nodes_in children) p k) in
        rw (l, e) (ap (λ c. some (split id direction c sizes)) again)

    build-children :
        (fuel : ℕ) (table : Dict (FlatNode T)) (seen : List String) (children : Nodes T)
        → length (nodes_in children) ≤ fuel
        → HasDistinctIds (nodes_in children)
        → All (IsKnown table seen) (nodes_in children)
        → build_all (λ c. build fuel table c seen) (ids_of children) ≡ children
    build-children fuel table seen end le d k = refl
    build-children fuel table seen (child node rest) le d k =
        let (dn, dr) = HasDistinctIds-append (nodes_of node) (nodes_in rest) d in
        let (kn, kr) = IsKnown-split table seen (nodes_of node) (nodes_in rest) k in
        let sum = length-append (nodes_of node) (nodes_in rest) in
        rw
          (
            build-node fuel table seen node (omega (arith, le, sum)) dn kn,
            build-children fuel table seen rest (omega (arith, le, sum)) dr kr,
          )
          refl

  build_root-flat :
      (root : Option (Node T))
      → HasDistinctIds (nodes root)
      → build_root (by_id (map flat_of (nodes root)) []) (root_id root) ≡ root
  unfolding nodes
  build_root-flat none d = refl
  build_root-flat (some root) d =
      let table : Dict (FlatNode T) = by_id (map flat_of (nodes_of root)) [] in
      let fuel : ℕ = suc (length table + length (nodes_of root)) in
      flip (build-enough fuel table (node_id root) (omega arith))
      ∙ build-node fuel table [] root (omega arith) d (by_id-IsKnown (nodes_of root) [] d)

  settled-same :
      (id : String) (direction : Direction) (sizes : Sizes) (children : Nodes T)
      → 2 ≤ size children
      → settled id direction sizes (size children) children
        ≡ some (split id direction children sizes)
  unfolding settled
  settled-same id direction sizes end h = absurd (omega (arith, h))
  settled-same id direction sizes (child node end) h = absurd (omega (arith, h))
  settled-same id direction sizes (child one (child two rest)) h =
      let same : (suc (suc (size rest)) == suc (suc (size rest))) ≡ true =
        (==_iff (suc (suc (size rest))) (suc (suc (size rest)))).1 refl in
      rw same refl

  mutual
    unfolding settle

    settle-same : (node : Node T) → IsWellFormed node → settle node keep_all ≡ some node
    settle-same (pane p) h = refl
    settle-same (split id direction children sizes) (two, sized, h) =
        rw (settle_all-same children h) (settled-same id direction sizes children two)

    settle_all-same :
        (children : Nodes T) → AllWellFormed children → settle_all children keep_all ≡ children
    settle_all-same end h = refl
    settle_all-same (child node rest) (h, t) = rw (settle-same node h, settle_all-same rest t) refl

  settle_root-same :
      (root : Option (Node T)) → OnSome IsWellFormed root → settle_root root keep_all ≡ root
  settle_root-same none h = refl
  settle_root-same (some root) h = settle-same root h

  prune-same :
      (layout : SplitLayout T)
      → HasGoodRoot layout
      → is_empty (all_tabs layout) ≡ false
      → any (λ p. p.id === or_no_id layout.focused) (panes layout) ≡ true
      → prune layout keep_all ≡ layout
  unfolding prune rooted focus_among all_tabs panes
  prune-same layout good tabs focus = rw (settle_root-same layout.root good, tabs, focus) refl

  -- A layout whose ids are distinct, whose splits have two children or more and a size for each, which
  -- has a tab, and whose focused pane is one of its panes, comes back when it is built again from the
  -- flat list of its nodes.
  pub unflatten-flatten :
      (layout : SplitLayout T)
      → HasDistinctIds (nodes layout.root)
      → HasGoodRoot layout
      → is_empty (all_tabs layout) ≡ false
      → any (λ p. p.id === or_no_id layout.focused) (panes layout) ≡ true
      → unflatten (flatten layout) ≡ layout
  unfolding unflatten flatten
  unflatten-flatten layout d good tabs focus =
      rw (build_root-flat layout.root d) (prune-same layout good tabs focus)
