-- ===== src/SplitLayout/Flat.antt =====
-- packages/shared/src/split-layout.ts: a layout as a list of its nodes, in which a split has the ids of
-- its children, and the tree that is built from such a list.
pub mod Fuel
pub mod RoundTrip
use lisptc.Prelude.{
  ℕ, zero, suc, String, Bool, true, false, Option, none, some, List, [], ◌∷◌, map, if◌then◌else◌,
  length,
}
use lisptc.Prelude.Dict
use lisptc.Prelude.Dict.{Dict}
use lisptc.Prelude.Seen.{listed}
use lisptc.SplitLayout.{
  Pane, Direction, Sizes, Node, Nodes, pane, split, end, child, SplitLayout, node_id, nodes,
}
use lisptc.SplitLayout.Pruning.{keep, keep_all, prune}

pub data FlatNode {ℓ} (T : Type ℓ) : Type ℓ where
  flat_pane : Pane T → FlatNode T
  flat_split : String → Direction → List String → Sizes → FlatNode T

pub record FlatLayout {ℓ} (T : Type ℓ) : Type ℓ where
  pub root : Option String
  pub focused : Option String
  pub nodes : List (FlatNode T)

module _ {ℓ} {T : Type ℓ} where
  abbrev pub ids_of : Nodes T → List String
  ids_of end = []
  ids_of (child node rest) = node_id node ∷ ids_of rest

  abbrev pub flat_of : Node T → FlatNode T
  flat_of (pane p) = flat_pane p
  flat_of (split id direction children sizes) = flat_split id direction (ids_of children) sizes

  abbrev pub root_id : Option (Node T) → Option String
  root_id none = none
  root_id (some node) = some (node_id node)

  unfoldable pub flatten : SplitLayout T → FlatLayout T
  flatten layout = record {
    root = root_id layout.root;
    focused = layout.focused;
    nodes = map flat_of (nodes layout.root);
  }

  abbrev pub flat_id : FlatNode T → String
  flat_id (flat_pane p) = p.id
  flat_id (flat_split id direction children sizes) = id

  -- `new Map`, in which a later node takes the place of an earlier one with its id
  unfoldable pub by_id : List (FlatNode T) → Dict (FlatNode T) → Dict (FlatNode T)
  by_id [] table = table
  by_id (node ∷ rest) table = by_id rest (Dict.put (flat_id node) node table)

  abbrev pub built : (List String → Nodes T) → Option (FlatNode T) → Option (Node T)
  built below none = none
  built below (some (flat_pane p)) = some (pane p)
  built below (some (flat_split id direction children sizes)) =
      some (split id direction (below children) sizes)

  abbrev pub build_all : (String → Option (Node T)) → List String → Nodes T
  build_all build [] = end
  build_all build (id ∷ ids) = keep (build id) (build_all build ids)

  unfoldable pub build : ℕ → Dict (FlatNode T) → String → List String → Option (Node T)
  build zero table id seen = none
  build (suc fuel) table id seen =
      let found =
        built (build_all (λ child. build fuel table child (id ∷ seen))) (Dict.get id table) in
      if listed id seen then none else found

  abbrev pub build_root : Dict (FlatNode T) → Option String → Option (Node T)
  build_root table none = none
  build_root table (some id) = build (suc (length table)) table id []

  unfoldable pub unflatten : FlatLayout T → SplitLayout T
  unflatten flat =
      prune (record { root = build_root (by_id flat.nodes []) flat.root; focused = flat.focused })
        keep_all
