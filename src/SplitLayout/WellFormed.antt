-- ===== src/SplitLayout/WellFormed.antt =====
-- Well-formed trees: a split has two children or more, and a size for each.
pub mod Opening
pub mod Splitting
pub mod Changing
pub mod Reached
use lisptc.Prelude.{
  ℕ, zero, suc, ◌≤◌, ◌≡◌, refl, ap, sym, ◌∙◌, String, Bool, true, false, not, Option, none, some,
  List, [], ◌∷◌, ◌++◌, map, any, find, ◌===◌, ◌==◌, ==_iff, ◌&&◌, ◌||◌, if◌then◌else◌, length,
  replicate, arith, All, All-append, Bool-cases, inl, inr,
}
use lisptc.SplitLayout.{
  Tab, Pane, Node, Nodes, pane, split, end, child, SplitLayout, Sizes, Fraction, Direction, Edge,
  Parent, nodes, even, nodes_of, nodes_in, panes, panes_among, pane_of, map_node, map_nodes,
  map_pane, map_root, on_pane, node_id, parent_of, parent_among, first_of, has_child, size,
}
use lisptc.SplitLayout.Pruning.{prune, keep, settled, settle, settle_all, settle_root, rooted}

abbrev mutual
  pub IsWellFormed {ℓ} : {T : Type ℓ} → Node T → Type 0
  IsWellFormed (pane p) = Unit
  IsWellFormed (split id direction children sizes) =
      (2 ≤ size children) × (length sizes ≡ size children) × AllWellFormed children

  pub AllWellFormed {ℓ} : {T : Type ℓ} → Nodes T → Type 0
  AllWellFormed end = Unit
  AllWellFormed (child node rest) = IsWellFormed node × AllWellFormed rest

abbrev pub OnSome {ℓ κ} : {A : Type ℓ} → (A → Type κ) → Option A → Type κ
OnSome P none = Unit
OnSome P (some a) = P a

pub find-OnSome {ℓ κ} :
    {A : Type ℓ} (P : A → Type κ) (test : A → Bool) (xs : List A)
    → All P xs
    → OnSome P (find test xs)
find-OnSome P test [] h = tt
find-OnSome P test (x ∷ xs) (p, h) = elim (Bool-cases (test x)) [
  | inl e ↦ rw e p
  | inr e ↦ rw e (find-OnSome P test xs h)
]

pub length-replicate {ℓ} : {A : Type ℓ} (n : ℕ) (a : A) → length (replicate n a) ≡ n
length-replicate zero a = refl
length-replicate (suc n) a = ap suc (length-replicate n a)

pub length-even : (n : ℕ) → length (even n) ≡ n
unfolding even
length-even n = length-replicate n _

module _ {ℓ} {T : Type ℓ} where
  abbrev pub HasGoodShape : Parent T → Type 0
  HasGoodShape parent = IsWellFormed (split parent.id parent.direction parent.children parent.sizes)

  size-map_nodes :
      (children : Nodes T) (id : String) (f : Node T → Node T)
      → size (map_nodes children id f) ≡ size children
  unfolding map_nodes
  size-map_nodes end id f = refl
  size-map_nodes (child node rest) id f = ap suc (size-map_nodes rest id f)

  -- an update that keeps well-formed nodes well-formed keeps the tree so
  mutual
    unfolding map_node

    map_node-WellFormed :
        (node : Node T) (id : String) (f : Node T → Node T)
        → ((n : Node T) → IsWellFormed n → IsWellFormed (f n))
        → IsWellFormed node
        → IsWellFormed (map_node node id f)
    map_node-WellFormed (pane p) id f k h = elim (Bool-cases (p.id === id)) [
      | inl e ↦ rw e (k (pane p) tt)
      | inr e ↦ rw e tt
    ]
    map_node-WellFormed (split own direction children sizes) id f k (two, sized, h) =
        let mapped = map_nodes-WellFormed children id f k h in
        let same = size-map_nodes children id f in
        elim (Bool-cases (own === id)) [
          | inl e ↦ rw e (k (split own direction children sizes) (two, sized, h))
          | inr e ↦ rw (e, same) (two, sized, mapped)
        ]

    map_nodes-WellFormed :
        (children : Nodes T) (id : String) (f : Node T → Node T)
        → ((n : Node T) → IsWellFormed n → IsWellFormed (f n))
        → AllWellFormed children
        → AllWellFormed (map_nodes children id f)
    map_nodes-WellFormed end id f k h = tt
    map_nodes-WellFormed (child node rest) id f k (h, t) =
        (map_node-WellFormed node id f k h, map_nodes-WellFormed rest id f k t)

  first_of-HasGoodShape :
      (a b : Option (Parent T))
      → OnSome HasGoodShape a
      → OnSome HasGoodShape b
      → OnSome HasGoodShape (first_of a b)
  first_of-HasGoodShape none b h k = k
  first_of-HasGoodShape (some a) b h k = h

  mutual
    unfolding parent_of

    parent_of-HasGoodShape :
        (node : Node T) (id : String) → IsWellFormed node → OnSome HasGoodShape (parent_of node id)
    parent_of-HasGoodShape (pane p) id h = tt
    parent_of-HasGoodShape (split own direction children sizes) id (two, sized, h) =
        let below = parent_among-HasGoodShape children id h in
        elim (Bool-cases (has_child id children)) [
          | inl e ↦ rw e (two, sized, h)
          | inr e ↦ rw e below
        ]

    parent_among-HasGoodShape :
        (children : Nodes T) (id : String)
        → AllWellFormed children
        → OnSome HasGoodShape (parent_among children id)
    parent_among-HasGoodShape end id h = tt
    parent_among-HasGoodShape (child node rest) id (h, t) =
        first_of-HasGoodShape _ _ (parent_of-HasGoodShape node id h)
          (parent_among-HasGoodShape rest id t)

  mutual
    unfolding nodes_of

    nodes_of-WellFormed : (node : Node T) → IsWellFormed node → All IsWellFormed (nodes_of node)
    nodes_of-WellFormed (pane p) h = (h, tt)
    nodes_of-WellFormed (split id direction children sizes) (two, sized, h) =
        ((two, sized, h), nodes_in-WellFormed children h)

    nodes_in-WellFormed :
        (children : Nodes T) → AllWellFormed children → All IsWellFormed (nodes_in children)
    nodes_in-WellFormed end h = tt
    nodes_in-WellFormed (child node rest) (h, t) =
        All-append IsWellFormed (nodes_of node) (nodes_in rest) (nodes_of-WellFormed node h)
          (nodes_in-WellFormed rest t)

  keep-WellFormed :
      (node : Option (Node T)) (rest : Nodes T)
      → OnSome IsWellFormed node
      → AllWellFormed rest
      → AllWellFormed (keep node rest)
  keep-WellFormed none rest h t = t
  keep-WellFormed (some node) rest h t = (h, t)

  settled-WellFormed :
      (id : String) (direction : Direction) (sizes : Sizes) (before : ℕ) (kept : Nodes T)
      → length sizes ≡ before
      → AllWellFormed kept
      → OnSome IsWellFormed (settled id direction sizes before kept)
  unfolding settled
  settled-WellFormed id direction sizes before end e h = tt
  settled-WellFormed id direction sizes before (child node end) e h = h.0
  settled-WellFormed id direction sizes before (child one (child two rest)) e h =
      elim (Bool-cases (suc (suc (size rest)) == before)) [
        | inl same ↦
            let eq = (==_iff (suc (suc (size rest))) before).0 same in
            rw same (omega arith, e ∙ sym eq, h)
        | inr other ↦ rw other (omega arith, length-even (suc (suc (size rest))), h)
      ]

  mutual
    unfolding settle

    settle-WellFormed :
        (node : Node T) (gone : Pane T → Bool)
        → IsWellFormed node
        → OnSome IsWellFormed (settle node gone)
    settle-WellFormed (pane p) gone h = elim (Bool-cases (gone p)) [
      | inl e ↦ rw e tt
      | inr e ↦ rw e tt
    ]
    settle-WellFormed (split id direction children sizes) gone (two, sized, h) =
        settled-WellFormed id direction sizes (size children) (settle_all children gone) sized
          (settle_all-WellFormed children gone h)

    settle_all-WellFormed :
        (children : Nodes T) (gone : Pane T → Bool)
        → AllWellFormed children
        → AllWellFormed (settle_all children gone)
    settle_all-WellFormed end gone h = tt
    settle_all-WellFormed (child node rest) gone (h, t) =
        keep-WellFormed (settle node gone) (settle_all rest gone) (settle-WellFormed node gone h)
          (settle_all-WellFormed rest gone t)
