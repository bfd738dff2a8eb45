-- ===== src/SplitLayout.antt =====
-- packages/shared/src/split-layout.ts: the tree of panes and splits, and the walks over it.
-- A size is a fraction of numbers, `none` where the program reads past the end of the sizes.
pub mod Pruning
pub mod Placing
pub mod Moving
pub mod Ids
pub mod Shape
pub mod Flat
mod Tests
pub mod WellFormed
use Prim.Native.String.{slice, ◌++◌ as ◌<>◌}
use lisptc.Prelude.{
  ℕ, zero, suc, ◌/◌, ◌%◌, String, Bool, true, false, Option, none, some, List, [], ◌∷◌, ◌++◌, map,
  any, find, ◌===◌, ltb, if◌then◌else◌, length, replicate,
}

pub data Direction : Type 0 where
  row column : Direction

pub data Edge : Type 0 where
  left right top bottom : Edge

pub record Fraction : Type 0 where
  pub numerator : ℕ
  pub denominator : ℕ

abbrev pub Sizes : Type 0
Sizes = List (Option Fraction)

pub record Tab {ℓ} (T : Type ℓ) : Type ℓ where
  pub id : String
  pub content : T
  pub fixed : Bool

pub record Pane {ℓ} (T : Type ℓ) : Type ℓ where
  pub id : String
  pub tabs : List (Tab T)
  pub active : Option String

mutual
  pub data Node {ℓ} (T : Type ℓ) : Type ℓ where
    pane : Pane T → Node T
    split : String → Direction → Nodes T → Sizes → Node T

  pub data Nodes {ℓ} (T : Type ℓ) : Type ℓ where
    end : Nodes T
    child : Node T → Nodes T → Nodes T

pub record SplitLayout {ℓ} (T : Type ℓ) : Type ℓ where
  pub root : Option (Node T)
  pub focused : Option String

abbrev pub is_empty {ℓ} : {A : Type ℓ} → List A → Bool
is_empty [] = true
is_empty (_ ∷ _) = false

-- `100 / count`, `count` times
unfoldable pub even : ℕ → Sizes
even count = replicate count (some (record { numerator = 100; denominator = count }))

abbrev pub empty_layout {ℓ} : {T : Type ℓ} → SplitLayout T
empty_layout = record { root = none; focused = none }

-- the decimal numeral of a number, as a template string writes it
abbrev pub digit : ℕ → String
digit n = slice "0123456789" n (suc n)

unfoldable pub numeral_on : ℕ → ℕ → String
numeral_on zero n = ""
numeral_on (suc fuel) n =
    let rest = numeral_on fuel (n / 10) in if ltb n 10 then digit n else rest <> digit (n % 10)

unfoldable pub numeral : ℕ → String
unfolding numeral_on
numeral n = numeral_on (suc n) n

-- the first id from `n` on that is not taken
unfoldable pub free_from : ℕ → String → ℕ → List String → String
free_from zero prefix n taken = prefix <> numeral n
free_from (suc fuel) prefix n taken =
    let later = free_from fuel prefix (suc n) taken in
    if any (λ id. id === (prefix <> numeral n)) taken then later else prefix <> numeral n

module _ {ℓ} {T : Type ℓ} where
  abbrev pub node_id : Node T → String
  node_id (pane p) = p.id
  node_id (split id direction children sizes) = id

  unfoldable mutual
    pub nodes_of : Node T → List (Node T)
    nodes_of (pane p) = pane p ∷ []
    nodes_of (split id direction children sizes) =
        split id direction children sizes ∷ nodes_in children

    pub nodes_in : Nodes T → List (Node T)
    nodes_in end = []
    nodes_in (child node rest) = nodes_of node ++ nodes_in rest

  unfoldable pub nodes : Option (Node T) → List (Node T)
  nodes none = []
  nodes (some root) = nodes_of root

  unfoldable pub panes_among : List (Node T) → List (Pane T)
  panes_among [] = []
  panes_among (pane p ∷ rest) = p ∷ panes_among rest
  panes_among (split _ _ _ _ ∷ rest) = panes_among rest

  unfoldable pub panes : SplitLayout T → List (Pane T)
  panes layout = panes_among (nodes layout.root)

  unfoldable pub tabs_of : List (Pane T) → List (Tab T)
  tabs_of [] = []
  tabs_of (p ∷ rest) = p.tabs ++ tabs_of rest

  unfoldable pub all_tabs : SplitLayout T → List (Tab T)
  all_tabs layout = tabs_of (panes layout)

  abbrev pub id_of : Option (Pane T) → Option String
  id_of none = none
  id_of (some p) = some p.id

  unfoldable pub vacant_pane : SplitLayout T → Option String
  vacant_pane layout = id_of (find (λ p. is_empty p.tabs) (panes layout))

  unfoldable pub holds : String → Pane T → Bool
  holds tab_id p = any (λ t. t.id === tab_id) p.tabs

  unfoldable pub pane_of : SplitLayout T → String → Option (Pane T)
  pane_of layout tab_id = find (holds tab_id) (panes layout)

  unfoldable pub next_id : SplitLayout T → String → List String → String
  next_id layout prefix also =
      let taken = map node_id (nodes layout.root) ++ also in
      free_from (suc (length taken)) prefix 1 taken

  unfoldable mutual
    pub map_node : Node T → String → (Node T → Node T) → Node T
    map_node (pane p) id update = if p.id === id then update (pane p) else pane p
    map_node (split own direction children sizes) id update =
        let mapped = map_nodes children id update in
        if own === id
        then update (split own direction children sizes)
        else split own direction mapped sizes

    pub map_nodes : Nodes T → String → (Node T → Node T) → Nodes T
    map_nodes end id update = end
    map_nodes (child node rest) id update =
        child (map_node node id update) (map_nodes rest id update)

  abbrev pub on_pane : (Pane T → Pane T) → Node T → Node T
  on_pane update (pane p) = pane (update p)
  on_pane update (split id direction children sizes) = split id direction children sizes

  abbrev pub map_root : (Node T → Node T) → Option (Node T) → Option (Node T)
  map_root f none = none
  map_root f (some root) = some (f root)

  unfoldable pub map_pane : SplitLayout T → String → (Pane T → Pane T) → SplitLayout T
  map_pane layout pane_id update = record layout {
    root = map_root (λ root. map_node root pane_id (on_pane update)) layout.root;
  }

  abbrev pub size : Nodes T → ℕ
  size end = 0
  size (child _ rest) = suc (size rest)

  abbrev pub has_child : String → Nodes T → Bool
  has_child id end = false
  has_child id (child node rest) = if node_id node === id then true else has_child id rest

-- a split, as the program holds one
pub record Parent {ℓ} (T : Type ℓ) : Type ℓ where
  pub id : String
  pub direction : Direction
  pub children : Nodes T
  pub sizes : Sizes

module _ {ℓ} {T : Type ℓ} where
  abbrev pub first_of : Option (Parent T) → Option (Parent T) → Option (Parent T)
  first_of none other = other
  first_of (some found) other = some found

  unfoldable mutual
    pub parent_of : Node T → String → Option (Parent T)
    parent_of (pane p) id = none
    parent_of (split own direction children sizes) id =
        let below = parent_among children id in
        if has_child id children
        then some (record { id = own; direction = direction; children = children; sizes = sizes })
        else below

    parent_among : Nodes T → String → Option (Parent T)
    parent_among end id = none
    parent_among (child node rest) id = first_of (parent_of node id) (parent_among rest id)
