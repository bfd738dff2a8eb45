-- ===== src/SplitLayout/Flat/Fuel.antt =====
-- The building of a tree has fuel enough, also where the children of the nodes run in a circle.
use lisptc.Prelude.{
  ℕ, zero, suc, ◌<◌, ◌≡◌, refl, ap, String, Option, none, some, List, [], ◌∷◌, length, arith,
  Bool-cases, inl, inr,
}
use lisptc.Prelude.Dict
use lisptc.Prelude.Dict.{Dict}
use lisptc.Prelude.Seen.{listed, unseen, length-unseen_new, length-unseen_all}
use lisptc.SplitLayout.{Node, Nodes, split}
use lisptc.SplitLayout.Flat.{FlatNode, flat_pane, flat_split, built, build_all, build}

module _ {ℓ} {T : Type ℓ} where
  build_all-same :
      (f g : String → Option (Node T)) (ids : List String)
      → ((id : String) → f id ≡ g id)
      → build_all f ids ≡ build_all g ids
  build_all-same f g [] k = refl
  build_all-same f g (id ∷ ids) k = rw (k id, build_all-same f g ids k) refl

  built-same :
      (below above : List String → Nodes T) (found : Option (FlatNode T))
      → ((node : FlatNode T) → found ≡ some node → (ids : List String) → below ids ≡ above ids)
      → built below found ≡ built above found
  built-same below above none k = refl
  built-same below above (some (flat_pane p)) k = refl
  built-same below above (some (flat_split id direction children sizes)) k =
      ap (λ c. some (split id direction c sizes))
        (k (flat_split id direction children sizes) refl children)

  build-same :
      (f g : ℕ) (table : Dict (FlatNode T)) (id : String) (seen : List String)
      → length (unseen seen table) < f
      → length (unseen seen table) < g
      → build f table id seen ≡ build g table id seen
  unfolding build
  build-same zero g table id seen hf hg = absurd (omega (arith, hf))
  build-same (suc f) zero table id seen hf hg = absurd (omega (arith, hg))
  build-same (suc f) (suc g) table id seen hf hg = elim (Bool-cases (listed id seen)) [
    | inl old ↦ rw old refl
    | inr new ↦ rw new (
        built-same _ _ (Dict.get id table) (λ node e ids.
          let fewer = length-unseen_new id seen table node new e in
          build_all-same _ _ ids (λ child.
            build-same f g table child (id ∷ seen) (omega (arith, fewer, hf))
              (omega (arith, fewer, hg)))))
  ]

  -- With any fuel above the number of nodes the tree below a node is the same: the building ends by
  -- itself.
  pub build-enough :
      (fuel : ℕ) (table : Dict (FlatNode T)) (id : String)
      → length table < fuel
      → build fuel table id [] ≡ build (suc (length table)) table id []
  build-enough fuel table id h =
      let all = length-unseen_all [] table in
      build-same fuel (suc (length table)) table id [] (omega (arith, all, h)) (omega (arith, all))
