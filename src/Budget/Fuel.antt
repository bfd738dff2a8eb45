-- ===== src/Budget/Fuel.antt =====
-- The walk up the parents has fuel enough.
use lisptc.Prelude.{
  ℕ, zero, suc, ◌<◌, ◌≡◌, refl, ap, String, Option, none, some, List, [], ◌∷◌, length, arith,
  Bool-cases, inl, inr,
}
use lisptc.Prelude.Dict
use lisptc.Prelude.Seen.{listed, unseen, length-unseen_new, length-unseen_all}
use lisptc.Budget.{Account, Accounts, Chain, link, chain_from, chain}

link-same :
    (at : String) (found : Option Account) (above later : Option String → Chain)
    → ((account : Account) → found ≡ some account → above account.parent ≡ later account.parent)
    → link at found above ≡ link at found later
link-same at none above later k = refl
link-same at (some account) above later k = ap (λ c. (at, account) ∷ c) (k account refl)

chain_from-same :
    (f g : ℕ) (at : Option String) (seen : List String) (m : Accounts)
    → length (unseen seen m) < f
    → length (unseen seen m) < g
    → chain_from f at seen m ≡ chain_from g at seen m
unfolding chain_from
chain_from-same zero g at seen m hf hg = ground arith
chain_from-same (suc f) zero at seen m hf hg = ground arith
chain_from-same (suc f) (suc g) none seen m hf hg = refl
chain_from-same (suc f) (suc g) (some at) seen m hf hg = elim (Bool-cases (listed at seen)) [
  | inl old ↦ rw old refl
  | inr new ↦ rw new (
      link-same at (Dict.get at m) _ _ (λ account e.
        let fewer = length-unseen_new at seen m account new e in
        chain_from-same f g account.parent (at ∷ seen) m (omega (arith, fewer, hf))
          (omega (arith, fewer, hg))))
]

-- With any fuel above the number of accounts the walk from a thread gives the same chain: it ends
-- by itself, also where the parents run in a circle.
chain-enough :
    (accounts : Accounts) (thread : String) (fuel : ℕ)
    → length accounts < fuel
    → chain_from fuel (some thread) [] accounts ≡ chain accounts thread
unfolding chain
chain-enough accounts thread fuel h =
    let all = length-unseen_all [] accounts in
    chain_from-same fuel (suc (length accounts)) (some thread) [] accounts (omega (arith, all, h))
      (omega (arith, all))
