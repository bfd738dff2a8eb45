-- ===== src/Hooks/Order.antt =====
-- The order of the middlewares of a chain.
use lisptc.Prelude.{
  ℕ, zero, suc, ◌≤◌, ◌≡◌, refl, ap, sym, ◌∙◌, List, [], ◌∷◌, ◌++◌, length, take, get_elem?, arith,
}
use lisptc.Hooks.{Middleware, Chain, layer, run_from, run, use_last, wrapped_by}

take_all {ℓ} : {A : Type ℓ} (xs : List A) → take (length xs) xs ≡ xs
take_all [] = refl
take_all (x ∷ xs) = ap (λ l. x ∷ l) (take_all xs)

module _ {ℓ κ} {A : Type ℓ} {R : Type κ} where
  -- each middleware round all behind it
  abbrev nested : List (Middleware A R) → (A → R) → A → R
  nested [] next = next
  nested (m ∷ ms) next = λ a. m a (nested ms next)

  nested-take :
      (i : ℕ) (ms : List (Middleware A R)) (next : A → R)
      → suc i ≤ length ms
      → nested (take i ms) (layer (get_elem? ms i) next) ≡ nested (take (suc i) ms) next
  nested-take i [] next h = ground arith
  nested-take zero (m ∷ ms) next h = refl
  nested-take (suc i) (m ∷ ms) next h =
      ap (λ f. (λ a. m a f)) (nested-take i ms next (omega (arith, h)))

  run_from-nested :
      (i : ℕ) (ms : List (Middleware A R)) (next : A → R)
      → i ≤ length ms
      → run_from i ms next ≡ nested (take i ms) next
  unfolding run_from
  run_from-nested zero ms next h = refl
  run_from-nested (suc i) ms next h =
      run_from-nested i ms (layer (get_elem? ms i) next) (omega (arith, h))
      ∙ nested-take i ms next h

  run-nested : (c : Chain A R) (base : A → R) → run base c ≡ nested c.middlewares base
  unfolding run
  run-nested c base =
      run_from-nested (length c.middlewares) c.middlewares base (omega arith)
      ∙ ap (λ ms. nested ms base) (take_all c.middlewares)

  nested-last :
      (ms : List (Middleware A R)) (m : Middleware A R) (base : A → R)
      → nested (ms ++ m ∷ []) base ≡ nested ms (λ a. m a base)
  nested-last [] m base = refl
  nested-last (n ∷ ms) m base = ap (λ f. (λ a. n a f)) (nested-last ms m base)

  -- A middleware that `use` adds to a chain stands round the base, inside all that were there before,
  -- and one that `wrappedBy` adds stands outside all of them.
  pub run-use_last :
      (c : Chain A R) (m : Middleware A R) (base : A → R)
      → (run base (use_last m c) ≡ run (λ a. m a base) c)
        × (run base (wrapped_by m c) ≡ (λ a. m a (run base c)))
  unfolding use_last wrapped_by
  run-use_last c m base = (
    run-nested (use_last m c) base
        ∙ nested-last c.middlewares m base
        ∙ sym (run-nested c (λ a. m a base)),
    run-nested (wrapped_by m c) base ∙ ap (λ f. (λ a. m a f)) (sym (run-nested c base)),
  )
