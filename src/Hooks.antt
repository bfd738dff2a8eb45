-- ===== src/Hooks.antt =====
-- packages/interpreter/src/hooks.ts: a chain of middlewares round a base. The arguments are one value,
-- and a middleware gets what it may call next.
pub mod Order
mod Tests
use lisptc.Prelude.{
  ℕ, zero, suc, Bool, true, false, Option, none, some, List, [], ◌∷◌, ◌++◌, length, get_elem?,
}

abbrev pub Middleware {ℓ κ} : Type ℓ → Type κ → Type (ℓ ⊔ κ)
Middleware A R = A → (A → R) → R

pub record Chain {ℓ κ} (A : Type ℓ) (R : Type κ) : Type (ℓ ⊔ κ) where
  pub middlewares : List (Middleware A R)

module _ {ℓ κ} {A : Type ℓ} {R : Type κ} where
  abbrev pub no_items : List (Middleware A R) → Bool
  no_items [] = true
  no_items (_ ∷ _) = false

  unfoldable pub is_empty : Chain A R → Bool
  is_empty c = no_items c.middlewares

  unfoldable pub use_last : Middleware A R → Chain A R → Chain A R
  use_last m c = record { middlewares = c.middlewares ++ m ∷ [] }

  unfoldable pub wrapped_by : Middleware A R → Chain A R → Chain A R
  wrapped_by m c = record { middlewares = m ∷ c.middlewares }

  abbrev pub layer : Option (Middleware A R) → (A → R) → A → R
  layer none rest = rest
  layer (some middleware) rest = λ a. middleware a rest

  -- the loop, which goes down from the last index
  unfoldable pub run_from : ℕ → List (Middleware A R) → (A → R) → A → R
  run_from zero ms next = next
  run_from (suc i) ms next = run_from i ms (layer (get_elem? ms i) next)

  unfoldable pub run : (A → R) → Chain A R → A → R
  run base c = run_from (length c.middlewares) c.middlewares base
