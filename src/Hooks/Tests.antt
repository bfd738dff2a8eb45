-- ===== src/Hooks/Tests.antt =====
-- Runs of a chain, and the theorem on it.
use lisptc.Prelude.{ℕ, ◌+◌, ◌*◌, ◌≡◌, refl, [], ◌∷◌}
use lisptc.Hooks.{Middleware, Chain, run, run_from, use_last, wrapped_by}
use lisptc.Hooks.Order.{run-use_last}

abbrev doubles : Middleware ℕ ℕ
doubles n next = 2 * next n

abbrev adds : Middleware ℕ ℕ
adds n next = 1 + next n

abbrev doubling : Chain ℕ ℕ
doubling = record { middlewares = doubles ∷ [] }

run-doubling : run (λ n. n) (use_last adds doubling) 5 ≡ 12
unfolding run run_from use_last
run-doubling = refl

run-use_last_example :
    (run (λ n. n) (use_last adds doubling) ≡ run (λ n. 1 + n) doubling)
    × (run (λ n. n) (wrapped_by adds doubling) ≡ (λ n. 1 + run (λ n. n) doubling n))
run-use_last_example = run-use_last doubling adds (λ n. n)
