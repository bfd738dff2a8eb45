-- ===== src/Budget/Tests.antt =====
-- Runs on the accounts of a thread and its child, and the theorems on them.
use lisptc.Prelude.{◌≡◌, refl, none, some, [], ◌∷◌}
use lisptc.Prelude.Int.{pos, ◌-ℤ◌}
use lisptc.Budget.{
  Limits, Usage, Accounts, no_limits, open_account, remaining, slice, charge, chain, chain_from,
  left_along, left_of, within, tighter, charge_along, charge_one, charged,
}
use lisptc.Budget.Remaining.{reduced, remaining-charge}
use lisptc.Prelude.Dict.{get, put}

abbrev ten_steps : Limits
ten_steps = record no_limits { steps = some (pos 10) }

abbrev two_steps : Usage
two_steps = record { steps = some 2; tokens = some 100 }

abbrev family : Accounts
family = (open_account (open_account [] "root" none ten_steps).1 "child" (some "root") no_limits).1

-- What the child uses is taken off its parent too.
charged_parent :
    remaining (charge family "child" two_steps) "root" ≡ record no_limits { steps = some (pos 8) }
unfolding remaining charge charge_along charge_one charged chain chain_from left_along left_of
    within tighter open_account slice get put ◌-ℤ◌
charged_parent = refl

remaining-charge_example :
    remaining (charge family "child" two_steps) "child"
    ≡ reduced two_steps (remaining family "child")
remaining-charge_example = remaining-charge family "child" two_steps

abbrev circle : Accounts
circle =
    ("a", record { parent = some "b"; limits = ten_steps; steps = 0; tokens = 0 })
    ∷ ("b", record { parent = some "a"; limits = no_limits; steps = 0; tokens = 0 })
    ∷ []
