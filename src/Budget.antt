-- ===== src/Budget.antt =====
-- packages/ai/src/budget.ts: the limits of the threads of an agent, and what they have used.
-- The walk up the parents runs on fuel, one more than the accounts there are, which Budget/Fuel
-- shows to be enough.
pub mod Charging
pub mod Remaining
pub mod Fuel
mod Tests
use lisptc.Prelude.{
  ℕ, zero, suc, ◌+◌, String, Bool, true, false, Option, none, some, List, [], ◌∷◌, map, any, length,
  ◌===◌, if◌then◌else◌,
}
use lisptc.Prelude.Dict
use lisptc.Prelude.Seen.{listed}
use lisptc.Prelude.Dict.{Dict}
use lisptc.Prelude.Int.{ℤ, pos, ◌-ℤ◌, leb_ℤ}

pub record Limits : Type 0 where
  pub steps : Option ℤ
  pub tokens : Option ℤ
  pub deadline : Option ℤ

pub record Usage : Type 0 where
  pub steps : Option ℕ
  pub tokens : Option ℕ

pub record Account : Type 0 where
  pub parent : Option String
  pub limits : Limits
  pub steps : ℕ
  pub tokens : ℕ

abbrev pub Accounts : Type 0
Accounts = Dict Account

abbrev pub no_limits : Limits
no_limits = record { steps = none; tokens = none; deadline = none }

unfoldable pub tighter : Option ℤ → Option ℤ → Option ℤ
tighter none b = b
tighter (some a) none = some a
tighter (some a) (some b) = if leb_ℤ a b then some a else some b

unfoldable pub within : Limits → Limits → Limits
within a b = record {
  steps = tighter a.steps b.steps;
  tokens = tighter a.tokens b.tokens;
  deadline = tighter a.deadline b.deadline;
}

abbrev pub is_out : Option ℤ → ℤ → Bool
is_out none least = false
is_out (some left) least = leb_ℤ left least

unfoldable pub exhausted : Limits → ℤ → Option String
exhausted left now =
    if is_out left.steps (pos 0)
    then some "out of steps"
    else if is_out left.tokens (pos 0)
    then some "out of tokens"
    else if is_out left.deadline now
    then some "past its deadline"
    else none

abbrev pub Chain : Type 0
Chain = List (String × Account)

abbrev pub link : String → Option Account → (Option String → Chain) → Chain
link at none above = []
link at (some account) above = (at, account) ∷ above account.parent

-- an account and those above it, up to the first that was seen before
unfoldable pub chain_from : ℕ → Option String → List String → Accounts → Chain
chain_from zero at seen accounts = []
chain_from (suc fuel) none seen accounts = []
chain_from (suc fuel) (some at) seen accounts =
    let above =
      link at (Dict.get at accounts) (λ next. chain_from fuel next (at ∷ seen) accounts) in
    if listed at seen then [] else above

unfoldable pub chain : Accounts → String → Chain
chain accounts thread = chain_from (suc (length accounts)) (some thread) [] accounts

abbrev pub less : Option ℤ → ℕ → Option ℤ
less none used = none
less (some limit) used = some (limit -ℤ pos used)

-- what an account has left
unfoldable pub left_of : Account → Limits
left_of account = record {
  steps = less account.limits.steps account.steps;
  tokens = less account.limits.tokens account.tokens;
  deadline = account.limits.deadline;
}

unfoldable pub left_along : Limits → Chain → Limits
left_along left [] = left
left_along left ((at, account) ∷ rest) = left_along (within left (left_of account)) rest

unfoldable pub remaining : Accounts → String → Limits
remaining accounts thread = left_along no_limits (chain accounts thread)

unfoldable pub slice : Accounts → String → Limits → Limits
slice accounts parent asked = within asked (remaining accounts parent)

abbrev pub granted : Accounts → Option String → Limits → Limits
granted accounts none asked = asked
granted accounts (some parent) asked = slice accounts parent asked

unfoldable pub open_account : Accounts → String → Option String → Limits → Limits × Accounts
open_account accounts thread parent asked = (
  granted accounts parent asked,
  Dict.put thread
      (record { parent = parent; limits = granted accounts parent asked; steps = 0; tokens = 0 })
      accounts,
)

abbrev pub or_zero : Option ℕ → ℕ
or_zero none = 0
or_zero (some n) = n

unfoldable pub charged : Usage → Account → Account
charged usage account = record account {
  steps = account.steps + or_zero usage.steps;
  tokens = account.tokens + or_zero usage.tokens;
}

-- the account of that thread is changed where it stands
unfoldable pub charge_one : Usage → String → Accounts → Accounts
charge_one usage thread [] = []
charge_one usage thread ((at, account) ∷ rest) =
    let later = charge_one usage thread rest in
    if at === thread then (at, charged usage account) ∷ rest else (at, account) ∷ later

unfoldable pub charge_along : Usage → List String → Accounts → Accounts
charge_along usage [] accounts = accounts
charge_along usage (at ∷ rest) accounts = charge_along usage rest (charge_one usage at accounts)

unfoldable pub charge : Accounts → String → Usage → Accounts
charge accounts thread usage = charge_along usage (map (λ e. e.0) (chain accounts thread)) accounts
