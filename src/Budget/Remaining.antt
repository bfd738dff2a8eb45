-- ===== src/Budget/Remaining.antt =====
-- What a charge takes off what remains, and what a slice grants.
use lisptc.Prelude.{
  ℕ, suc, ◌+◌, ◌≡◌, refl, ap, ◌∙◌, String, true, Option, none, some, List, [], ◌∷◌, length,
  ===_refl, arith, All, Bool-cases, inl, inr,
}
use lisptc.Prelude.Int.{ℤ, pos, ◌-ℤ◌, leb_ℤ, ◌≤ℤ◌, -ℤ_parts, eq_of_parts}
use lisptc.Budget.{
  Limits, Usage, Account, Accounts, Chain, no_limits, tighter, within, listed, chain_from, chain,
  less, left_of, left_along, remaining, slice, or_zero, charged, charge_along, charge,
}
use lisptc.Budget.Charging.{
  ids_of, charged_all, chain_from-IsNew, chain_from-charged, get-charge_along, length-charge_along,
}

listed-more :
    (other : String) (ids more : List String)
    → All (λ id. listed id ids ≡ true) more
    → All (λ id. listed id (other ∷ ids) ≡ true) more
listed-more other ids [] h = tt
listed-more other ids (id ∷ more) (h, hs) = (ground (arith, h), listed-more other ids more hs)

listed_self : (ids : List String) → All (λ id. listed id ids ≡ true) ids
listed_self [] = tt
listed_self (id ∷ ids) = (rw (===_refl id) refl, listed-more id ids ids (listed_self ids))

-- the limits with a usage taken off
unfoldable pub reduced : Usage → Limits → Limits
reduced usage limits = record {
  steps = less limits.steps (or_zero usage.steps);
  tokens = less limits.tokens (or_zero usage.tokens);
  deadline = limits.deadline;
}

less_twice : (limit : Option ℤ) (a b : ℕ) → less limit (a + b) ≡ less (less limit a) b
less_twice none a b = refl
less_twice (some limit) a b = ap some (
    eq_of_parts (limit -ℤ pos (a + b)) (limit -ℤ pos a -ℤ pos b) (
      omega (
        arith,
        -ℤ_parts limit (pos (a + b)),
        -ℤ_parts limit (pos a),
        -ℤ_parts (limit -ℤ pos a) (pos b),
      )))

left_of-charged :
    (usage : Usage) (account : Account)
    → left_of (charged usage account) ≡ reduced usage (left_of account)
unfolding left_of charged reduced
left_of-charged usage account =
    rw
      (
        less_twice account.limits.steps account.steps (or_zero usage.steps),
        less_twice account.limits.tokens account.tokens (or_zero usage.tokens),
      )
      refl

leb_ℤ-less : (a b : ℤ) (u : ℕ) → leb_ℤ (a -ℤ pos u) (b -ℤ pos u) ≡ leb_ℤ a b
leb_ℤ-less a b u = ground (arith, -ℤ_parts a (pos u), -ℤ_parts b (pos u))

tighter-less : (a b : Option ℤ) (u : ℕ) → tighter (less a u) (less b u) ≡ less (tighter a b) u
unfolding tighter
tighter-less none b u = refl
tighter-less (some a) none u = refl
tighter-less (some a) (some b) u = elim (Bool-cases (leb_ℤ a b)) [
  | inl first ↦ rw (leb_ℤ-less a b u, first) refl
  | inr second ↦ rw (leb_ℤ-less a b u, second) refl
]

within-reduced :
    (usage : Usage) (a b : Limits)
    → within (reduced usage a) (reduced usage b) ≡ reduced usage (within a b)
unfolding within reduced
within-reduced usage a b =
    rw
      (
        tighter-less a.steps b.steps (or_zero usage.steps),
        tighter-less a.tokens b.tokens (or_zero usage.tokens),
      )
      refl

left_along-charged :
    (usage : Usage) (left : Limits) (c : Chain)
    → left_along (reduced usage left) (charged_all usage c) ≡ reduced usage (left_along left c)
unfolding left_along
left_along-charged usage left [] = refl
left_along-charged usage left ((at, account) ∷ c) =
    ap (λ l. left_along (within (reduced usage left) l) (charged_all usage c))
      (left_of-charged usage account)
    ∙ ap (λ l. left_along l (charged_all usage c)) (within-reduced usage left (left_of account))
    ∙ left_along-charged usage (within left (left_of account)) c

chain-charge :
    (accounts : Accounts) (thread : String) (usage : Usage)
    → chain (charge accounts thread usage) thread ≡ charged_all usage (chain accounts thread)
unfolding charge chain
chain-charge accounts thread usage =
    let ids = ids_of (chain_from (suc (length accounts)) (some thread) [] accounts) in
    let once = chain_from-IsNew (suc (length accounts)) (some thread) [] accounts in
    ap (λ n. chain_from (suc n) (some thread) [] (charge_along usage ids accounts))
      (length-charge_along usage ids accounts)
    ∙ chain_from-charged usage ids accounts (charge_along usage ids accounts)
        (suc (length accounts)) (some thread) []
        (λ id. get-charge_along usage ids id accounts once.1) (listed_self ids)

-- A charge on a thread takes exactly what was used off the steps and the tokens that remain for it,
-- where these are limited, and leaves its deadline.
pub remaining-charge :
    (accounts : Accounts) (thread : String) (usage : Usage)
    → remaining (charge accounts thread usage) thread ≡ reduced usage (remaining accounts thread)
unfolding remaining reduced
remaining-charge accounts thread usage =
    ap (left_along no_limits) (chain-charge accounts thread usage)
    ∙ left_along-charged usage no_limits (chain accounts thread)

-- no limit is the greatest limit
abbrev pub IsAtMost : Option ℤ → Option ℤ → Type 0
IsAtMost a none = Unit
IsAtMost none (some b) = ⊥
IsAtMost (some a) (some b) = a ≤ℤ b

abbrev pub IsWithin : Limits → Limits → Type 0
IsWithin a b =
    IsAtMost a.steps b.steps × IsAtMost a.tokens b.tokens × IsAtMost a.deadline b.deadline

tighter-IsAtMost : (a b : Option ℤ) → IsAtMost (tighter a b) a × IsAtMost (tighter a b) b
unfolding tighter
tighter-IsAtMost none none = (tt, tt)
tighter-IsAtMost none (some b) = (tt, omega arith)
tighter-IsAtMost (some a) none = (omega arith, tt)
tighter-IsAtMost (some a) (some b) = ground arith

-- What a slice grants of each resource is at most what was asked and at most what remains for the
-- parent, where no limit counts as the greatest.
slice-IsWithin :
    (accounts : Accounts) (parent : String) (asked : Limits)
    → IsWithin (slice accounts parent asked) asked
      × IsWithin (slice accounts parent asked) (remaining accounts parent)
unfolding slice within
slice-IsWithin accounts parent asked =
    let left = remaining accounts parent in
    let steps = tighter-IsAtMost asked.steps left.steps in
    let tokens = tighter-IsAtMost asked.tokens left.tokens in
    let deadline = tighter-IsAtMost asked.deadline left.deadline in
    ((steps.0, tokens.0, deadline.0), (steps.1, tokens.1, deadline.1))
