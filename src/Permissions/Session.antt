-- ===== src/Permissions/Session.antt =====
-- packages/permissions/src/permissions.ts: `SessionRules`, the rules of a session under the bounds
-- that an enclosing agent sets. `held` is what the stored configuration parses to.
pub mod Bounds
use lisptc.Prelude.{
  ℕ, String, Bool, true, false, not, ◌&&◌, ◌||◌, Option, none, some, List, [], ◌∷◌, ◌++◌, map, any,
  all, ltb, ◌==◌, ◌===◌, if◌then◌else◌,
}
use mathlib.Core.Option
use lisptc.Permissions.{Verdict, allow, deny, ask, Ruling, ServerAccess, strength, server_strength}
use lisptc.Permissions.Glob.{codes}
use lisptc.Permissions.Rules
use lisptc.Permissions.Rules.{PermissionRules, or_verdict}

pub record SessionRules : Type 0 where
  pub held : PermissionRules
  pub asks : List String
  pub bounds : List PermissionRules

abbrev stronger : Ruling → Option Ruling → Bool
stronger ruling none = true
stronger ruling (some winner) = ltb (strength winner.verdict) (strength ruling.verdict)

-- the loop of `strongest`
pub strongest_from : Option Ruling → List Ruling → Option Ruling
strongest_from winner [] = winner
strongest_from winner (ruling ∷ rulings) =
    strongest_from (if stronger ruling winner then some ruling else winner) rulings

unfoldable pub strongest : List Ruling → Option Ruling
unfolding strongest_from
strongest rulings = strongest_from none rulings

-- what stands before a final `*`
star_prefix : List ℕ → Option (List ℕ)
star_prefix [] = none
star_prefix (c ∷ []) = if c == b'*' then some [] else none
star_prefix (c ∷ cs) = Option.map (λ rest. c ∷ rest) (star_prefix cs)

starts : List ℕ → List ℕ → Bool
starts [] name = true
starts (p ∷ ps) [] = false
starts (p ∷ ps) (c ∷ cs) = p == c && starts ps cs

-- one entry of `asks`: a name, or a prefix that ends in `*`
unfoldable pub asks_for : String → String → Bool
unfolding star_prefix starts codes
asks_for asked name = elim (star_prefix (codes asked)) [
  | none ↦ asked === name
  | some prefix ↦ starts prefix (codes name)
]

abbrev pub is_allow : Verdict → Bool
is_allow allow = true
is_allow _ = false

abbrev pub is_none {ℓ} : {A : Type ℓ} → Option A → Bool
is_none none = true
is_none (some a) = false

unfoldable pub held_decides : SessionRules → String → Ruling
held_decides s name =
    let ruling = Rules.decide s.held name in
    if not (is_allow ruling.verdict)
      || not (any (λ asked. asks_for asked name) s.asks)
      || not (is_none (Rules.named s.held name))
    then ruling
    else record { verdict = ask; reason = none }

unfoldable pub decide : SessionRules → String → Ruling
unfolding strongest held_decides
decide s name =
    or_verdict (strongest (held_decides s name ∷ map (λ bound. Rules.decide bound name) s.bounds))
      allow

rulings_of : List PermissionRules → String → List Ruling
rulings_of [] name = []
rulings_of (rules ∷ rest) name = elim (Rules.named rules name) [
  | none ↦ rulings_of rest name
  | some ruling ↦ ruling ∷ rulings_of rest name
]

unfoldable pub named : SessionRules → String → Option Ruling
unfolding rulings_of strongest
named s name = strongest (rulings_of (s.held ∷ s.bounds) name)

-- the loop of `server`
unfoldable pub tightest_from : ServerAccess → List PermissionRules → String → ServerAccess
tightest_from access [] name = access
tightest_from access (bound ∷ bounds) name =
    let tighter = Rules.server bound name in
    tightest_from
      (if ltb (server_strength access) (server_strength tighter) then tighter else access) bounds
      name

unfoldable pub server : SessionRules → String → ServerAccess
unfolding tightest_from
server s name = tightest_from (Rules.server s.held name) s.bounds name

unfoldable pub tool : SessionRules → String → String → Bool
tool s server_name tool_name =
    all (λ rules. Rules.tool rules server_name tool_name) (s.held ∷ s.bounds)
