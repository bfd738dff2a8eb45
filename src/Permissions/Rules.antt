-- ===== src/Permissions/Rules.antt =====
-- packages/permissions/src/rules.ts: `PermissionRules`, the rules that a configuration holds.
pub mod Strongest
use lisptc.Prelude.{
  ℕ, String, Bool, true, false, not, ◌&&◌, ◌||◌, Option, none, some, List, [], ◌∷◌, any, ltb,
  if◌then◌else◌,
}
use Prim.Native.String.{◌++◌}
use text.Mathlib.Text.{starts_with}
use lisptc.Prelude.Dict
use lisptc.Prelude.Dict.{Dict}
use lisptc.Value.{Value}
use lisptc.Permissions.{Verdict, allow, deny, Ruling, ServerAccess, open_access, strength}
use lisptc.Permissions.Glob.{Glob, test}

pub record Rule : Type 0 where
  pub verdict : Verdict
  pub pattern : Glob
  pub reason : Option String

pub record PermissionRules : Type 0 where
  pub rules : List Rule
  pub hidden_names : List Glob
  pub only : Dict (List Glob)
  pub servers : Dict ServerAccess
  pub fallback : Verdict

abbrev pub beats : Rule → Option Rule → Bool
beats rule none = true
beats rule (some winner) = ltb (strength winner.verdict) (strength rule.verdict)

-- the loop of `named`
unfoldable pub winner_from : Option Rule → List Rule → String → Option Rule
winner_from winner [] name = winner
winner_from winner (rule ∷ rules) name =
    winner_from (if test rule.pattern name && beats rule winner then some rule else winner) rules
      name

abbrev pub ruling_of : Option Rule → Option Ruling
ruling_of none = none
ruling_of (some rule) = some (record { verdict = rule.verdict; reason = rule.reason })

unfoldable pub named : PermissionRules → String → Option Ruling
named held name = ruling_of (winner_from none held.rules name)

-- the second loop of `hides`
unfoldable pub left_out : Dict (List Glob) → String → Bool
left_out [] name = false
left_out ((prefix, shown) ∷ only) name =
    starts_with name prefix && not (any (λ p. test p name) shown) || left_out only name

unfoldable pub hides : PermissionRules → String → Bool
hides held name = any (λ p. test p name) held.hidden_names || left_out held.only name

abbrev pub or_verdict : Option Ruling → Verdict → Ruling
or_verdict none fallback = record { verdict = fallback; reason = none }
or_verdict (some ruling) fallback = ruling

unfoldable pub decide : PermissionRules → String → Ruling
decide held name =
    if hides held name
    then record { verdict = deny; reason = some "hidden" }
    else or_verdict (named held name) held.fallback

abbrev or_open : Option ServerAccess → ServerAccess
or_open none = open_access
or_open (some access) = access

unfoldable pub server : PermissionRules → String → ServerAccess
server held name = or_open (Dict.get name held.servers)

unfoldable pub tool : PermissionRules → String → String → Bool
tool held server_name tool_name = not (hides held (server_name ++ "/" ++ tool_name))

abbrev pub no_rules : PermissionRules
no_rules = record { rules = []; hidden_names = []; only = []; servers = []; fallback = allow }
