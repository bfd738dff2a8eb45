-- ===== src/Permissions/Tests.antt =====
-- Runs of the permission rules, and the theorems at concrete configurations.
use Prim.Native.Nat.{max}
use package.text.Mathlib.Text.{starts_with}
use lisptc.Prelude.{◌≤◌, ◌≡◌, refl, true, false, none, some, [], ◌∷◌, map, ◌==◌, ◌||◌, ◌&&◌}
use lisptc.Prelude.Result.{ok}
use lisptc.Value.{Value, null, text, sym, key, cell}
use lisptc.Permissions.{allow, deny, ask, strength}
use lisptc.Permissions.Glob.{glob, test}
use lisptc.Permissions.Rules
use lisptc.Permissions.Rules.{
  Rule, PermissionRules, no_rules, named, hides, decide, winner_from, left_out,
}
use lisptc.Permissions.Rules.Strongest.{level}
use lisptc.Permissions.Parse.{parse_rules, split, names_and_reason, rule_set}
use lisptc.Permissions.Parse.Lasting.{named-parse_rules}
use lisptc.Permissions.Session
use lisptc.Permissions.Session.{SessionRules, held_decides, asks_for, is_allow, strongest}
use lisptc.Permissions.Session.Bounds
use lisptc.Permissions.Session.Bounds.{greatest, greatest_access}
use lisptc.Permissions.Approvals.{
  ApprovalRequest, Decision, MemoryApprovals, once, no_approvals, granted,
}
use lisptc.Permissions.Guard.{Call, guard}
use lisptc.Permissions.Guard.Passing.{is_pass, is_ask, guard-is_pass}

abbrev deny_form : Value
deny_form =
    cell (sym "permission/deny") (cell (sym "rm*") (cell (key "reason") (cell (text "no") null)))

abbrev allow_form : Value
allow_form = cell (sym "permission/allow") (cell (sym "rm-tmp") null)

abbrev deny_rm : Rule
deny_rm = record { verdict = deny; pattern = glob "rm*"; reason = some "no" }

abbrev allow_tmp : Rule
allow_tmp = record { verdict = allow; pattern = glob "rm-tmp"; reason = none }

abbrev strict : PermissionRules
strict = record no_rules { rules = deny_rm ∷ [] }

abbrev relaxed : PermissionRules
relaxed = record no_rules { rules = deny_rm ∷ allow_tmp ∷ [] }

strict-parsed : parse_rules (deny_form ∷ []) ≡ ok strict
unfolding parse_rules split names_and_reason rule_set
strict-parsed = refl

relaxed-parsed : parse_rules (deny_form ∷ allow_form ∷ []) ≡ ok relaxed
unfolding parse_rules split names_and_reason rule_set
relaxed-parsed = refl

-- `*` alone names multiplication and matches nothing else.
star_alone : (test (glob "*") "*" ≡ true) × (test (glob "*") "rm" ≡ false)
unfolding test glob
star_alone = (refl, refl)

named-parse_rules_example : level (named strict "rm-tmp") ≤ level (named relaxed "rm-tmp")
named-parse_rules_example =
    named-parse_rules (deny_form ∷ []) (allow_form ∷ []) strict relaxed "rm-tmp" strict-parsed
      relaxed-parsed

denied_twice : (decide relaxed "rm-tmp").verdict ≡ deny
unfolding decide hides named winner_from test glob left_out
denied_twice = refl

abbrev sitting : SessionRules
sitting = record { held = no_rules; asks = "fetch*" ∷ []; bounds = strict ∷ [] }

strength-session_decide_example :
    strength (Session.decide sitting "rm").verdict
    ≡ max
        (strength (held_decides sitting "rm").verdict)
        (greatest (map (λ bound. Rules.decide bound "rm") (strict ∷ [])))
strength-session_decide_example = Bounds.strength-session_decide sitting "rm"

abbrev request : ApprovalRequest
request = record {
  id = "1";
  name = "fetch-url";
  args = "";
  reason = none;
  stamp = 7;
  change = false;
  restored = false;
}

abbrev waiting : MemoryApprovals
waiting = record no_approvals { open_requests = ("1", request) ∷ [] }

abbrev approve : Decision
approve = record { id = "1"; approved = true; scope = once; by = "user" }

abbrev call : Call
call = record { name = "fetch-url"; args = "(fetch-url)"; id = "2"; now = 9 }

abbrev one_grant : MemoryApprovals
one_grant = record no_approvals { grants = ("fetch-url", once) ∷ [] }

guard-is_pass_example : is_pass (guard 1 sitting call one_grant).0 ≡ (
    1 == 0
    || starts_with "fetch-url" "permission/"
    || is_allow (Session.decide sitting "fetch-url").verdict
    || (is_ask (Session.decide sitting "fetch-url").verdict && granted "fetch-url" one_grant))
guard-is_pass_example = guard-is_pass 1 sitting call one_grant

fetch-asked : Session.decide sitting "fetch-url" ≡ record { verdict = ask; reason = none }
unfolding Session.decide asks_for named decide hides winner_from test glob left_out
fetch-asked = refl
