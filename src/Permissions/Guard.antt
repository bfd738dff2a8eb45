-- ===== src/Permissions/Guard.antt =====
-- packages/permissions/src/permissions.ts: `guard`, which stands before every call of an agent.
-- The hold on which the evaluator waits is not modelled: a call that must wait ends with the request
-- that was opened for it. The id and the time of a request come from the host.
pub mod Passing
use text.Mathlib.Text.{starts_with}
use lisptc.Prelude.{ℕ, String, Bool, true, false, Option, none, some, ◌==◌, ◌||◌, if◌then◌else◌}
use lisptc.Permissions.{Verdict, allow, deny, ask}
use lisptc.Permissions.Session
use lisptc.Permissions.Session.{SessionRules}
use lisptc.Permissions.Approvals.{ApprovalRequest, MemoryApprovals, open_request, granted, consume}

pub record Call : Type 0 where
  pub name : String
  pub args : String
  pub id : String
  pub now : ℕ

pub data Outcome : Type 0 where
  passes : Outcome
  refused : Option String → Outcome
  waits : ApprovalRequest → Outcome

-- `ask` for a call, which changes no configuration
unfoldable pub request_for : Call → Option String → ApprovalRequest
request_for call reason = record {
  id = call.id;
  name = call.name;
  args = call.args;
  reason = reason;
  stamp = call.now;
  change = false;
  restored = false;
}

unfoldable pub guard_ask : Call → Option String → MemoryApprovals → Outcome × MemoryApprovals
unfolding request_for
guard_ask call reason a =
    if granted call.name a
    then (passes, consume call.name a)
    else (waits (request_for call reason), open_request (request_for call reason) a)

unfoldable pub by_verdict :
    Verdict → Call → Option String → MemoryApprovals → Outcome × MemoryApprovals
unfolding guard_ask
by_verdict allow call reason a = (passes, a)
by_verdict deny call reason a = (refused reason, a)
by_verdict ask call reason a = guard_ask call reason a

unfoldable pub guard : ℕ → SessionRules → Call → MemoryApprovals → Outcome × MemoryApprovals
guard armed rules call a =
    let ruling = Session.decide rules call.name in
    if armed == 0 || starts_with call.name "permission/"
    then (passes, a)
    else by_verdict ruling.verdict call ruling.reason a
