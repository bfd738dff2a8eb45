-- ===== src/Permissions/Guard/Passing.antt =====
-- Which calls the guard lets through, and how often a grant serves.
use text.Mathlib.Text.{starts_with}
use lisptc.Prelude.{
  ℕ, String, ◌≡◌, ◌∙◌, Bool, true, false, Option, some, arith, ◌==◌, ◌||◌, ◌&&◌, ===_refl,
}
use lisptc.Prelude.Dict
use lisptc.Prelude.Dict.{has-delete, has-get}
use lisptc.Permissions.{Verdict, ask}
use lisptc.Permissions.Session
use lisptc.Permissions.Session.{SessionRules, is_allow}
use lisptc.Permissions.Approvals.{MemoryApprovals, once, granted, consume}
use lisptc.Permissions.Guard.{
  Call, Outcome, passes, waits, request_for, by_verdict, guard_ask, guard,
}

abbrev pub is_pass : Outcome → Bool
is_pass passes = true
is_pass _ = false

abbrev pub is_ask : Verdict → Bool
is_ask ask = true
is_ask _ = false

by_verdict-is_pass :
    (v : Verdict) (call : Call) (reason : Option String) (a : MemoryApprovals)
    → is_pass (by_verdict v call reason a).0 ≡ (is_allow v || (is_ask v && granted call.name a))
unfolding by_verdict
by_verdict-is_pass v call reason a = ground arith

-- A call passes exactly if the guard is not armed, or the call is one of the permission forms, or
-- the session's decision on its name is allow, or it is ask and the name has been granted.
pub guard-is_pass :
    (armed : ℕ) (rules : SessionRules) (call : Call) (a : MemoryApprovals)
    → is_pass (guard armed rules call a).0 ≡ (
        armed == 0
        || starts_with call.name "permission/"
        || is_allow (Session.decide rules call.name).verdict
        || (is_ask (Session.decide rules call.name).verdict && granted call.name a))
unfolding guard
guard-is_pass armed rules call a =
    let ruling = Session.decide rules call.name in
    ground (arith, by_verdict-is_pass ruling.verdict call ruling.reason a)

guard_on :
    (armed : ℕ) (rules : SessionRules) (call : Call) (a : MemoryApprovals) (reason : Option String)
    → (armed == 0) ≡ false
    → starts_with call.name "permission/" ≡ false
    → Session.decide rules call.name ≡ record { verdict = ask; reason = reason }
    → guard armed rules call a ≡ guard_ask call reason a
unfolding guard by_verdict
guard_on armed rules call a reason is_armed foreign asked = rw (is_armed, foreign, asked)

granted-once :
    (name : String) (a : MemoryApprovals)
    → Dict.get name a.grants ≡ some once
    → (granted name a ≡ true) × (granted name (consume name a) ≡ false)
unfolding granted consume
granted-once name a held =
    (has-get name a.grants ∙ rw held, rw held (has-delete name name a.grants ∙ rw (===_refl name)))

guard_ask-once :
    (call : Call) (a : MemoryApprovals) (reason : Option String)
    → Dict.get call.name a.grants ≡ some once
    → ((guard_ask call reason a).0 ≡ passes)
      × ((guard_ask call reason (guard_ask call reason a).1).0 ≡ waits (request_for call reason))
unfolding guard_ask
guard_ask-once call a reason held =
    let (first, second) = granted-once call.name a held in (rw first, rw (first, second))

-- A grant for one call serves one call: where the decision is to ask, the call that finds it passes,
-- and the same call after it has to wait for a new request.
guard-once :
    (armed : ℕ) (rules : SessionRules) (call : Call) (a : MemoryApprovals) (reason : Option String)
    → (armed == 0) ≡ false
    → starts_with call.name "permission/" ≡ false
    → Session.decide rules call.name ≡ record { verdict = ask; reason = reason }
    → Dict.get call.name a.grants ≡ some once
    → ((guard armed rules call a).0 ≡ passes)
      × ((guard armed rules call (guard armed rules call a).1).0 ≡ waits (request_for call reason))
guard-once armed rules call a reason is_armed foreign asked held =
    rw (guard_on armed rules call a reason is_armed foreign asked) (
      rw (guard_on armed rules call (guard_ask call reason a).1 reason is_armed foreign asked)
        (guard_ask-once call a reason held))
