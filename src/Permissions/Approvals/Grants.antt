-- ===== src/Permissions/Approvals/Grants.antt =====
-- What a decision grants, and that it is settled once.
use lisptc.Prelude.{String, ◌≡◌, ap, true, none, some, arith, ===_refl, ◌===◌, if◌then◌else◌}
use lisptc.Prelude.Dict
use lisptc.Prelude.Dict.{get-delete, has-put}
use lisptc.Permissions.Approvals.{
  ApprovalRequest, MemoryApprovals, Decision, settle, resolve, granted,
}

settle-granted :
    (a : MemoryApprovals) (decision : Decision) (request : ApprovalRequest) (name : String)
    → granted name (settle decision a (some request)).1 ≡ (
        if decision.approved
        then if request.name === name then true else granted name a
        else granted name a)
unfolding settle granted
settle-granted a decision request name =
    ground (arith, has-put request.name name decision.scope a.grants)

settle_again :
    (a : MemoryApprovals) (decision : Decision) (request : ApprovalRequest)
    → (resolve decision (settle decision a (some request)).1).0 ≡ none
unfolding resolve
settle_again a decision request =
    rw (get-delete decision.id decision.id a.open_requests, ===_refl decision.id)

resolve_eq :
    (a : MemoryApprovals) (decision : Decision) (request : ApprovalRequest)
    → Dict.get decision.id a.open_requests ≡ some request
    → resolve decision a ≡ settle decision a (some request)
unfolding resolve
resolve_eq a decision request found = ap (settle decision a) found

-- With listeners that leave the store alone, a decision on an open request grants the request's name
-- if it approves, takes no grant away, and is settled: the same decision finds no request any more.
resolve_lem :
    (a : MemoryApprovals) (decision : Decision) (request : ApprovalRequest) (name : String)
    → Dict.get decision.id a.open_requests ≡ some request
    → (granted name (resolve decision a).1 ≡ (
        if decision.approved
        then if request.name === name then true else granted name a
        else granted name a))
      × ((resolve decision (resolve decision a).1).0 ≡ none)
resolve_lem a decision request name found =
    rw (resolve_eq a decision request found)
      (settle-granted a decision request name, settle_again a decision request)
