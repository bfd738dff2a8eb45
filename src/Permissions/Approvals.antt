-- ===== src/Permissions/Approvals.antt =====
-- packages/permissions/src/approvals.ts: the requests that wait for the user, and what was granted.
pub mod Requests
pub mod Grants
use lisptc.Prelude.{
  ℕ, String, Bool, true, false, not, Option, none, some, List, [], ◌∷◌, ◌++◌, map, ◌===◌,
  if◌then◌else◌,
}
use lisptc.Prelude.Dict
use lisptc.Prelude.Dict.{Dict}

pub data Scope : Type 0 where
  once session always : Scope

pub record ApprovalRequest : Type 0 where
  pub id : String
  pub name : String
  pub args : String
  pub reason : Option String
  pub stamp : ℕ
  pub change : Bool
  pub restored : Bool

pub record Decision : Type 0 where
  pub id : String
  pub approved : Bool
  pub scope : Scope
  pub by : String

pub record Settled : Type 0 where
  pub request : ApprovalRequest
  pub refused : Option String

-- what a listener answers; its effects elsewhere are those of the code that registers it
abbrev pub Resolved : Type 0
Resolved = ApprovalRequest → Decision → Option String

pub record MemoryApprovals : Type 0 where
  pub open_requests : Dict ApprovalRequest
  pub grants : Dict Scope
  pub listeners : List Resolved

-- the deletions of `open`
unfoldable pub drop_named : String → Dict ApprovalRequest → Dict ApprovalRequest
drop_named name [] = []
drop_named name ((id, request) ∷ rest) =
    let below = drop_named name rest in
    if request.name === name then below else (id, request) ∷ below

unfoldable pub open_request : ApprovalRequest → MemoryApprovals → MemoryApprovals
unfolding drop_named
open_request request a = record a {
  open_requests = Dict.put request.id request (drop_named request.name a.open_requests);
}

abbrev pub values {ℓ} : {V : Type ℓ} → Dict V → List V
values m = map (λ e. e.1) m

unfoldable pub pending : MemoryApprovals → List ApprovalRequest
pending a = values a.open_requests

abbrev or_before : Option String → Option String → Option String
or_before none before = before
or_before (some said) before = some said

refused_by : List Resolved → ApprovalRequest → Decision → Option String → Option String
refused_by [] request decision refused = refused
refused_by (listener ∷ rest) request decision refused =
    refused_by rest request decision (or_before (listener request decision) refused)

-- `resolve` on the request that the decision names, if it is open
unfoldable pub settle :
    Decision → MemoryApprovals → Option ApprovalRequest → Option Settled × MemoryApprovals
unfolding refused_by
settle decision a none = (none, a)
settle decision a (some request) = (
  some (record { request = request; refused = refused_by a.listeners request decision none }),
  record a {
    open_requests = Dict.delete decision.id a.open_requests;
    grants = if decision.approved then Dict.put request.name decision.scope a.grants else a.grants;
  },
)

unfoldable pub resolve : Decision → MemoryApprovals → Option Settled × MemoryApprovals
unfolding settle
resolve decision a = settle decision a (Dict.get decision.id a.open_requests)

unfoldable pub granted : String → MemoryApprovals → Bool
granted name a = Dict.has name a.grants

abbrev is_once : Option Scope → Bool
is_once (some once) = true
is_once _ = false

unfoldable pub consume : String → MemoryApprovals → MemoryApprovals
consume name a =
    if is_once (Dict.get name a.grants) then record a { grants = Dict.delete name a.grants } else a

unfoldable pub on_resolved : Resolved → MemoryApprovals → MemoryApprovals
on_resolved listener a = record a { listeners = a.listeners ++ listener ∷ [] }

abbrev pub no_approvals : MemoryApprovals
no_approvals = record { open_requests = []; grants = []; listeners = [] }
