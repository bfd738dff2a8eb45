-- ===== src/Permissions/Approvals/Requests.antt =====
-- At most one request for a name is open.
use lisptc.Prelude.{String, ◌≢◌, sym, Option, none, some, [], ◌∷◌, arith, ===_iff, All}
use lisptc.Prelude.Dict
use lisptc.Prelude.Dict.{Dict}
use lisptc.Permissions.Approvals.{
  ApprovalRequest, MemoryApprovals, Decision, drop_named, open_request, settle, resolve,
}

-- no request of the table is for that name
abbrev pub Unnamed : String → Dict ApprovalRequest → Type 0
Unnamed name m = All (λ e. e.1.name ≢ name) m

abbrev pub HasDistinctNames : Dict ApprovalRequest → Type 0
HasDistinctNames [] = Unit
HasDistinctNames ((id, request) ∷ rest) = Unnamed request.name rest × HasDistinctNames rest

drop_named-Unnamed : (name : String) (m : Dict ApprovalRequest) → Unnamed name (drop_named name m)
unfolding drop_named
drop_named-Unnamed name [] = tt
drop_named-Unnamed name ((id, request) ∷ rest) =
    ground (arith, drop_named-Unnamed name rest, ===_iff request.name name)

-- what is dropped or deleted leaves no new name behind
Unnamed-drop_named :
    (name other : String) (m : Dict ApprovalRequest)
    → Unnamed name m
    → Unnamed name (drop_named other m)
unfolding drop_named
Unnamed-drop_named name other [] h = tt
Unnamed-drop_named name other ((id, request) ∷ rest) (p, h) =
    ground (arith, Unnamed-drop_named name other rest h)

HasDistinctNames-drop_named :
    (name : String) (m : Dict ApprovalRequest)
    → HasDistinctNames m
    → HasDistinctNames (drop_named name m)
unfolding drop_named
HasDistinctNames-drop_named name [] h = tt
HasDistinctNames-drop_named name ((id, request) ∷ rest) (p, h) =
    ground
      (arith, HasDistinctNames-drop_named name rest h, Unnamed-drop_named request.name name rest p)

Unnamed-put :
    (name id : String) (request : ApprovalRequest) (m : Dict ApprovalRequest)
    → request.name ≢ name
    → Unnamed name m
    → Unnamed name (Dict.put id request m)
unfolding Dict.put
Unnamed-put name id request [] p h = (p, tt)
Unnamed-put name id request ((j, held) ∷ rest) p (q, h) =
    ground (arith, Unnamed-put name id request rest p h)

HasDistinctNames-put :
    (id : String) (request : ApprovalRequest) (m : Dict ApprovalRequest)
    → Unnamed request.name m
    → HasDistinctNames m
    → HasDistinctNames (Dict.put id request m)
unfolding Dict.put
HasDistinctNames-put id request [] u d = (tt, tt)
HasDistinctNames-put id request ((j, held) ∷ rest) (q, u) (p, d) =
    let other : request.name ≢ held.name = λ e. q (sym e) in
    ground (
      arith,
      HasDistinctNames-put id request rest u d,
      Unnamed-put held.name id request rest other p,
    )

Unnamed-delete :
    (name id : String) (m : Dict ApprovalRequest) → Unnamed name m → Unnamed name (Dict.delete id m)
unfolding Dict.delete
Unnamed-delete name id [] h = tt
Unnamed-delete name id ((j, held) ∷ rest) (p, h) = ground (arith, Unnamed-delete name id rest h)

HasDistinctNames-delete :
    (id : String) (m : Dict ApprovalRequest)
    → HasDistinctNames m
    → HasDistinctNames (Dict.delete id m)
unfolding Dict.delete
HasDistinctNames-delete id [] h = tt
HasDistinctNames-delete id ((j, held) ∷ rest) (p, h) =
    ground (arith, HasDistinctNames-delete id rest h, Unnamed-delete held.name id rest p)

settle-HasDistinctNames :
    (a : MemoryApprovals) (decision : Decision) (found : Option ApprovalRequest)
    → HasDistinctNames a.open_requests
    → HasDistinctNames (settle decision a found).1.open_requests
unfolding settle
settle-HasDistinctNames a decision none h = h
settle-HasDistinctNames a decision (some request) h =
    HasDistinctNames-delete decision.id a.open_requests h

-- If no two open requests are for one name, then that holds after a request is opened, which drops
-- an earlier one for its name, and after a decision is resolved.
HasDistinctNames-kept :
    (a : MemoryApprovals) (request : ApprovalRequest) (decision : Decision)
    → HasDistinctNames a.open_requests
    → HasDistinctNames (open_request request a).open_requests
      × HasDistinctNames (resolve decision a).1.open_requests
unfolding open_request resolve
HasDistinctNames-kept a request decision h = (
  HasDistinctNames-put request.id request _ (drop_named-Unnamed request.name a.open_requests)
      (HasDistinctNames-drop_named request.name a.open_requests h),
  settle-HasDistinctNames a decision (Dict.get decision.id a.open_requests) h,
)
