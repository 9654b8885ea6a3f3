-- ===== src/Approval/Required.antt =====
-- `checkApprovalOrRequest`: an access that needs an approval.
use openhermit.Approval.Granted.{IsGranted, find_approved-IsGranted}
use openhermit.Prelude.{ℕ, Text, codes, none, In, Option, some, List, [], ◌∷◌, ◌++◌, ◌≡◌, arith}
use openhermit.Approval.{
  ApprovalRequest, ApprovalContext, passes, required, pending, create, request_input, find_approved,
  check_approval_or_request,
}

found-approved :
    (id : Text) (now : ℕ) (ctx : ApprovalContext) (type key : Text)
    (scope : Option (List (Text × Text)))
    → (check_approval_or_request id now ctx type key scope).0 ≡ passes
    → (rows : List ApprovalRequest) × (agent : Text) × (user : Text) × (r : ApprovalRequest)
      × (ctx.store ≡ some rows)
      × (ctx.agent_id ≡ some agent)
      × (ctx.current_user_id ≡ some user)
      × (find_approved now agent user type key rows ≡ some r)
      × ((check_approval_or_request id now ctx type key scope).1 ≡ ctx)
unfolding check_approval_or_request
found-approved id now ctx type key scope h = ground arith

-- An access goes through only with a store, an agent and a user, and where a request that stands in the
-- store was approved for exactly that agent, user and resource and is persistent or in time. The store
-- is as it was: a request that was approved once is left to be found by the next access too.
pub check_approval-passes :
    (id : Text) (now : ℕ) (ctx : ApprovalContext) (type key : Text)
    (scope : Option (List (Text × Text)))
    → (check_approval_or_request id now ctx type key scope).0 ≡ passes
    → (rows : List ApprovalRequest) × (agent : Text) × (user : Text) × (r : ApprovalRequest)
      × (ctx.store ≡ some rows)
      × (ctx.agent_id ≡ some agent)
      × (ctx.current_user_id ≡ some user)
      × In r rows
      × IsGranted now agent user type key r
      × ((check_approval_or_request id now ctx type key scope).1 ≡ ctx)
check_approval-passes id now ctx type key scope h =
    let (rows, agent, user, r, stored, of_agent, by_user, found, kept) =
      found-approved id now ctx type key scope h in
    let (stands, granted) = find_approved-IsGranted now agent user type key rows r found in
    (rows, agent, user, r, stored, of_agent, by_user, stands, granted, kept)

-- An access that is refused for want of an approval has added one pending request for it, at the
-- end of the store, and changed nothing else. The request has the agent, the user, the session, or
-- `unknown` where there is none, the resource and the scope of the access.
pub check_approval-required :
    (id : Text) (now : ℕ) (ctx : ApprovalContext) (type key : Text)
    (scope : Option (List (Text × Text))) (r : ApprovalRequest)
    → (check_approval_or_request id now ctx type key scope).0 ≡ required r
    → (rows : List ApprovalRequest) × (ctx.store ≡ some rows)
      × ((check_approval_or_request id now ctx type key scope).1
          ≡ record ctx { store = some (rows ++ r ∷ []) })
      × (r.id ≡ id)
      × (r.status ≡ pending)
      × (r.resource_type ≡ type)
      × (r.resource_key ≡ key)
      × (ctx.agent_id ≡ some r.agent_id)
      × (ctx.current_user_id ≡ some r.requester_id)
      × ((s : Text) → ctx.session_id ≡ some s → r.session_id ≡ s)
      × (ctx.session_id ≡ none → r.session_id ≡ codes "unknown")
      × ((fields : List (Text × Text)) → scope ≡ some fields → r.scope ≡ fields)
      × (scope ≡ none → r.scope ≡ [])
unfolding check_approval_or_request create request_input
check_approval-required id now ctx type key scope r h = ground arith
