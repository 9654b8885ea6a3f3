-- ===== src/Access/Approved.antt =====
-- When a call of a tool of the agent runs.
use openhermit.Prelude.{
  ℕ, Text, codes, truthy, Bool, true, Option, none, some, List, [], ◌∷◌, ◌++◌, In, ◌≡◌, ◌≢◌, arith,
  refl,
}
use openhermit.Policy.{Principal, PolicyRow, require_approval}
use openhermit.Approval.{ApprovalRequest, pending, create, find_approved}
use openhermit.Approval.Granted.{IsGranted, find_approved-IsGranted}
use openhermit.Access.{
  Tool, Caller, executes, awaits, tool_decision, server_decision, filtered_tools, call_wrapped,
  call_tool,
}
use openhermit.Access.Visible.{filtered_tools-In}

-- What a call of a wrapped tool does, in either case of the query.
call_wrapped-executes :
    (id : Text) (now : ℕ) (c : Caller) (rows : List ApprovalRequest) (user name : Text)
    → c.user_id ≡ some user
    → truthy user ≡ true
    → (call_wrapped id now c (some rows) name).0 ≡ executes
    → (r : ApprovalRequest) × (find_approved now c.agent_id user (codes "tool") name rows ≡ some r)
      × ((call_wrapped id now c (some rows) name).1 ≡ some rows)
unfolding call_wrapped
call_wrapped-executes id now c rows user name is_user present h = ground arith

call_wrapped-awaits :
    (id : Text) (now : ℕ) (c : Caller) (rows : List ApprovalRequest) (user name : Text)
    (r : ApprovalRequest)
    → c.user_id ≡ some user
    → truthy user ≡ true
    → (call_wrapped id now c (some rows) name).0 ≡ awaits r
    → ((call_wrapped id now c (some rows) name).1 ≡ some (rows ++ r ∷ []))
      × (r.status ≡ pending)
      × (r.agent_id ≡ c.agent_id)
      × (r.requester_id ≡ user)
      × (r.resource_type ≡ codes "tool")
      × (r.resource_key ≡ name)
unfolding call_wrapped create
call_wrapped-awaits id now c rows user name r is_user present h = ground arith

-- A call by a user of a tool that the agent was given, and whose own decision asks for an approval,
-- executes only where an approved request of that agent and that user for exactly that tool stands in
-- the store and is persistent or in time. The request, one that was approved once too, is left to be
-- found again by the next call. Where the call does not execute, a pending request for it has been
-- added to the store.
pub call_tool-approved :
    (p : Principal) (policy_rows mcp_rows : Option (List PolicyRow)) (tools : List Tool) (t : Tool)
    (w : Bool) (id : Text) (now : ℕ) (c : Caller) (rows : List ApprovalRequest) (user : Text)
    → In {A = Tool × Bool} (t, w) (filtered_tools p policy_rows mcp_rows tools)
    → tool_decision p policy_rows t ≡ require_approval
    → c.user_id ≡ some user
    → truthy user ≡ true
    → ((call_tool id now c (some rows) (t, w)).0 ≡ executes
        → (r : ApprovalRequest) × In r rows
          × IsGranted now c.agent_id user (codes "tool") t.name r
          × ((call_tool id now c (some rows) (t, w)).1 ≡ some rows))
      × ((r : ApprovalRequest)
          → (call_tool id now c (some rows) (t, w)).0 ≡ awaits r
          → ((call_tool id now c (some rows) (t, w)).1 ≡ some (rows ++ r ∷ []))
            × (r.status ≡ pending)
            × (r.agent_id ≡ c.agent_id)
            × (r.requester_id ≡ user)
            × (r.resource_type ≡ codes "tool")
            × (r.resource_key ≡ t.name))
unfolding call_tool
call_tool-approved p policy_rows mcp_rows tools t w id now c rows user m asks is_user present =
    let wrapped : w ≡ true =
      ground (arith, filtered_tools-In p policy_rows mcp_rows tools t w m, asks) in
    rw wrapped (
      (λ h.
          let (r, found, kept) =
            call_wrapped-executes id now c rows user t.name is_user present h in
          let (stands, granted) =
            find_approved-IsGranted now c.agent_id user (codes "tool") t.name rows r found in
          (r, stands, granted, kept)),
      λ r h. call_wrapped-awaits id now c rows user t.name r is_user present h,
    )

-- Without a user the wrapper asks for nothing.
pub call_wrapped-no_user :
    (id : Text) (now : ℕ) (c : Caller) (store : Option (List ApprovalRequest)) (name : Text)
    → c.user_id ≡ none
    → call_wrapped id now c store name ≡ (executes, store)
unfolding call_wrapped
call_wrapped-no_user id now c none name h = refl
call_wrapped-no_user id now c (some rows) name h = rw h

-- A tool that the agent gets, whose own policy does not ask for an approval while the policy of
-- its MCP server does, runs at once and leaves the approval store as it was.
pub call_tool-server_approval :
    (p : Principal) (policy_rows mcp_rows : Option (List PolicyRow)) (tools : List Tool) (t : Tool)
    (w : Bool) (id : Text) (now : ℕ) (c : Caller) (store : Option (List ApprovalRequest))
    → In {A = Tool × Bool} (t, w) (filtered_tools p policy_rows mcp_rows tools)
    → tool_decision p policy_rows t ≢ require_approval
    → server_decision p mcp_rows t ≡ some require_approval
    → call_tool id now c store (t, w) ≡ (executes, store)
unfolding call_tool
call_tool-server_approval p policy_rows mcp_rows tools t w id now c store m free asks =
    ground (arith, filtered_tools-In p policy_rows mcp_rows tools t w m, free)
