-- ===== src/Access.antt =====
-- How the policies and the approvals guard the tools: the filter and the wrapper of
-- `createAgent` in apps/agent/src/agent-runner.ts, `checkFilePath` of apps/agent/src/tools/file.ts
-- and the guard of the exec tool in apps/agent/src/tools/sandbox-exec.ts. The approval store is the
-- list of its rows; the id and the time for a new request are arguments.
pub mod Visible
pub mod Guards
pub mod Approved
pub mod Cached
pub mod Enforced
use openhermit.Prelude.{
  ℕ, Text, codes, text_eq, truthy, Bool, true, false, not, ◌&&◌, ◌||◌, Option, none, some, or_else,
  List, [], ◌∷◌, ◌++◌, filter, map, if◌then◌else◌, ◌>>=◌,
}
use openhermit.Policy.{
  Principal, PolicyRow, PolicyMatch, ToolPolicy, AccessDecision, allow, deny, require_approval,
  effect_eq, evaluate_access, build_principal, UserRole,
}
use openhermit.Policy.Tools.{resolve_tool_matches}
use openhermit.Policy.Mcp.{resolve_mcp_matches, parse_mcp_server_id}
use openhermit.Policy.Files.{FileMode, mode_text, resolve_file_path_matches}
use openhermit.Policy.Exec.{resolve_exec_matches}
use openhermit.Approval.{
  ApprovalRequest, ApprovalContext, CreateInput, Gate, passes, create, find_approved,
  check_approval_or_request,
}

pub record Tool : Type 0 where
  pub name : Text
  pub policy : Option ToolPolicy

abbrev Rows : Type 0
Rows = Option (List PolicyRow)

unfoldable pub tool_decision : Principal → Rows → Tool → AccessDecision
tool_decision p policy_rows t =
    evaluate_access p (resolve_tool_matches policy_rows t.name t.policy) allow

-- The decision on the MCP server of the tool; `none` where the code does not ask.
unfoldable pub server_decision : Principal → Rows → Tool → Option AccessDecision
server_decision p mcp_rows t = do
  server_id ← parse_mcp_server_id t.name
  rows ← mcp_rows
  matches ← (if truthy server_id then resolve_mcp_matches rows server_id else none)
  some (evaluate_access p matches allow)

abbrev pub decides : Option AccessDecision → AccessDecision → Bool
decides none d = false
decides (some e) d = effect_eq e d

-- The test of `tools.filter`.
unfoldable pub is_visible : Principal → Rows → Rows → Tool → Bool
is_visible p policy_rows mcp_rows t =
    if effect_eq (tool_decision p policy_rows t) deny
    then false
    else if decides (server_decision p mcp_rows t) deny
    then false
    else true

-- Whether `tools.map` wraps the tool's `execute`.
unfoldable pub is_wrapped : Principal → Rows → Rows → Tool → Bool
is_wrapped p policy_rows mcp_rows t =
    if not (effect_eq (tool_decision p policy_rows t) require_approval)
    then false
    else let mcp_needs_approval = decides (server_decision p mcp_rows t) require_approval in
      if not mcp_needs_approval && not (effect_eq (tool_decision p policy_rows t) require_approval)
      then false
      else true

-- The agent's tools, each with the mark of the wrapper.
unfoldable pub filtered_tools : Principal → Rows → Rows → List Tool → List (Tool × Bool)
filtered_tools p policy_rows mcp_rows tools =
    map (λ t. (t, is_wrapped p policy_rows mcp_rows t))
      (filter (is_visible p policy_rows mcp_rows) tools)

-- What a call of a wrapped tool does: it runs, or it answers that an approval is required.
pub data Call : Type 0 where
  executes : Call
  awaits : ApprovalRequest → Call

pub record Caller : Type 0 where
  pub agent_id : Text
  pub user_id : Option Text
  pub session_id : Option Text

abbrev tool_request : Caller → Text → Text → CreateInput
tool_request c user name = record {
  agent_id = c.agent_id;
  session_id = or_else c.session_id (codes "unknown");
  requester_id = user;
  resource_type = codes "tool";
  resource_key = name;
  scope = none;
  ttl_minutes = none;
}

-- `approvalStore && userId`, both there.
unfoldable pub ask :
    Text → ℕ → Caller → List ApprovalRequest → Text → Text → Call × Option (List ApprovalRequest)
ask id now c rows user name = elim (find_approved now c.agent_id user (codes "tool") name rows) [
  | some r ↦ (executes, some rows)
  | none ↦
      let (made, rows') = create id now (tool_request c user name) rows in (awaits made, some rows')
]

-- `execute` of the wrapper, with the approval store before and after.
unfoldable pub call_wrapped :
    Text → ℕ → Caller → Option (List ApprovalRequest) → Text → Call × Option (List ApprovalRequest)
unfolding ask
call_wrapped id now c store name = elim store [
  | none ↦ (executes, none)
  | some rows ↦ elim c.user_id [
    | none ↦ (executes, some rows)
    | some user ↦ if truthy user then ask id now c rows user name else (executes, some rows)
  ]
]

-- A call of one of the filtered tools.
unfoldable pub call_tool :
    Text
    → ℕ
    → Caller
    → Option (List ApprovalRequest)
    → Tool × Bool
    → Call × Option (List ApprovalRequest)
unfolding call_wrapped
call_tool id now c store (t, wrapped) =
    if wrapped then call_wrapped id now c store t.name else (executes, store)
