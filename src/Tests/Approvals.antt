-- ===== src/Tests/Approvals.antt =====
-- Approvals and the guards of the tools at concrete rows: a user `u` of an agent `a`.
use openhermit.Prelude.{
  true, Option, ℕ, Text, codes, text_eq, starts_with, lookup, insert, Bool, false, none, some, List,
  [], ◌∷◌, ◌++◌, ◌≡◌, ◌≢◌, ◌⊎◌, inl, refl, In,
}
use openhermit.Policy.{
  Principal, PolicyRow, UserRole, any, allow, deny, require_approval, evaluate_access,
  evaluate_from, build_principal, can_access, matches_grant, to_match, effect_eq,
}
use openhermit.Policy.Tools.{resolve_tool_matches, find_policy_rows}
use openhermit.Policy.Best.{resolve_best, best_matches, best_from, keep_best}
use openhermit.Policy.Files.{read, file_score, resolve_file_path_matches, parse_file_scope}
use openhermit.Policy.Mcp.{
  parse_mcp_server_id, resolve_mcp_matches, mcp_pass, mcp_step, index_of_sep,
}
use openhermit.Approval.{
  ApprovalRequest, ApprovalStatus, approved, pending, ApprovalContext, passes, create, is_expired,
  find_approved, check_approval_or_request, check_configured, request_input,
}
use openhermit.Approval.Granted.{IsGranted, find_approved-IsGranted}
use openhermit.Approval.Required.{check_approval-passes, check_approval-required}
use openhermit.Access.{
  Tool, executes, awaits, call_tool, tool_decision, server_decision, filtered_tools, is_visible,
  is_wrapped, Caller, call_wrapped, ask,
}
use openhermit.Access.Visible.{filtered_tools-In}
use openhermit.Access.Approved.{call_tool-approved}
use openhermit.Access.Guards.{
  ToolContext, check_file_path, file_key, file_scope, by_matches, by_decision,
}
use openhermit.Access.Enforced.{check_file_path-permitted}

abbrev request_of : Text → ApprovalStatus → ℕ → ApprovalRequest
request_of id status created_at = record {
  id = id;
  agent_id = codes "a";
  session_id = codes "s1";
  requester_id = codes "u";
  resource_type = codes "tool";
  resource_key = codes "exec";
  scope = [];
  status = status;
  resolution = none;
  resolved_by = none;
  reason = none;
  created_at = created_at;
  resolved_at = none;
  ttl_minutes = 60;
}

abbrev granted_row : ApprovalRequest
granted_row = request_of (codes "r1") approved 1000

find_approved-IsGranted_example :
    In granted_row (granted_row ∷ [])
    × IsGranted 5000 (codes "a") (codes "u") (codes "tool") (codes "exec") granted_row
unfolding find_approved is_expired text_eq
find_approved-IsGranted_example =
    find_approved-IsGranted 5000 (codes "a") (codes "u") (codes "tool") (codes "exec")
      (granted_row ∷ []) granted_row refl

abbrev later_row : ApprovalRequest
later_row = request_of (codes "r2") approved 8900000

abbrev context_with : List ApprovalRequest → ApprovalContext
context_with rows = record {
  store = some rows;
  agent_id = some (codes "a");
  current_user_id = some (codes "u");
  session_id = some (codes "s1");
}

check_approval-passes_example :
    (rows : List ApprovalRequest) × (agent : Text) × (user : Text) × (r : ApprovalRequest)
    × ((context_with (granted_row ∷ [])).store ≡ some rows)
    × ((context_with (granted_row ∷ [])).agent_id ≡ some agent)
    × ((context_with (granted_row ∷ [])).current_user_id ≡ some user)
    × In r rows
    × IsGranted 5000 agent user (codes "tool") (codes "exec") r
    × ((check_approval_or_request
          (codes "n")
          5000
          (context_with (granted_row ∷ []))
          (codes "tool")
          (codes "exec")
          none).1
        ≡ context_with (granted_row ∷ []))
unfolding check_approval_or_request check_configured find_approved is_expired text_eq
check_approval-passes_example =
    check_approval-passes (codes "n") 5000 (context_with (granted_row ∷ [])) (codes "tool")
      (codes "exec") none refl

abbrev asked_row : ApprovalRequest
asked_row = request_of (codes "n") pending 5000

abbrev no_scope : Option (List (Text × Text))
no_scope = none

check_approval-required_example :
    (rows : List ApprovalRequest) × ((context_with []).store ≡ some rows)
    × ((check_approval_or_request
          (codes "n")
          5000
          (context_with [])
          (codes "tool")
          (codes "exec")
          none).1
        ≡ record (context_with []) { store = some (rows ++ asked_row ∷ []) })
    × (asked_row.id ≡ codes "n")
    × (asked_row.status ≡ pending)
    × (asked_row.resource_type ≡ codes "tool")
    × (asked_row.resource_key ≡ codes "exec")
    × ((context_with []).agent_id ≡ some asked_row.agent_id)
    × ((context_with []).current_user_id ≡ some asked_row.requester_id)
    × ((s : Text) → (context_with []).session_id ≡ some s → asked_row.session_id ≡ s)
    × ((context_with []).session_id ≡ none → asked_row.session_id ≡ codes "unknown")
    × ((fields : List (Text × Text)) → no_scope ≡ some fields → asked_row.scope ≡ fields)
    × (no_scope ≡ none → asked_row.scope ≡ [])
unfolding check_approval_or_request check_configured request_input create find_approved is_expired
    text_eq
check_approval-required_example =
    check_approval-required (codes "n") 5000 (context_with []) (codes "tool") (codes "exec")
      no_scope asked_row refl

abbrev caller : Caller
caller = record { agent_id = codes "a"; user_id = some (codes "u"); session_id = none }

abbrev principal : Principal
principal = record { user_id = some (codes "u"); role = some UserRole.user; agent_id = codes "a" }

abbrev mcp_row : PolicyRow
mcp_row = record {
  agent_id = codes "a";
  resource_type = codes "mcp";
  resource_key = codes "x";
  effect = require_approval;
  grants = any ∷ [];
  scope_sandbox = none;
  scope_mode = none;
  scope_path = none;
  scope_command = none;
  scope_cwd = none;
}

-- A tool row that asks everyone for an approval.
abbrev asking_row : PolicyRow
asking_row = record mcp_row { resource_type = codes "tool"; resource_key = codes "exec" }

abbrev exec_tool : Tool
exec_tool = record { name = codes "exec"; policy = none }

call_tool-approved_example :
    ((call_tool (codes "n") 5000 caller (some (granted_row ∷ [])) (exec_tool, true)).0 ≡ executes
      → (r : ApprovalRequest) × In r (granted_row ∷ [])
        × IsGranted 5000 (codes "a") (codes "u") (codes "tool") (codes "exec") r
        × ((call_tool (codes "n") 5000 caller (some (granted_row ∷ [])) (exec_tool, true)).1
            ≡ some (granted_row ∷ [])))
    × ((r : ApprovalRequest)
        → (call_tool (codes "n") 5000 caller (some (granted_row ∷ [])) (exec_tool, true)).0
          ≡ awaits r
        → ((call_tool (codes "n") 5000 caller (some (granted_row ∷ [])) (exec_tool, true)).1
            ≡ some ((granted_row ∷ []) ++ r ∷ []))
          × (r.status ≡ pending)
          × (r.agent_id ≡ codes "a")
          × (r.requester_id ≡ codes "u")
          × (r.resource_type ≡ codes "tool")
          × (r.resource_key ≡ codes "exec"))
unfolding filtered_tools is_visible is_wrapped tool_decision server_decision resolve_tool_matches
    evaluate_access evaluate_from build_principal parse_mcp_server_id text_eq starts_with
    find_policy_rows can_access matches_grant
call_tool-approved_example =
    call_tool-approved principal (some (asking_row ∷ [])) none (exec_tool ∷ []) exec_tool true
      (codes "n") 5000 caller (granted_row ∷ []) (codes "u") (inl refl) refl refl refl

call_tool-runs :
    (call_tool (codes "n") 5000 caller (some (granted_row ∷ [])) (exec_tool, true)).0 ≡ executes
unfolding call_tool call_wrapped ask find_approved is_expired text_eq
call_tool-runs = refl

abbrev mcp_tool : Tool
mcp_tool = record { name = codes "mcp__x__run"; policy = none }

stands_listed :
    In {A = Tool × Bool}
      (mcp_tool, false)
      (filtered_tools principal none (some (mcp_row ∷ [])) (mcp_tool ∷ []))
unfolding filtered_tools is_visible is_wrapped tool_decision server_decision resolve_tool_matches
    evaluate_access evaluate_from can_access matches_grant parse_mcp_server_id resolve_mcp_matches
    mcp_pass mcp_step index_of_sep text_eq starts_with
stands_listed = inl refl

tool_allows : tool_decision principal none mcp_tool ≡ allow
unfolding tool_decision resolve_tool_matches evaluate_access evaluate_from can_access matches_grant
tool_allows = refl

server_asks : server_decision principal (some (mcp_row ∷ [])) mcp_tool ≡ some require_approval
unfolding server_decision evaluate_access evaluate_from can_access matches_grant parse_mcp_server_id
    resolve_mcp_matches mcp_pass mcp_step index_of_sep text_eq starts_with
server_asks = refl

needs_none : tool_decision principal none mcp_tool ≢ require_approval
needs_none h = cc (h, tool_allows)

filtered_tools-In_example :
    In mcp_tool (mcp_tool ∷ [])
    × (tool_decision principal none mcp_tool ≢ deny)
    × (server_decision principal (some (mcp_row ∷ [])) mcp_tool ≢ some deny)
    × (false ≡ effect_eq (tool_decision principal none mcp_tool) require_approval)
filtered_tools-In_example =
    filtered_tools-In principal none (some (mcp_row ∷ [])) (mcp_tool ∷ []) mcp_tool false
      stands_listed

abbrev file_row : PolicyRow
file_row = record {
  agent_id = codes "a";
  resource_type = codes "file";
  resource_key = codes "*";
  effect = allow;
  grants = any ∷ [];
  scope_sandbox = some (codes "*");
  scope_mode = some (codes "read");
  scope_path = some (codes "/w");
  scope_command = none;
  scope_cwd = none;
}

abbrev tools_context : List PolicyRow → ToolContext
tools_context rows = record {
  policy_store = some rows;
  approvals = context_with [];
  current_user_role = some UserRole.user;
}

check_file_path-permitted_example :
    (evaluate_access
        (build_principal (codes "a") (some (codes "u")) (some UserRole.user))
        (to_match file_row ∷ [])
        deny
      ≡ allow)
    ⊎ ((evaluate_access
            (build_principal (codes "a") (some (codes "u")) (some UserRole.user))
            (to_match file_row ∷ [])
            deny
          ≡ require_approval)
        × ((check_approval_or_request
              (codes "n")
              5000
              (context_with [])
              (codes "file")
              (file_key (codes "s") read (codes "/w/x"))
              (some (file_scope (codes "s") read (codes "/w/x")))).0
            ≡ passes))
unfolding check_file_path by_matches by_decision resolve_file_path_matches resolve_best file_score
    best_matches best_from keep_best parse_file_scope build_principal evaluate_access evaluate_from
    can_access matches_grant text_eq starts_with lookup insert
check_file_path-permitted_example =
    check_file_path-permitted (codes "n") 5000 (tools_context (file_row ∷ [])) none (codes "s") read
      (codes "/w/x") (file_row ∷ []) (codes "a") (to_match file_row ∷ []) refl refl refl refl refl
