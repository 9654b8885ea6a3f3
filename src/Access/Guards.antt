-- ===== src/Access/Guards.antt =====
-- `checkFilePath` of apps/agent/src/tools/file.ts, with the module's `cachedFileRows` as state, and
-- the policy guard of the exec tool in apps/agent/src/tools/sandbox-exec.ts.
use openhermit.Prelude.{
  ℕ, Text, codes, text_eq, truthy, Option, none, some, List, [], ◌∷◌, ◌++◌, if◌then◌else◌,
}
use openhermit.Policy.{
  PolicyRow, PolicyMatch, AccessDecision, allow, deny, require_approval, evaluate_access,
  build_principal, UserRole,
}
use openhermit.Policy.Files.{FileMode, mode_text, resolve_file_path_matches}
use openhermit.Policy.Exec.{resolve_exec_matches}
use openhermit.Approval.{ApprovalContext, Gate, passes, check_approval_or_request}

-- `cachedFileRows`
pub record CachedRows : Type 0 where
  pub agent_id : Text
  pub rows : List PolicyRow

-- The fields of `ToolContext` that the guards read. `policy_store` is what the store would list for
-- the agent and the guard's resource type.
pub record ToolContext : Type 0 where
  pub policy_store : Option (List PolicyRow)
  pub approvals : ApprovalContext
  pub current_user_role : Option UserRole

-- The guard returns, denies the access, or stops at the approval.
pub data Guard : Type 0 where
  permitted denied : Guard
  stopped : Gate → Guard

pub record Checked : Type 0 where
  pub guard : Guard
  pub approvals : ApprovalContext
  pub cache : Option CachedRows

-- The rows of the cache if it is the agent's, else those of the store.
abbrev pub rows_for : Text → Option CachedRows → List PolicyRow → List PolicyRow
rows_for agent none listed = listed
rows_for agent (some c) listed = if text_eq c.agent_id agent then c.rows else listed

abbrev pub cache_for : Text → Option CachedRows → List PolicyRow → Option CachedRows
cache_for agent cache listed =
    some (record { agent_id = agent; rows = rows_for agent cache listed })

abbrev pub file_key : Text → FileMode → Text → Text
file_key sandbox mode path = sandbox ++ (b':' ∷ (mode_text mode ++ (b':' ∷ path)))

abbrev pub file_scope : Text → FileMode → Text → List (Text × Text)
file_scope sandbox mode path =
    (codes "sandbox", sandbox) ∷ (codes "mode", mode_text mode) ∷ (codes "path", path) ∷ []

abbrev stop_or_pass : Gate → Guard
stop_or_pass passes = permitted
stop_or_pass g = stopped g

-- What the guards do with the decision; the last two arguments are the approval's key and scope.
unfoldable pub by_decision :
    Text
    → ℕ
    → ApprovalContext
    → Option CachedRows
    → AccessDecision
    → Text
    → Text
    → Option (List (Text × Text))
    → Checked
by_decision id now approvals cache allow type key scope = record {
  guard = permitted;
  approvals = approvals;
  cache = cache;
}
by_decision id now approvals cache deny type key scope = record {
  guard = denied;
  approvals = approvals;
  cache = cache;
}
by_decision id now approvals cache require_approval type key scope =
    let (gate, after) = check_approval_or_request id now approvals type key scope in
    record { guard = stop_or_pass gate; approvals = after; cache = cache }

-- No rows at all: the policy of the tool is sufficient.
unfoldable pub by_matches :
    Text
    → ℕ
    → Text
    → ToolContext
    → Option CachedRows
    → Option (List PolicyMatch)
    → Text
    → Text
    → Option (List (Text × Text))
    → Checked
by_matches id now agent ctx cache none type key scope = record {
  guard = permitted;
  approvals = ctx.approvals;
  cache = cache;
}
by_matches id now agent ctx cache (some matches) type key scope =
    let p = build_principal agent ctx.approvals.current_user_id ctx.current_user_role in
    by_decision id now ctx.approvals cache (evaluate_access p matches deny) type key scope

-- `context.policyStore && context.agentId`
abbrev store_and_agent : ToolContext → Option (List PolicyRow × Text)
store_and_agent ctx = elim ctx.policy_store [
  | none ↦ none
  | some listed ↦ elim ctx.approvals.agent_id [
    | none ↦ none
    | some agent ↦ if truthy agent then some (listed, agent) else none
  ]
]

unfoldable pub check_file_path :
    Text → ℕ → ToolContext → Option CachedRows → Text → FileMode → Text → Checked
unfolding by_matches by_decision
check_file_path id now ctx cache sandbox mode path = elim (store_and_agent ctx) [
  | none ↦ record { guard = permitted; approvals = ctx.approvals; cache = cache }
  | some (listed, agent) ↦
      by_matches id now agent ctx (cache_for agent cache listed)
        (resolve_file_path_matches (rows_for agent cache listed) sandbox mode path) (codes "file")
        (file_key sandbox mode path) (some (file_scope sandbox mode path))
]

abbrev cwd_scope : Option Text → List (Text × Text)
cwd_scope none = []
cwd_scope (some cwd) = if truthy cwd then (codes "cwd", cwd) ∷ [] else []

abbrev pub exec_key : Text → Text → Text
exec_key backend command = backend ++ (b':' ∷ command)

-- `args.cwd ?? backend.agentHome`
abbrev or_cwd : Option Text → Text → Option Text
or_cwd none home = some home
or_cwd (some cwd) home = some cwd

-- The guard of `exec`; `agent_home` is the backend's, and the exec tool has no cache.
unfoldable pub check_exec : Text → ℕ → ToolContext → Text → Text → Text → Option Text → Checked
unfolding by_matches by_decision
check_exec id now ctx backend agent_home command cwd = elim (store_and_agent ctx) [
  | none ↦ record { guard = permitted; approvals = ctx.approvals; cache = none }
  | some (listed, agent) ↦
      by_matches id now agent ctx none
        (resolve_exec_matches listed backend command (or_cwd cwd agent_home)) (codes "exec")
        (exec_key backend command)
        (some ((codes "sandbox", backend) ∷ (codes "command", command) ∷ cwd_scope cwd))
]
