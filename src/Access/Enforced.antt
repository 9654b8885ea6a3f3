-- ===== src/Access/Enforced.antt =====
-- What a guard that lets an access through has established.
use openhermit.Prelude.{ℕ, Text, codes, truthy, true, Option, some, List, ◌≡◌, ◌⊎◌, arith}
use openhermit.Policy.{
  PolicyRow, PolicyMatch, allow, deny, require_approval, evaluate_access, build_principal,
}
use openhermit.Policy.Files.{FileMode, resolve_file_path_matches}
use openhermit.Approval.{passes, check_approval_or_request}
use openhermit.Access.Guards.{
  CachedRows, ToolContext, permitted, rows_for, file_key, file_scope, check_file_path,
}

-- A file access that the guard permits, where the policy store and the agent's id are there and the
-- rows in use are not empty, was allowed by the rows, or it needed an approval and
-- `checkApprovalOrRequest` let it pass.
pub check_file_path-permitted :
    (id : Text) (now : ℕ) (ctx : ToolContext) (cache : Option CachedRows) (sandbox : Text)
    (mode : FileMode) (path : Text) (listed : List PolicyRow) (agent : Text) (ms : List PolicyMatch)
    → ctx.policy_store ≡ some listed
    → ctx.approvals.agent_id ≡ some agent
    → truthy agent ≡ true
    → resolve_file_path_matches (rows_for agent cache listed) sandbox mode path ≡ some ms
    → (check_file_path id now ctx cache sandbox mode path).guard ≡ permitted
    → let p = build_principal agent ctx.approvals.current_user_id ctx.current_user_role in
      (evaluate_access p ms deny ≡ allow)
      ⊎ ((evaluate_access p ms deny ≡ require_approval)
          × ((check_approval_or_request id now ctx.approvals
                (codes "file")
                (file_key sandbox mode path)
                (some (file_scope sandbox mode path))).0
              ≡ passes))
unfolding check_file_path
check_file_path-permitted id now ctx cache sandbox mode path listed agent ms s a t m h =
    ground arith
