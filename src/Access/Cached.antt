-- ===== src/Access/Cached.antt =====
-- The rows that `checkFilePath` keeps between calls.
use openhermit.Prelude.{ℕ, Text, text_eq_refl, some, List, ◌≡◌, arith}
use openhermit.Policy.{PolicyRow}
use openhermit.Policy.Files.{FileMode}
use openhermit.Access.Guards.{ToolContext, check_file_path}

-- With cached rows of the agent, the rows that its policy store lists have no effect on the guard:
-- with any other rows the check answers the same and changes the same.
pub check_file_path-cached :
    (id : Text) (now : ℕ) (ctx : ToolContext) (listed listed' cached : List PolicyRow)
    (agent : Text) (sandbox : Text) (mode : FileMode) (path : Text)
    → ctx.approvals.agent_id ≡ some agent
    → check_file_path id now
        (record ctx { policy_store = some listed })
        (some (record { agent_id = agent; rows = cached }))
        sandbox
        mode
        path
      ≡ check_file_path id now
          (record ctx { policy_store = some listed' })
          (some (record { agent_id = agent; rows = cached }))
          sandbox
          mode
          path
unfolding check_file_path
check_file_path-cached id now ctx listed listed' cached agent sandbox mode path h =
    ground (arith, text_eq_refl agent)
