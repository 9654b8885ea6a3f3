-- ===== src/Policy/Grants.antt =====
-- The deprecated resolutions of apps/agent/src/core/policy.ts, which give the grants of one allow row:
-- `resolveToolGrants`, `resolveFilePathGrants`, `resolveExecGrants` and `resolveMcpGrants`.
pub mod Agree
use openhermit.Prelude.{
  ℕ, Text, codes, text_eq, starts_with, ends_with, drop_last, Bool, true, false, ◌&&◌, Option, none,
  some, or_else, List, [], ◌∷◌, find, filter, if◌then◌else◌,
}
use openhermit.Policy.{
  Grant, any, PolicyRow, PolicyEffect, allow, ToolPolicy, fixed, configurable, effect_eq,
}
use openhermit.Policy.Best.{Score, Scored, beats}
use openhermit.Policy.Files.{FileMode, file_score}
use openhermit.Policy.Commands.{normalize_command}
use openhermit.Policy.Exec.{exec_score}

-- A row that fits replaces `bestMatch` where its score is higher.
abbrev pub replace_best : PolicyRow → Option ℕ → Option Scored → Option Scored
replace_best row none best = best
replace_best row (some n) best = if beats n best then some (row, n) else best

-- The loop over the rows: a row of another effect than allow is skipped.
unfoldable pub allow_from : Score → List PolicyRow → Option Scored → Option Scored
allow_from score [] best = best
allow_from score (row ∷ rows) best =
    allow_from score rows
      (if effect_eq row.effect allow then replace_best row (score row) best else best)

abbrev pub grants_of : Option Scored → List Grant
grants_of none = []
grants_of (some (row, n)) = row.grants

unfoldable pub resolve_best_grants : Score → List PolicyRow → Option (List Grant)
resolve_best_grants score [] = none
resolve_best_grants score (row ∷ rows) = some (grants_of (allow_from score (row ∷ rows) none))

unfoldable pub resolve_file_path_grants :
    List PolicyRow → Text → FileMode → Text → Option (List Grant)
resolve_file_path_grants file_rows sandbox mode path =
    resolve_best_grants (file_score sandbox mode path) file_rows

unfoldable pub resolve_exec_grants :
    List PolicyRow → Text → Text → Option Text → Option (List Grant)
resolve_exec_grants exec_rows sandbox command cwd =
    resolve_best_grants (exec_score sandbox (normalize_command command) cwd) exec_rows

abbrev pub allows_key : Text → PolicyRow → Bool
allows_key key r = text_eq r.resource_key key && effect_eq r.effect allow

abbrev pub or_found : Option PolicyRow → Option PolicyRow → List Grant
or_found (some r) second = r.grants
or_found none (some r) = r.grants
or_found none none = []

-- The two loops return at the first row that fits.
unfoldable pub resolve_mcp_grants : List PolicyRow → Text → Option (List Grant)
resolve_mcp_grants [] server_id = none
resolve_mcp_grants (row ∷ rows) server_id = some (
    or_found (find (allows_key server_id) (row ∷ rows))
      (find (allows_key (codes "*")) (row ∷ rows)))

abbrev is_tool_allow : PolicyRow → Bool
is_tool_allow r = text_eq r.resource_type (codes "tool") && effect_eq r.effect allow

abbrev either : Option PolicyRow → Option PolicyRow → Option PolicyRow
either (some r) second = some r
either none second = second

abbrev tool_row : Option (List PolicyRow) → Text → Option PolicyRow
tool_row none tool_name = none
tool_row (some policy_rows) tool_name =
    let rows = filter is_tool_allow policy_rows in
    either (find (λ r. text_eq r.resource_key tool_name) rows) (
      find (λ r. ends_with b'*' r.resource_key && starts_with tool_name (drop_last r.resource_key))
        rows)

abbrev or_grants : Option PolicyRow → List Grant → List Grant
or_grants none grants = grants
or_grants (some r) grants = r.grants

unfoldable pub resolve_tool_grants : Option (List PolicyRow) → Text → Option ToolPolicy → List Grant
resolve_tool_grants policy_rows tool_name (some (fixed grants)) = grants
resolve_tool_grants policy_rows tool_name (some (configurable grants)) =
    or_grants (tool_row policy_rows tool_name) grants
resolve_tool_grants policy_rows tool_name none =
    or_grants (tool_row policy_rows tool_name) (any ∷ [])
