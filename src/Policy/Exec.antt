-- ===== src/Policy/Exec.antt =====
-- `resolveExecMatches` of apps/agent/src/core/policy.ts.
use openhermit.Prelude.{
  ℕ, ◌+◌, Text, codes, text_eq, truthy, starts_with, Bool, true, false, not, ◌&&◌, ◌||◌, Option,
  none, some, List, if◌then◌else◌, ◌>>=◌,
}
use openhermit.Policy.{PolicyRow, PolicyMatch}
use openhermit.Policy.Best.{resolve_best}
use openhermit.Policy.Files.{in_sandbox}
use openhermit.Policy.Commands.{normalize_command}

-- `cwdScope && cwdScope !== '*'`
abbrev limits_cwd : Option Text → Bool
limits_cwd none = false
limits_cwd (some scope) = truthy scope && not (text_eq scope (codes "*"))

-- `cwd && cwd.startsWith(cwdScope)`
abbrev cwd_inside : Option Text → Option Text → Bool
cwd_inside (some cwd) (some scope) = truthy cwd && starts_with cwd scope
cwd_inside _ _ = false

unfoldable pub cwd_fits : Option Text → Option Text → Bool
cwd_fits scope cwd = if limits_cwd scope then cwd_inside cwd scope else true

unfoldable pub specificity : Text → Option Text → ℕ
specificity command scope =
    (if text_eq command (codes "*") then 0 else 2) + (if limits_cwd scope then 1 else 0)

-- The tests of the loop; `normalized` is the normalized command that is to run.
unfoldable pub exec_score : Text → Text → Option Text → PolicyRow → Option ℕ
unfolding cwd_fits specificity
exec_score sandbox normalized cwd row = do
  scope_sandbox ← row.scope_sandbox
  command ← row.scope_command
  if not (in_sandbox scope_sandbox sandbox)
      then none
      else if not (cwd_fits row.scope_cwd cwd)
      then none
      else if not (text_eq command (codes "*") || text_eq (normalize_command command) normalized)
      then none
      else some (specificity command row.scope_cwd)

unfoldable pub resolve_exec_matches :
    List PolicyRow → Text → Text → Option Text → Option (List PolicyMatch)
resolve_exec_matches exec_rows sandbox command cwd =
    resolve_best (exec_score sandbox (normalize_command command) cwd) exec_rows
