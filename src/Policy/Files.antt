-- ===== src/Policy/Files.antt =====
-- `parseFileScope` and `resolveFilePathMatches` of apps/agent/src/core/policy.ts.
use openhermit.Prelude.{
  ℕ, Text, codes, text_eq, starts_with, length, Bool, not, ◌||◌, Option, none, some, List,
  if◌then◌else◌, ◌>>=◌,
}
use openhermit.Policy.{PolicyRow, PolicyMatch}
use openhermit.Policy.Best.{resolve_best}

pub data FileMode : Type 0 where
  read write : FileMode

abbrev pub mode_text : FileMode → Text
mode_text read = codes "read"
mode_text write = codes "write"

pub record FileScope : Type 0 where
  pub sandbox : Text
  pub mode : Text
  pub path : Text

unfoldable pub parse_file_scope : PolicyRow → Option FileScope
parse_file_scope row = do
  sandbox ← row.scope_sandbox
  mode ← row.scope_mode
  path ← row.scope_path
  some (record { sandbox = sandbox; mode = mode; path = path })

-- `scope.sandbox === '*' || scope.sandbox === sandbox`
abbrev pub in_sandbox : Text → Text → Bool
in_sandbox scope sandbox = text_eq scope (codes "*") || text_eq scope sandbox

-- The tests of the loop, and the length of the scope's path for a row that passes them.
unfoldable pub file_score : Text → FileMode → Text → PolicyRow → Option ℕ
unfolding parse_file_scope
file_score sandbox mode path row = do
  scope ← parse_file_scope row
  if not (text_eq scope.mode (mode_text mode))
      then none
      else if not (in_sandbox scope.sandbox sandbox)
      then none
      else if not (starts_with path scope.path)
      then none
      else some (length scope.path)

unfoldable pub resolve_file_path_matches :
    List PolicyRow → Text → FileMode → Text → Option (List PolicyMatch)
resolve_file_path_matches file_rows sandbox mode path =
    resolve_best (file_score sandbox mode path) file_rows
