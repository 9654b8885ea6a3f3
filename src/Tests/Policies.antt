-- ===== src/Tests/Policies.antt =====
-- Policies at concrete rows: an agent `a` with a deny row for guests and an allow row for everyone.
use openhermit.Prelude.{
  ℕ, ◌↔◌, Text, codes, text_eq, starts_with, lookup, insert, Option, none, some, List, [], ◌∷◌, ◌≡◌,
  refl,
}
use openhermit.Policy.{
  Principal, PolicyRow, PolicyMatch, guest, Grant, any, role, PolicyEffect, allow, deny,
  require_approval, evaluate_access, matches_grant, can_access, to_match,
}
use openhermit.Policy.Evaluate.{covers, by_priority, evaluate_access-priority}
use openhermit.Policy.Best.{Score, resolve_best, best_matches, best_from, keep_best}
use openhermit.Policy.Best.Found.{IsBestOf, grants_access}
use openhermit.Policy.Best.Winner.{resolve_best-IsBestOf}
use openhermit.Policy.Files.{read, file_score, resolve_file_path_matches, parse_file_scope}
use openhermit.Policy.Commands.{normalize_command}
use openhermit.Policy.Decisions.{DecidedBy, FitsFile, file_matches-DecidedBy}

abbrev guest_principal : Principal
guest_principal = record { user_id = none; role = some guest; agent_id = codes "a" }

abbrev file_row : PolicyEffect → List Grant → Text → PolicyRow
file_row effect grants path = record {
  agent_id = codes "a";
  resource_type = codes "file";
  resource_key = codes "*";
  effect = effect;
  grants = grants;
  scope_sandbox = some (codes "*");
  scope_mode = some (codes "read");
  scope_path = some path;
  scope_command = none;
  scope_cwd = none;
}

abbrev two_rows : List PolicyRow
two_rows =
    file_row allow (any ∷ []) (codes "/w") ∷ file_row deny (role guest ∷ []) (codes "/w/keys") ∷ []

abbrev two_matches : List PolicyMatch
two_matches =
    to_match (file_row allow (any ∷ []) []) ∷ to_match (file_row deny (role guest ∷ []) []) ∷ []

evaluate_access-priority_example :
    evaluate_access guest_principal two_matches allow
    ≡ by_priority
        (covers guest_principal deny two_matches)
        (covers guest_principal require_approval two_matches)
        (covers guest_principal allow two_matches)
        allow
evaluate_access-priority_example = evaluate_access-priority guest_principal two_matches allow

deny_wins : evaluate_access guest_principal two_matches allow ≡ deny
unfolding evaluate_access can_access matches_grant
deny_wins = refl

resolve_best-IsBestOf_example :
    (w : Option PolicyRow) × IsBestOf
      (file_score (codes "s") read (codes "/w/keys/k"))
      deny
      two_rows
      w
    × (covers guest_principal deny two_matches ≡ grants_access guest_principal w)
unfolding resolve_best file_score best_matches best_from keep_best parse_file_scope text_eq
    starts_with lookup insert
resolve_best-IsBestOf_example =
    resolve_best-IsBestOf (file_score (codes "s") read (codes "/w/keys/k")) two_rows two_matches
      guest_principal deny refl

file_matches-DecidedBy_example :
    (score : Score) × ((row : PolicyRow) (n : ℕ)
      → (score row ≡ some n) ↔ FitsFile (codes "s") read (codes "/w/keys/k") row n)
    × DecidedBy score two_rows guest_principal deny
        (evaluate_access guest_principal two_matches deny)
unfolding resolve_file_path_matches resolve_best file_score best_matches best_from keep_best
    parse_file_scope text_eq starts_with lookup insert
file_matches-DecidedBy_example =
    file_matches-DecidedBy two_rows (codes "s") read (codes "/w/keys/k") two_matches guest_principal
      deny refl

abbrev exec_row : Text → PolicyRow
exec_row command = record {
  agent_id = codes "a";
  resource_type = codes "exec";
  resource_key = codes "*";
  effect = allow;
  grants = any ∷ [];
  scope_sandbox = some (codes "s");
  scope_mode = none;
  scope_path = none;
  scope_command = some command;
  scope_cwd = none;
}

blanks_go : normalize_command (codes " ls   -a ") ≡ codes "ls -a"
unfolding normalize_command
blanks_go = refl

abbrev mcp_row : Text → PolicyEffect → PolicyRow
mcp_row key effect = record {
  agent_id = codes "a";
  resource_type = codes "mcp";
  resource_key = key;
  effect = effect;
  grants = any ∷ [];
  scope_sandbox = none;
  scope_mode = none;
  scope_path = none;
  scope_command = none;
  scope_cwd = none;
}

abbrev mcp_rows : List PolicyRow
mcp_rows = mcp_row (codes "*") deny ∷ mcp_row (codes "x") allow ∷ []
