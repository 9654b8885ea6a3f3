-- ===== src/Policy/Grants/Agree.antt =====
-- The deprecated resolutions grant what the allow rows of the new ones grant.
use mathlib.Core.Option
use openhermit.Prelude.{
  ℕ, Text, codes, Bool, Option, Option-cases, none, some, List, [], ◌∷◌, lookup, test_at, ◌≡◌, inl,
  inr, refl, sym, ap, ◌∙◌, arith, if◌then◌else◌,
}
use openhermit.Policy.{Principal, PolicyRow, allow, effect_eq, effect_keys, can_access}
use openhermit.Policy.Evaluate.{covers}
use openhermit.Policy.Best.{Score, Scored, Best, best_from, best_matches, keep_best, resolve_best}
use openhermit.Policy.Best.Found.{
  keep_one, keep_best-lookup, best_from-skip, best_from-keep, grants_access,
}
use openhermit.Policy.Best.Winner.{scored_access, covers-best_from}
use openhermit.Policy.Files.{FileMode, file_score, resolve_file_path_matches}
use openhermit.Policy.Commands.{normalize_command}
use openhermit.Policy.Exec.{exec_score, resolve_exec_matches}
use openhermit.Policy.Mcp.{resolve_mcp_matches}
use openhermit.Policy.Mcp.Server.{first_row, or_row, covers-resolve_mcp_matches}
use openhermit.Policy.Grants.{
  replace_best, allow_from, grants_of, resolve_best_grants, resolve_file_path_grants,
  resolve_exec_grants, resolve_mcp_grants, or_found,
}

step-skip :
    (b : Bool) (row : PolicyRow) (o : Option ℕ) (old : Option Scored)
    → o ≡ none
    → (if b then replace_best row o old else old) ≡ old
step-skip b row o old h = ground (arith, h)

step-keep :
    (row : PolicyRow) (n : ℕ) (o : Option ℕ) (old : Option Scored)
    → o ≡ some n
    → (if effect_eq row.effect allow then replace_best row o old else old)
      ≡ keep_one row n allow old
unfolding keep_one
step-keep row n o old h = ground (arith, h)

allow_from-lookup :
    (score : Score) (rows : List PolicyRow) (best : Best)
    → allow_from score rows (lookup effect_keys allow best)
      ≡ lookup effect_keys allow (best_from score rows best)
unfolding allow_from
allow_from-lookup score [] best = unfold best_from in refl
allow_from-lookup score (row ∷ rows) best = elim (Option-cases (score row)) [
  | inl skipped ↦
      ap (allow_from score rows) (step-skip (effect_eq row.effect allow) row (score row) _ skipped)
      ∙ allow_from-lookup score rows best
      ∙ ap (lookup effect_keys allow) (sym (best_from-skip score row rows best skipped))
  | inr (n, scored) ↦
      ap (allow_from score rows)
        (step-keep row n (score row) _ scored ∙ sym (keep_best-lookup row n allow best))
      ∙ allow_from-lookup score rows (keep_best row n best)
      ∙ ap (lookup effect_keys allow) (sym (best_from-keep score row rows best n scored))
]

can_access-grants_of :
    (p : Principal) (o : Option Scored)
    → can_access p (grants_of o) ≡ test_at effect_keys (scored_access p) o
unfolding can_access scored_access
can_access-grants_of p none = refl
can_access-grants_of p (some s) = refl

allow_from-covers :
    (p : Principal) (score : Score) (rows : List PolicyRow)
    → can_access p (grants_of (allow_from score rows none))
      ≡ covers p allow (best_matches (best_from score rows []))
unfolding lookup best_matches
allow_from-covers p score rows =
    can_access-grants_of p (allow_from score rows none)
    ∙ ap (test_at effect_keys (scored_access p)) (allow_from-lookup score rows [])
    ∙ sym (covers-best_from score rows p allow)

resolve_best_grants-covers :
    (p : Principal) (score : Score) (rows : List PolicyRow)
    → Option.map (can_access p) (resolve_best_grants score rows)
      ≡ Option.map (covers p allow) (resolve_best score rows)
unfolding resolve_best_grants resolve_best
resolve_best_grants-covers p score [] = refl
resolve_best_grants-covers p score (row ∷ rows) = ap some (allow_from-covers p score (row ∷ rows))

can_access-or_found :
    (p : Principal) (a b : Option PolicyRow)
    → can_access p (or_found a b) ≡ grants_access p (or_row a b)
unfolding can_access
can_access-or_found p (some r) b = refl
can_access-or_found p none (some r) = refl
can_access-or_found p none none = refl

resolve_mcp_grants-covers :
    (p : Principal) (rows : List PolicyRow) (server_id : Text)
    → Option.map (can_access p) (resolve_mcp_grants rows server_id)
      ≡ Option.map (covers p allow) (resolve_mcp_matches rows server_id)
unfolding resolve_mcp_grants resolve_mcp_matches first_row
resolve_mcp_grants-covers p [] server_id = refl
resolve_mcp_grants-covers p (row ∷ rows) server_id = ap some (
    can_access-or_found p (first_row server_id allow (row ∷ rows))
      (first_row (codes "*") allow (row ∷ rows))
    ∙ sym (covers-resolve_mcp_matches (row ∷ rows) server_id _ p allow refl))

-- The deprecated resolutions for a path, for a command and for an MCP server give grants exactly where
-- the new ones give matches, and the grants let a principal in exactly where the allow rows among the
-- matches do. They differ from the new ones only in the rows of the other effects, which they ignore.
pub deprecated_grants-covers :
    (p : Principal) (rows : List PolicyRow) (sandbox : Text) (mode : FileMode) (path command : Text)
    (cwd : Option Text) (server_id : Text)
    → (Option.map (can_access p) (resolve_file_path_grants rows sandbox mode path)
        ≡ Option.map (covers p allow) (resolve_file_path_matches rows sandbox mode path))
      × (Option.map (can_access p) (resolve_exec_grants rows sandbox command cwd)
          ≡ Option.map (covers p allow) (resolve_exec_matches rows sandbox command cwd))
      × (Option.map (can_access p) (resolve_mcp_grants rows server_id)
          ≡ Option.map (covers p allow) (resolve_mcp_matches rows server_id))
unfolding resolve_file_path_grants resolve_file_path_matches resolve_exec_grants
    resolve_exec_matches
deprecated_grants-covers p rows sandbox mode path command cwd server_id = (
  resolve_best_grants-covers p (file_score sandbox mode path) rows,
  resolve_best_grants-covers p (exec_score sandbox (normalize_command command) cwd) rows,
  resolve_mcp_grants-covers p rows server_id,
)
