-- ===== src/Policy/Mcp.antt =====
-- `resolveMcpMatches` and `parseMcpServerId` of apps/agent/src/core/policy.ts.
pub mod Server
pub mod ToolName
use openhermit.Prelude.{
  ℕ, suc, Text, codes, text_eq, starts_with, drop, take, not, ◌&&◌, Option, none, some, List, [],
  ◌∷◌, ◌++◌, some_of, if◌then◌else◌,
}
use mathlib.Core.Option
use openhermit.Policy.{PolicyEffect, PolicyRow, PolicyMatch, effect_eq, to_match}

-- `seenEffects` and `matches`
pub record Seen : Type 0 where
  pub effects : List PolicyEffect
  pub matches : List PolicyMatch

unfoldable pub mcp_step : Text → PolicyRow → Seen → Seen
mcp_step key row seen =
    if text_eq row.resource_key key && not (some_of (λ e. effect_eq e row.effect) seen.effects)
    then record {
      effects = seen.effects ++ row.effect ∷ [];
      matches = seen.matches ++ to_match row ∷ [];
    }
    else seen

-- One pass over the rows, for one key.
unfoldable pub mcp_pass : Text → List PolicyRow → Seen → Seen
mcp_pass key [] seen = seen
mcp_pass key (row ∷ rows) seen = mcp_pass key rows (mcp_step key row seen)

unfoldable pub resolve_mcp_matches : List PolicyRow → Text → Option (List PolicyMatch)
unfolding mcp_pass mcp_step
resolve_mcp_matches [] server_id = none
resolve_mcp_matches (row ∷ rows) server_id =
    let exact = mcp_pass server_id (row ∷ rows) (record { effects = []; matches = [] }) in
    some (mcp_pass (codes "*") (row ∷ rows) exact).matches

-- `s.indexOf('__')`, `none` for -1
unfoldable pub index_of_sep : Text → Option ℕ
unfolding starts_with
index_of_sep [] = none
index_of_sep (c ∷ s) =
    if starts_with (c ∷ s) (codes "__") then some 0 else Option.map suc (index_of_sep s)

abbrev before : Text → Option ℕ → Option Text
before s none = none
before s (some n) = some (take n s)

unfoldable pub parse_mcp_server_id : Text → Option Text
unfolding index_of_sep starts_with
parse_mcp_server_id tool_name =
    if not (starts_with tool_name (codes "mcp__"))
    then none
    else before (drop 5 tool_name) (index_of_sep (drop 5 tool_name))
