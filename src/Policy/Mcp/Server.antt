-- ===== src/Policy/Mcp/Server.antt =====
-- The rows of an MCP server: for each effect the first row of the server itself, and without one
-- the first row for every server.
use openhermit.Prelude.{
  Text, codes, text_eq, Bool, not, ◌&&◌, ◌||◌, Option, none, some, List, [], ◌∷◌, some_of,
  some_of-append, is_some, find, ◌≡◌, ◌∙◌, refl, ap, sym, arith,
}
use mathlib.Core.Option.{some-injective}
use openhermit.Policy.{
  Principal, PolicyEffect, PolicyRow, PolicyMatch, effect_eq, effect_eq_iff, can_access, to_match,
}
use openhermit.Policy.Evaluate.{covers}
use openhermit.Policy.Best.Found.{grants_access}
use openhermit.Policy.Mcp.{Seen, mcp_step, mcp_pass, resolve_mcp_matches}

abbrev pub is_row_of : Text → PolicyEffect → PolicyRow → Bool
is_row_of key e r = text_eq r.resource_key key && effect_eq r.effect e

abbrev seen_effect : PolicyEffect → Seen → Bool
seen_effect e seen = some_of (λ x. effect_eq x e) seen.effects

unfoldable pub first_row : Text → PolicyEffect → List PolicyRow → Option PolicyRow
first_row key e rows = find (is_row_of key e) rows

has_row : Text → PolicyEffect → List PolicyRow → Bool
has_row key e rows = some_of (is_row_of key e) rows

mcp_step-seen :
    (key : Text) (e : PolicyEffect) (row : PolicyRow) (seen : Seen)
    → seen_effect e (mcp_step key row seen) ≡ (seen_effect e seen || is_row_of key e row)
unfolding mcp_step
mcp_step-seen key e row seen = ground (
  arith,
  some_of-append (λ x. effect_eq x e) seen.effects (row.effect ∷ []),
  effect_eq_iff row.effect e,
)

mcp_step-covers :
    (key : Text) (p : Principal) (e : PolicyEffect) (row : PolicyRow) (seen : Seen)
    → covers p e (mcp_step key row seen).matches ≡ (
        covers p e seen.matches
        || (not (seen_effect e seen) && (is_row_of key e row && can_access p row.grants)))
unfolding mcp_step
mcp_step-covers key p e row seen = ground (
  arith,
  some_of-append (λ m. effect_eq m.effect e && can_access p m.grants) seen.matches
      (to_match row ∷ []),
  effect_eq_iff row.effect e,
)

mcp_pass-seen :
    (key : Text) (e : PolicyEffect) (rows : List PolicyRow) (seen : Seen)
    → seen_effect e (mcp_pass key rows seen) ≡ (seen_effect e seen || has_row key e rows)
unfolding mcp_pass has_row
mcp_pass-seen key e [] seen = ground arith
mcp_pass-seen key e (row ∷ rows) seen =
    ground (arith, mcp_pass-seen key e rows (mcp_step key row seen), mcp_step-seen key e row seen)

mcp_pass-covers :
    (key : Text) (p : Principal) (e : PolicyEffect) (rows : List PolicyRow) (seen : Seen)
    → covers p e (mcp_pass key rows seen).matches ≡ (
        covers p e seen.matches
        || (not (seen_effect e seen) && grants_access p (first_row key e rows)))
unfolding mcp_pass first_row
mcp_pass-covers key p e [] seen = ground arith
mcp_pass-covers key p e (row ∷ rows) seen = ground (
  arith,
  mcp_pass-covers key p e rows (mcp_step key row seen),
  mcp_step-seen key e row seen,
  mcp_step-covers key p e row seen,
)

has_row-first_row :
    (key : Text) (e : PolicyEffect) (rows : List PolicyRow)
    → has_row key e rows ≡ is_some (first_row key e rows)
unfolding has_row first_row
has_row-first_row key e [] = refl
has_row-first_row key e (row ∷ rows) = ground (arith, has_row-first_row key e rows)

abbrev pub or_row : Option PolicyRow → Option PolicyRow → Option PolicyRow
or_row none s = s
or_row (some r) s = some r

both_passes :
    (p : Principal) (e : PolicyEffect) (covered seen : Bool) (exact star : Option PolicyRow)
    {result : Bool}
    → covered ≡ grants_access p exact
    → seen ≡ is_some exact
    → result ≡ (covered || (not seen && grants_access p star))
    → result ≡ grants_access p (or_row exact star)
both_passes p e covered seen none star c s r = ground arith
both_passes p e covered seen (some x) star c s r = ground arith

-- If the agent has MCP rows at all, what its matches for a server cover is decided, for each
-- effect, by the first row of the server itself, and without one by the first row for every server.
pub covers-resolve_mcp_matches :
    (rows : List PolicyRow) (server_id : Text) (ms : List PolicyMatch) (p : Principal)
    (e : PolicyEffect)
    → resolve_mcp_matches rows server_id ≡ some ms
    → covers p e ms
      ≡ grants_access p (or_row (first_row server_id e rows) (first_row (codes "*") e rows))
unfolding resolve_mcp_matches
covers-resolve_mcp_matches [] server_id ms p e h = absurd (cc h)
covers-resolve_mcp_matches (row ∷ rows) server_id ms p e h =
    let all_rows = row ∷ rows in
    let start : Seen = record { effects = []; matches = [] } in
    let exact = mcp_pass server_id all_rows start in
    ap (λ found. covers p e found) (sym (some-injective _ _ h))
    ∙ both_passes p e (covers p e exact.matches) (seen_effect e exact)
        (first_row server_id e all_rows) (first_row (codes "*") e all_rows)
        (mcp_pass-covers server_id p e all_rows start)
        (mcp_pass-seen server_id e all_rows start ∙ has_row-first_row server_id e all_rows)
        (mcp_pass-covers (codes "*") p e all_rows exact)
