-- ===== src/Policy/Tools.antt =====
-- `findPolicyRows` and `resolveToolMatches` of apps/agent/src/core/policy.ts.
use openhermit.Prelude.{
  Text, codes, text_eq, starts_with, ends_with, drop_last, Bool, false, not, ◌&&◌, ◌||◌, Option,
  none, some, List, [], ◌∷◌, ◌++◌, map, filter, some_of, ◌≡◌, arith, refl, ◌∙◌, if◌then◌else◌,
}
use openhermit.Policy.{
  Grant, Principal, PolicyEffect, PolicyRow, PolicyMatch, ToolPolicy, fixed, configurable,
  effect_eq, effect_eq_iff, can_access, to_match, allowing,
}
use openhermit.Policy.Evaluate.{covers}

abbrev pub is_exact : Text → Text → PolicyRow → Bool
is_exact resource_type key r = text_eq r.resource_type resource_type && text_eq r.resource_key key

-- A resource key that ends in `*` stands for every key with what is before the `*` in front.
abbrev pub is_prefix : Text → Text → PolicyRow → Bool
is_prefix resource_type key r =
    text_eq r.resource_type resource_type
    && (ends_with b'*' r.resource_key && starts_with key (drop_last r.resource_key))

abbrev pub same_effect : PolicyEffect → PolicyRow → Bool
same_effect e r = effect_eq r.effect e

unfoldable pub find_policy_rows : List PolicyRow → Text → Text → List PolicyRow
find_policy_rows rows resource_type key =
    let exact = filter (is_exact resource_type key) rows in
    exact
    ++ filter
        (λ r.
          is_prefix resource_type key r && not (some_of (λ e. effect_eq e.effect r.effect) exact))
        rows

tool_rows : Option (List PolicyRow) → Text → List PolicyRow
tool_rows none tool_name = []
tool_rows (some rows) tool_name = find_policy_rows rows (codes "tool") tool_name

or_default : List PolicyRow → PolicyMatch → List PolicyMatch
or_default [] m = m ∷ []
or_default (r ∷ rs) m = map to_match (r ∷ rs)

default_match : Option ToolPolicy → PolicyMatch
default_match (some (configurable grants)) = allowing grants
default_match _ = allowing (Grant.any ∷ [])

unfoldable pub resolve_tool_matches :
    Option (List PolicyRow) → Text → Option ToolPolicy → List PolicyMatch
unfolding tool_rows or_default default_match
resolve_tool_matches policy_rows tool_name (some (fixed grants)) = allowing grants ∷ []
resolve_tool_matches policy_rows tool_name declared =
    or_default (tool_rows policy_rows tool_name) (default_match declared)

-- A row of the effect grants the principal, and passes the test.
abbrev pub grants_by : Principal → PolicyEffect → (PolicyRow → Bool) → List PolicyRow → Bool
grants_by p e f rows = some_of (λ r. f r && (effect_eq r.effect e && can_access p r.grants)) rows

-- A row of the effect passes the test.
abbrev pub has_effect : PolicyEffect → (PolicyRow → Bool) → List PolicyRow → Bool
has_effect e f rows = some_of (λ r. f r && effect_eq r.effect e) rows

covers-filter :
    (p : Principal) (e : PolicyEffect) (f : PolicyRow → Bool) (rows : List PolicyRow)
    → covers p e (map to_match (filter f rows)) ≡ grants_by p e f rows
covers-filter p e f [] = refl
covers-filter p e f (r ∷ rows) = ground (arith, covers-filter p e f rows)

has_effect-filter :
    (e : PolicyEffect) (f : PolicyRow → Bool) (rows : List PolicyRow)
    → some_of (same_effect e) (filter f rows) ≡ has_effect e f rows
has_effect-filter e f [] = refl
has_effect-filter e f (r ∷ rows) = ground (arith, has_effect-filter e f rows)

-- A condition on the effect alone comes out of the search for one effect.
grants_by-guard :
    (p : Principal) (e : PolicyEffect) (f : PolicyRow → Bool) (g : PolicyEffect → Bool)
    (rows : List PolicyRow)
    → grants_by p e (λ r. f r && g r.effect) rows ≡ (g e && grants_by p e f rows)
grants_by-guard p e f g [] = ground arith
grants_by-guard p e f g (r ∷ rows) =
    ground (arith, effect_eq_iff r.effect e, grants_by-guard p e f g rows)

no_effect-no_grant :
    (p : Principal) (e : PolicyEffect) (f : PolicyRow → Bool) (rows : List PolicyRow)
    → has_effect e f rows ≡ false
    → grants_by p e f rows ≡ false
no_effect-no_grant p e f [] h = refl
no_effect-no_grant p e f (r ∷ rows) h = ground (arith, no_effect-no_grant p e f rows)

covers-append :
    (p : Principal) (e : PolicyEffect) (xs ys : List PolicyRow)
    → covers p e (map to_match (xs ++ ys))
      ≡ (covers p e (map to_match xs) || covers p e (map to_match ys))
covers-append p e [] ys = refl
covers-append p e (x ∷ xs) ys = ground (arith, covers-append p e xs ys)

-- `hidden` holds of an effect that an exact row has.
covers-exact_prefix :
    (p : Principal) (e : PolicyEffect) (f g : PolicyRow → Bool) (hidden : PolicyEffect → Bool)
    (rows : List PolicyRow)
    → covers p e (map to_match (filter f rows ++ filter (λ r. g r && not (hidden r.effect)) rows))
      ≡ (grants_by p e f rows || (not (hidden e) && grants_by p e g rows))
covers-exact_prefix p e f g hidden rows = cc (
  covers-append p e (filter f rows) (filter (λ r. g r && not (hidden r.effect)) rows),
  covers-filter p e f rows,
  covers-filter p e (λ r. g r && not (hidden r.effect)) rows,
  grants_by-guard p e g (λ a. not (hidden a)) rows,
)

-- An exact row of an effect hides every wildcard row of that effect, and no row of another effect:
-- what the matched rows cover is what the exact rows of the effect grant, if there is one, and else
-- what its wildcard rows grant.
pub covers-find_policy_rows :
    (rows : List PolicyRow) (resource_type key : Text) (p : Principal) (e : PolicyEffect)
    → covers p e (map to_match (find_policy_rows rows resource_type key)) ≡ (
        if has_effect e (is_exact resource_type key) rows
        then grants_by p e (is_exact resource_type key) rows
        else grants_by p e (is_prefix resource_type key) rows)
unfolding find_policy_rows
covers-find_policy_rows rows resource_type key p e =
    let exact = is_exact resource_type key in
    let prefix = is_prefix resource_type key in
    let hidden = λ (a : PolicyEffect). some_of (same_effect a) (filter exact rows) in
    covers-exact_prefix p e exact prefix hidden rows
    ∙ ground (arith, has_effect-filter e exact rows, no_effect-no_grant p e exact rows)
