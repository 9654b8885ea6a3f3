-- ===== src/Policy/Best.antt =====
-- The `bestByEffect` map that `resolveFilePathMatches` and `resolveExecMatches` of
-- apps/agent/src/core/policy.ts fill: for each effect the first row of the highest score. A row
-- that the loop skips by `continue` has no score.
pub mod Found
pub mod Winner
use openhermit.Prelude.{
  ℕ, ◌≤◌, Bool, true, false, ◌&&◌, Option, none, some, List, [], ◌∷◌, ◌++◌, map, some_of, lookup,
  insert, lookup-insert, Distinct, insert-Distinct, test_at, some_of-lookup, ltb, leb, All, In, ◌≡◌,
  ◌⊎◌, inl, inr, refl, arith, if◌then◌else◌,
}
use openhermit.Policy.{
  Principal, PolicyEffect, PolicyRow, PolicyMatch, effect_eq, effect_eq_iff, effect_keys,
  can_access, to_match,
}
use openhermit.Policy.Evaluate.{covers}

abbrev pub Score : Type 0
Score = PolicyRow → Option ℕ

abbrev pub Scored : Type 0
Scored = PolicyRow × ℕ

abbrev pub Best : Type 0
Best = List (PolicyEffect × Scored)

-- `!existing || score > existing.score`
abbrev pub beats : ℕ → Option Scored → Bool
beats n none = true
beats n (some (r, m)) = ltb m n

unfoldable pub keep_best : PolicyRow → ℕ → Best → Best
keep_best row n best =
    if beats n (lookup effect_keys row.effect best)
    then insert effect_keys row.effect (row, n) best
    else best

unfoldable pub best_from : Score → List PolicyRow → Best → Best
best_from score [] best = best
best_from score (row ∷ rows) best = elim (score row) [
  | none ↦ best_from score rows best
  | some n ↦ best_from score rows (keep_best row n best)
]

unfoldable pub best_matches : Best → List PolicyMatch
best_matches best = map (λ b. to_match b.1.0) best

-- The tail of both functions: no rows at all is `undefined`, else the best row of each effect.
unfoldable pub resolve_best : Score → List PolicyRow → Option (List PolicyMatch)
resolve_best score [] = none
resolve_best score (row ∷ rows) = some (best_matches (best_from score (row ∷ rows) []))
