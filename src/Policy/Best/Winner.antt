-- ===== src/Policy/Best/Winner.antt =====
-- The loop of `bestByEffect` finds the best row of each effect.
use mathlib.Core.Option.{some-injective}
use openhermit.Prelude.{
  ℕ, Bool, ◌&&◌, Option, none, some, Option-cases, List, [], ◌∷◌, some_of, lookup, insert, test_at,
  some_of-lookup, All, ◌≡◌, inl, inr, refl, sym, ap, subst, ◌∙◌, arith,
}
use openhermit.Policy.{
  Principal, PolicyEffect, PolicyRow, PolicyMatch, effect_eq, effect_eq_iff, effect_keys,
  can_access,
}
use openhermit.Policy.Evaluate.{covers}
use openhermit.Policy.Best.Found.{
  FoundFor, best_from-FoundFor, best_from-skip, best_from-keep, best_from-Distinct, IsBestOf,
  grants_access,
}
use openhermit.Policy.Best.{Score, Scored, Best, keep_best, best_from, best_matches, resolve_best}

-- The rows of the map stand under their own effect.
abbrev Keyed : Best → Type 0
Keyed best = All (λ b. b.1.0.effect ≡ b.0) best

insert-Keyed :
    (row : PolicyRow) (n : ℕ) (best : Best)
    → Keyed best
    → Keyed (insert effect_keys row.effect (row, n) best)
unfolding insert
insert-Keyed row n [] h = (refl, tt)
insert-Keyed row n ((k, s) ∷ best) h =
    ground (arith, effect_eq_iff k row.effect, insert-Keyed row n best h.1)

best_from-Keyed :
    (score : Score) (rows : List PolicyRow) (best : Best)
    → Keyed best
    → Keyed (best_from score rows best)
unfolding keep_best
best_from-Keyed score [] best h = unfold best_from in h
best_from-Keyed score (row ∷ rows) best h = elim (Option-cases (score row)) [
  | inl skipped ↦
      subst Keyed (sym (best_from-skip score row rows best skipped))
        (best_from-Keyed score rows best h)
  | inr (n, scored) ↦ subst Keyed (sym (best_from-keep score row rows best n scored)) (
      best_from-Keyed score rows (keep_best row n best) (ground (arith, insert-Keyed row n best h)))
]

unfoldable pub scored_access : Principal → Scored → Bool
scored_access p s = can_access p s.0.grants

covers-best_matches :
    (p : Principal) (e : PolicyEffect) (best : Best)
    → Keyed best
    → covers p e (best_matches best) ≡ some_of (λ b. effect_eq b.0 e && scored_access p b.1) best
unfolding best_matches scored_access
covers-best_matches p e [] h = refl
covers-best_matches p e ((k, s) ∷ best) h = ground (arith, covers-best_matches p e best h.1)

winner : Option Scored → Option PolicyRow
winner none = none
winner (some (r, n)) = some r

winner-IsBestOf :
    (score : Score) (e : PolicyEffect) (rows : List PolicyRow) (old : Option Scored)
    → FoundFor score e rows old
    → IsBestOf score e rows (winner old)
unfolding winner
winner-IsBestOf score e rows none h = h
winner-IsBestOf score e rows (some (r, n)) (stands, same, scored, most, first) =
    (stands, same, n, scored, most, first)

test_at-winner :
    (p : Principal) (old : Option Scored)
    → test_at effect_keys (scored_access p) old ≡ grants_access p (winner old)
unfolding winner scored_access
test_at-winner p none = refl
test_at-winner p (some s) = refl

start-FoundFor : (score : Score) (e : PolicyEffect) → FoundFor score e [] (lookup effect_keys e [])
unfolding lookup
start-FoundFor score e = tt

pub covers-best_from :
    (score : Score) (rows : List PolicyRow) (p : Principal) (e : PolicyEffect)
    → covers p e (best_matches (best_from score rows []))
      ≡ test_at effect_keys (scored_access p) (lookup effect_keys e (best_from score rows []))
covers-best_from score rows p e =
    covers-best_matches p e (best_from score rows []) (best_from-Keyed score rows [] tt)
    ∙ some_of-lookup effect_keys e (scored_access p) (best_from score rows [])
        (best_from-Distinct score rows [] tt)

-- Whatever the scores, where there are rows at all: for each effect there is a row of the highest
-- score among the rows of the effect, the first such row in the order of the rows, or no row of the
-- effect has a score, and the matches cover the effect exactly if the best row grants the
-- principal.
pub resolve_best-IsBestOf :
    (score : Score) (rows : List PolicyRow) (ms : List PolicyMatch) (p : Principal)
    (e : PolicyEffect)
    → resolve_best score rows ≡ some ms
    → (w : Option PolicyRow) × IsBestOf score e rows w × (covers p e ms ≡ grants_access p w)
unfolding resolve_best
resolve_best-IsBestOf score [] ms p e h = absurd (cc h)
resolve_best-IsBestOf score (row ∷ rows) ms p e h =
    let best = best_from score (row ∷ rows) [] in
    let old = lookup effect_keys e best in
    (
      winner old,
      winner-IsBestOf score e (row ∷ rows) old
          (best_from-FoundFor score e (row ∷ rows) [] [] (start-FoundFor score e)),
      ap (λ found. covers p e found) (sym (some-injective _ _ h))
          ∙ covers-best_from score (row ∷ rows) p e
          ∙ test_at-winner p old,
    )
