-- ===== src/Policy/Evaluate.antt =====
-- What `evaluateAccess` decides.
use openhermit.Prelude.{
  Bool, true, false, ◌&&◌, ◌||◌, List, [], ◌∷◌, some_of, ◌≡◌, arith, if◌then◌else◌,
}
use openhermit.Policy.{
  Principal, PolicyEffect, PolicyMatch, AccessDecision, allow, deny, require_approval, effect_eq,
  can_access, evaluate_from, evaluate_access,
}

-- Some matched row of the effect has a grant for the principal.
abbrev pub covers : Principal → PolicyEffect → List PolicyMatch → Bool
covers p e ms = some_of (λ m. effect_eq m.effect e && can_access p m.grants) ms

-- The priority deny > require_approval > allow > default, over what is covered.
abbrev pub by_priority : Bool → Bool → Bool → AccessDecision → AccessDecision
by_priority d r a default =
    if d then deny else if r then require_approval else if a then allow else default

evaluate_from-priority :
    (p : Principal) (default : AccessDecision) (a r : Bool) (ms : List PolicyMatch)
    → evaluate_from p default a r ms
      ≡ by_priority
          (covers p deny ms)
          (r || covers p require_approval ms)
          (a || covers p allow ms)
          default
unfolding evaluate_from
evaluate_from-priority p default a r [] = ground arith
evaluate_from-priority p default a r (m ∷ ms) = ground (
  arith,
  evaluate_from-priority p default a r ms,
  evaluate_from-priority p default true r ms,
  evaluate_from-priority p default a true ms,
)

-- The decision is deny if a deny row grants the principal, else require_approval if a
-- require_approval row does, else allow if an allow row does, else the default.
pub evaluate_access-priority :
    (p : Principal) (ms : List PolicyMatch) (default : AccessDecision)
    → evaluate_access p ms default
      ≡ by_priority (covers p deny ms) (covers p require_approval ms) (covers p allow ms) default
unfolding evaluate_access
evaluate_access-priority p ms default = evaluate_from-priority p default false false ms
