-- ===== src/Policy.antt =====
-- apps/agent/src/core/policy.ts: grants, principals, and the evaluation of matched rows.
-- `row.effect ?? 'allow'` is `row.effect`, since the field's type has no null; the row's `scope` is
-- kept as the fields that the code reads, each `none` where it is absent or not a string.
pub mod Evaluate
pub mod Tools
pub mod Best
pub mod Files
pub mod Commands
pub mod Exec
pub mod Mcp
pub mod Decisions
pub mod Grants
use openhermit.Prelude.{
  Text, text_eq, truthy, Bool, true, false, ◌&&◌, Option, none, some, List, [], ◌∷◌, some_of, Eq,
  ◌≡◌, ◌↔◌, arith, refl,
}

-- `UserRole` of packages/store/src/types.ts
pub data UserRole : Type 0 where
  owner user guest : UserRole

pub data Grant : Type 0 where
  any : Grant
  role : UserRole → Grant
  user : Text → Grant

pub record Principal : Type 0 where
  pub user_id : Option Text
  pub role : Option UserRole
  pub agent_id : Text

pub data PolicyEffect : Type 0 where
  allow deny require_approval : PolicyEffect

-- `AccessDecision` has the same three values.
abbrev pub AccessDecision : Type 0
AccessDecision = PolicyEffect

pub record PolicyRow : Type 0 where
  pub agent_id : Text
  pub resource_type : Text
  pub resource_key : Text
  pub effect : PolicyEffect
  pub grants : List Grant
  pub scope_sandbox : Option Text
  pub scope_mode : Option Text
  pub scope_path : Option Text
  pub scope_command : Option Text
  pub scope_cwd : Option Text

pub record PolicyMatch : Type 0 where
  pub effect : PolicyEffect
  pub grants : List Grant

pub data ToolPolicy : Type 0 where
  fixed configurable : List Grant → ToolPolicy

abbrev pub role_eq : UserRole → UserRole → Bool
role_eq owner owner = true
role_eq UserRole.user UserRole.user = true
role_eq guest guest = true
role_eq _ _ = false

abbrev pub effect_eq : PolicyEffect → PolicyEffect → Bool
effect_eq allow allow = true
effect_eq deny deny = true
effect_eq require_approval require_approval = true
effect_eq _ _ = false

pub effect_eq_iff : (a b : PolicyEffect) → (effect_eq a b ≡ true) ↔ (a ≡ b)
effect_eq_iff a b = ground arith

abbrev pub effect_keys : Eq PolicyEffect
effect_keys = record { beq = effect_eq; beq_iff = effect_eq_iff }

abbrev role_is : Option UserRole → UserRole → Bool
role_is none r = false
role_is (some q) r = role_eq q r

abbrev user_is : Option Text → Text → Bool
user_is none u = false
user_is (some i) u = truthy i && text_eq i u

unfoldable pub matches_grant : Principal → Grant → Bool
matches_grant p any = true
matches_grant p (role r) = role_is p.role r
matches_grant p (Grant.user u) = user_is p.user_id u

unfoldable pub can_access : Principal → List Grant → Bool
can_access p grants = some_of (matches_grant p) grants

-- The loop of `evaluateAccess`, with its two flags.
unfoldable pub evaluate_from :
    Principal → AccessDecision → Bool → Bool → List PolicyMatch → AccessDecision
evaluate_from p default has_allow has_require_approval [] = elim has_require_approval [
  | true ↦ require_approval
  | false ↦ elim has_allow [ true ↦ allow | false ↦ default ]
]
evaluate_from p default has_allow has_require_approval (m ∷ ms) = elim (can_access p m.grants) [
  | false ↦ evaluate_from p default has_allow has_require_approval ms
  | true ↦ elim m.effect [
    | deny ↦ deny
    | require_approval ↦ evaluate_from p default has_allow true ms
    | allow ↦ evaluate_from p default true has_require_approval ms
  ]
]

unfoldable pub evaluate_access : Principal → List PolicyMatch → AccessDecision → AccessDecision
unfolding evaluate_from
evaluate_access p matches default = evaluate_from p default false false matches

abbrev present : Option Text → Option Text
present none = none
present (some []) = none
present (some (c ∷ s)) = some (c ∷ s)

unfoldable pub build_principal : Text → Option Text → Option UserRole → Principal
build_principal agent_id user_id r = record {
  user_id = present user_id;
  role = r;
  agent_id = agent_id;
}

-- `{ effect: r.effect, grants: r.grants }`
abbrev pub to_match : PolicyRow → PolicyMatch
to_match r = record { effect = r.effect; grants = r.grants }

-- The one match of a tool policy or of an open tool.
abbrev pub allowing : List Grant → PolicyMatch
allowing grants = record { effect = allow; grants = grants }
