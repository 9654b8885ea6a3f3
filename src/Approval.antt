-- ===== src/Approval.antt =====
-- packages/store/src/impl/approval-request-store.ts and `checkApprovalOrRequest` of
-- apps/agent/src/tools/shared.ts. The table is a list in the order in which the database returns
-- its rows; instants are milliseconds; the id that `randomUUID` draws and the time that the clock
-- shows are arguments.
pub mod Granted
pub mod Reviewed
pub mod Required
use openhermit.Prelude.{
  ℕ, suc, ◌+◌, ◌*◌, Text, codes, text_eq, truthy, ltb, Bool, true, false, ◌&&◌, Option, none, some,
  or_else, List, [], ◌∷◌, ◌++◌, find, filter, map, if◌then◌else◌, ◌>>=◌,
}

pub data ApprovalStatus : Type 0 where
  pending approved rejected expired : ApprovalStatus

pub data ApprovalResolution : Type 0 where
  once persistent : ApprovalResolution

pub record ApprovalRequest : Type 0 where
  pub id : Text
  pub agent_id : Text
  pub session_id : Text
  pub requester_id : Text
  pub resource_type : Text
  pub resource_key : Text
  pub scope : List (Text × Text)
  pub status : ApprovalStatus
  pub resolution : Option ApprovalResolution
  pub resolved_by : Option Text
  pub reason : Option Text
  pub created_at : ℕ
  pub resolved_at : Option ℕ
  pub ttl_minutes : ℕ

pub record CreateInput : Type 0 where
  pub agent_id : Text
  pub session_id : Text
  pub requester_id : Text
  pub resource_type : Text
  pub resource_key : Text
  pub scope : Option (List (Text × Text))
  pub ttl_minutes : Option ℕ

abbrev pub status_eq : ApprovalStatus → ApprovalStatus → Bool
status_eq pending pending = true
status_eq approved approved = true
status_eq rejected rejected = true
status_eq expired expired = true
status_eq _ _ = false

abbrev pub new_row : Text → ℕ → CreateInput → ApprovalRequest
new_row id now input = record {
  id = id;
  agent_id = input.agent_id;
  session_id = input.session_id;
  requester_id = input.requester_id;
  resource_type = input.resource_type;
  resource_key = input.resource_key;
  scope = or_else input.scope [];
  status = pending;
  resolution = none;
  resolved_by = none;
  reason = none;
  created_at = now;
  resolved_at = none;
  ttl_minutes = or_else input.ttl_minutes 60;
}

-- `create`: the record and the table with it.
unfoldable pub create :
    Text → ℕ → CreateInput → List ApprovalRequest → ApprovalRequest × List ApprovalRequest
create id now input rows = (new_row id now input, rows ++ new_row id now input ∷ [])

unfoldable pub get : Text → List ApprovalRequest → Option ApprovalRequest
get id rows = find (λ r. text_eq r.id id) rows

abbrev has_status : Option ApprovalStatus → ApprovalRequest → Bool
has_status none r = true
has_status (some s) r = status_eq r.status s

unfoldable pub list_requests :
    Text → Option ApprovalStatus → List ApprovalRequest → List ApprovalRequest
list_requests agent_id status rows =
    filter (λ r. text_eq r.agent_id agent_id && has_status status r) rows

abbrev is_persistent : Option ApprovalResolution → Bool
is_persistent (some persistent) = true
is_persistent _ = false

unfoldable pub is_expired : ℕ → ApprovalRequest → Bool
is_expired now r =
    if is_persistent r.resolution then false else ltb (r.created_at + r.ttl_minutes * 60000) now

-- The `where` clause of `findApproved`.
abbrev pub is_approved_for : Text → Text → Text → Text → ApprovalRequest → Bool
is_approved_for agent_id requester_id resource_type resource_key r =
    text_eq r.agent_id agent_id
    && (text_eq r.requester_id requester_id
        && (text_eq r.resource_type resource_type
            && (text_eq r.resource_key resource_key && status_eq r.status approved)))

-- `limit(1)`, and then the test of the one row.
unfoldable pub find_approved :
    ℕ → Text → Text → Text → Text → List ApprovalRequest → Option ApprovalRequest
unfolding is_expired
find_approved now agent_id requester_id resource_type resource_key rows = do
  r ← find (is_approved_for agent_id requester_id resource_type resource_key) rows
  if is_expired now r then none else some r

pub data Verdict : Type 0 where
  approve reject : Verdict

abbrev verdict_status : Verdict → ApprovalStatus
verdict_status approve = approved
verdict_status reject = rejected

-- `resolution ?? (decision === 'approved' ? 'once' : null)`
abbrev resolution_of : Verdict → Option ApprovalResolution → Option ApprovalResolution
resolution_of v (some r) = some r
resolution_of approve none = some once
resolution_of reject none = none

pub record Review : Type 0 where
  pub verdict : Verdict
  pub resolved_by : Text
  pub resolution : Option ApprovalResolution
  pub reason : Option Text

abbrev pub reviewed : ℕ → Review → ApprovalRequest → ApprovalRequest
reviewed now v r = record r {
  status = verdict_status v.verdict;
  resolved_by = some v.resolved_by;
  resolution = resolution_of v.verdict v.resolution;
  reason = v.reason;
  resolved_at = some now;
}

unfoldable pub update_rows :
    Text → (ApprovalRequest → ApprovalRequest) → List ApprovalRequest → List ApprovalRequest
update_rows id f [] = []
update_rows id f (r ∷ rows) =
    if text_eq r.id id then f r ∷ update_rows id f rows else r ∷ update_rows id f rows

-- `resolve`: `none` is the error that it throws when the id is not there.
unfoldable pub resolve :
    Text → ℕ → Review → List ApprovalRequest → Option ApprovalRequest × List ApprovalRequest
unfolding update_rows get
resolve id now v rows =
    let updated = update_rows id (reviewed now v) rows in (get id updated, updated)

-- `now > expiresAt`, whatever the resolution.
abbrev pub is_overdue : ℕ → ApprovalRequest → Bool
is_overdue now r = status_eq r.status pending && ltb (r.created_at + r.ttl_minutes * 60000) now

abbrev pub expire : ℕ → ApprovalRequest → ApprovalRequest
expire now r = record r { status = expired; resolved_at = some now }

-- `expireOld`: the number of rows that it expires, and the table.
unfoldable pub expire_old : ℕ → List ApprovalRequest → ℕ × List ApprovalRequest
expire_old now [] = (0, [])
expire_old now (r ∷ rows) =
    let (count, rest) = expire_old now rows in
    if is_overdue now r then (suc count, expire now r ∷ rest) else (count, r ∷ rest)

-- The fields of `ToolContext` that `checkApprovalOrRequest` reads.
pub record ApprovalContext : Type 0 where
  pub store : Option (List ApprovalRequest)
  pub agent_id : Option Text
  pub current_user_id : Option Text
  pub session_id : Option Text

pub data Gate : Type 0 where
  passes : Gate
  unconfigured : Gate
  required : ApprovalRequest → Gate

unfoldable pub request_input :
    Text → Option Text → Text → Text → Text → Option (List (Text × Text)) → CreateInput
request_input agent session user resource_type resource_key scope = record {
  agent_id = agent;
  session_id = or_else session (codes "unknown");
  requester_id = user;
  resource_type = resource_type;
  resource_key = resource_key;
  scope = scope;
  ttl_minutes = none;
}

-- The part behind the first guard.
unfoldable pub check_configured :
    Text
    → ℕ
    → ApprovalContext
    → List ApprovalRequest
    → Text
    → Text
    → Text
    → Text
    → Option (List (Text × Text))
    → Gate × ApprovalContext
unfolding request_input
check_configured id now ctx rows agent user resource_type resource_key scope =
    elim (find_approved now agent user resource_type resource_key rows) [
      | some r ↦ (passes, ctx)
      | none ↦
          let input = request_input agent ctx.session_id user resource_type resource_key scope in
          let (made, rows') = create id now input rows in
          (required made, record ctx { store = some rows' })
    ]

-- `checkApprovalOrRequest`: a return, the `ValidationError`, or the `ApprovalRequiredError`, and
-- the context with its store afterwards. `storeScope` is there when the agent's id is.
unfoldable pub check_approval_or_request :
    Text → ℕ → ApprovalContext → Text → Text → Option (List (Text × Text)) → Gate × ApprovalContext
unfolding check_configured
check_approval_or_request id now ctx resource_type resource_key scope = elim ctx.store [
  | none ↦ (unconfigured, ctx)
  | some rows ↦ elim ctx.agent_id [
    | none ↦ (unconfigured, ctx)
    | some agent ↦ elim ctx.current_user_id [
      | none ↦ (unconfigured, ctx)
      | some user ↦
          if truthy user
          then check_configured id now ctx rows agent user resource_type resource_key scope
          else (unconfigured, ctx)
    ]
  ]
]
