-- ===== src/Approval/Granted.antt =====
-- What an approved request that `findApproved` returns stands for.
use openhermit.Prelude.{
  ℕ, ◌+◌, ◌*◌, ◌≤◌, Text, text_eq_iff, true, false, Option, none, some, Bool-cases, List, ◌∷◌, find,
  find-In, In, ◌≡◌, refl, Bool, not, ◌&&◌, some_of, ◌⊎◌, inl, inr, arith, if◌then◌else◌, ◌>>=◌,
}
use openhermit.Approval.{
  ApprovalRequest, approved, persistent, is_expired, is_approved_for, find_approved,
}

-- The request was approved for this access, and it is persistent or its time has not run out.
pub record IsGranted (now : ℕ) (agent user type key : Text) (r : ApprovalRequest) : Type 0 where
  pub agent_id : r.agent_id ≡ agent
  pub requester_id : r.requester_id ≡ user
  pub resource_type : r.resource_type ≡ type
  pub resource_key : r.resource_key ≡ key
  pub status : r.status ≡ approved
  pub in_time : (r.resolution ≡ some persistent) ⊎ (now ≤ r.created_at + r.ttl_minutes * 60000)

is_expired-in_time :
    (now : ℕ) (r : ApprovalRequest)
    → is_expired now r ≡ false
    → (r.resolution ≡ some persistent) ⊎ (now ≤ r.created_at + r.ttl_minutes * 60000)
unfolding is_expired
is_expired-in_time now r h = ground arith

is_approved_for-fields :
    (now : ℕ) (agent user type key : Text) (r : ApprovalRequest)
    → is_approved_for agent user type key r ≡ true
    → is_expired now r ≡ false
    → IsGranted now agent user type key r
is_approved_for-fields now agent user type key r h e = record {
  agent_id = ground (arith, text_eq_iff r.agent_id agent);
  requester_id = ground (arith, text_eq_iff r.requester_id user);
  resource_type = ground (arith, text_eq_iff r.resource_type type);
  resource_key = ground (arith, text_eq_iff r.resource_key key);
  status = ground arith;
  in_time = is_expired-in_time now r e;
}

-- The row that the query found, and the test of its time.
find_approved-row :
    (now : ℕ) (agent user type key : Text) (rows : List ApprovalRequest) (r : ApprovalRequest)
    → find_approved now agent user type key rows ≡ some r
    → (find (is_approved_for agent user type key) rows ≡ some r) × (is_expired now r ≡ false)
unfolding find_approved
find_approved-row now agent user type key rows r h =
    go (find (is_approved_for agent user type key) rows) h
  where
    go :
        (o : Option ApprovalRequest)
        → (o >>= λ x. if is_expired now x then none else some x) ≡ some r
        → (o ≡ some r) × (is_expired now r ≡ false)
    go none e = absurd (cc e)
    go (some x) e = elim (Bool-cases (is_expired now x)) [
      | inl late ↦ absurd (ground (arith, e, late))
      | inr in_time ↦
          let same : x ≡ r = ground (arith, e, in_time) in (cc same, rw (← same) in_time)
    ]

-- A request that `findApproved` returns stands in the table, was approved for exactly this agent,
-- requester and resource, and is persistent or not past its time to live.
pub find_approved-IsGranted :
    (now : ℕ) (agent user type key : Text) (rows : List ApprovalRequest) (r : ApprovalRequest)
    → find_approved now agent user type key rows ≡ some r
    → In r rows × IsGranted now agent user type key r
find_approved-IsGranted now agent user type key rows r h =
    let (found, in_time) = find_approved-row now agent user type key rows r h in
    let (stands, fits) = find-In (is_approved_for agent user type key) rows r found in
    (stands, is_approved_for-fields now agent user type key r fits in_time)

-- An approved request that is not expired.
abbrev pub is_valid : ℕ → Text → Text → Text → Text → ApprovalRequest → Bool
is_valid now agent user type key r = is_approved_for agent user type key r && not (is_expired now r)

-- Only the first approved row of the table is looked at: where the first row is approved for the access
-- and has expired, no approval is found, though a row after it is approved for the access and valid.
pub find_approved-masked :
    (now : ℕ) (agent user type key : Text) (r : ApprovalRequest) (rows : List ApprovalRequest)
    → is_approved_for agent user type key r ≡ true
    → is_expired now r ≡ true
    → some_of (is_valid now agent user type key) rows ≡ true
    → (find_approved now agent user type key (r ∷ rows) ≡ none)
      × (some_of (is_valid now agent user type key) (r ∷ rows) ≡ true)
unfolding find_approved
find_approved-masked now agent user type key r rows fits late valid =
    (rw (fits, late) refl, rw (fits, late) valid)
