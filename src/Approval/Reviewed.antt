-- ===== src/Approval/Reviewed.antt =====
-- `resolve` and `expireOld` on the table of requests.
use mathlib.Core.Option
use openhermit.Prelude.{
  ℕ, Text, text_eq, text_eq_iff, false, List, [], ◌∷◌, filter, length, map, some_of, ◌≡◌, arith,
  refl, if◌then◌else◌,
}
use openhermit.Approval.{
  ApprovalRequest, Review, reviewed, update_rows, resolve, get, is_overdue, expire, expire_old,
}

-- A review does not change a request's id.
get-update_rows :
    (id j : Text) (now : ℕ) (v : Review) (rows : List ApprovalRequest)
    → get j (update_rows id (reviewed now v) rows)
      ≡ (if text_eq id j then Option.map (reviewed now v) (get j rows) else get j rows)
unfolding get update_rows
get-update_rows id j now v [] = ground arith
get-update_rows id j now v (r ∷ rows) = ground (
  arith,
  text_eq_iff id j,
  text_eq_iff r.id id,
  text_eq_iff r.id j,
  get-update_rows id j now v rows,
)

-- `resolve` records the decision on the request with the id, if there is one, and leaves every
-- other request as it was.
pub get-resolve :
    (id j : Text) (now : ℕ) (v : Review) (rows : List ApprovalRequest)
    → get j (resolve id now v rows).1
      ≡ (if text_eq id j then Option.map (reviewed now v) (get j rows) else get j rows)
unfolding resolve
get-resolve id j now v rows = get-update_rows id j now v rows

-- No pending request that the sweep leaves is past its time to live.
pub expire_old-none_overdue :
    (now : ℕ) (rows : List ApprovalRequest)
    → some_of (is_overdue now) (expire_old now rows).1 ≡ false
unfolding expire_old
expire_old-none_overdue now [] = refl
expire_old-none_overdue now (r ∷ rows) = ground (arith, expire_old-none_overdue now rows)

-- What the sweep does to one row.
abbrev pub swept : ℕ → ApprovalRequest → ApprovalRequest
swept now r = if is_overdue now r then expire now r else r

-- The sweep expires exactly the overdue requests, in place, and counts them.
pub expire_old-map :
    (now : ℕ) (rows : List ApprovalRequest)
    → (expire_old now rows ≡ (length (filter (is_overdue now) rows), map (swept now) rows))
unfolding expire_old
expire_old-map now [] = refl
expire_old-map now (r ∷ rows) = ground (arith, expire_old-map now rows)
