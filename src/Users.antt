-- ===== src/Users.antt =====
-- packages/store/src/impl/user-store.ts: users, their identities on channels and their roles on
-- agents. A table with a key is a map in the order of its rows, and has no other constraint; of the
-- events of sessions only the user that each names is kept. Instants are milliseconds.
pub mod Merged
pub mod Linked
use mathlib.Core.Option
use openhermit.Prelude.{
  ℕ, Text, text_eq, text_eq_iff, text_keys, Eq, Bool, true, false, not, ◌&&◌, Option, none, some,
  is_some, or_else, List, [], ◌∷◌, ◌++◌, lookup, insert, erase, filter, some_of, map, if◌then◌else◌,
  ◌>>=◌, ◌≡◌, ◌↔◌, ap, arith,
}
use openhermit.Policy.{UserRole}

pub record UserRecord : Type 0 where
  pub name : Option Text
  pub merged_into : Option Text
  pub created_at : ℕ
  pub updated_at : ℕ

pub record IdentityRow : Type 0 where
  pub user_id : Text
  pub created_at : ℕ

pub record RoleRow : Type 0 where
  pub role : UserRole
  pub created_at : ℕ

-- A key of two columns: channel and channel user, or user and agent.
abbrev pub Pair : Type 0
Pair = Text × Text

abbrev pub pair_eq : Pair → Pair → Bool
pair_eq (a, b) (c, d) = text_eq a c && text_eq b d

pub pair_eq_iff : (p q : Pair) → (pair_eq p q ≡ true) ↔ (p ≡ q)
pair_eq_iff (a, b) (c, d) = (
  λ h. ground (arith, text_eq_iff a c, text_eq_iff b d, h),
  λ e.
      let first = (text_eq_iff a c).1 (ap (λ (p : Pair). p.0) e) in
      let second = (text_eq_iff b d).1 (ap (λ (p : Pair). p.1) e) in ground (arith, first, second),
)

abbrev pub pair_keys : Eq Pair
pair_keys = record { beq = pair_eq; beq_iff = pair_eq_iff }

pub record UserStore : Type 0 where
  pub users : List (Text × UserRecord)
  pub identities : List (Pair × IdentityRow)
  pub user_agents : List (Pair × RoleRow)
  pub events : List (Option Text)

-- `isNull(users.mergedInto)`
abbrev pub unmerged_at : Option Text → UserRecord → Option UserRecord
unmerged_at none u = some u
unmerged_at (some _) u = none

abbrev pub unmerged : UserRecord → Option UserRecord
unmerged u = unmerged_at u.merged_into u

abbrev updated : Option UserRecord → UserRecord → UserRecord
updated none user = user
updated (some old) user = record user { created_at = old.created_at }

unfoldable pub upsert : Text → UserRecord → UserStore → UserStore
upsert id user store = record store {
  users = insert text_keys id (updated (lookup text_keys id store.users) user) store.users;
}

unfoldable pub get : Text → UserStore → Option UserRecord
get id store = lookup text_keys id store.users >>= unmerged

-- The user of an identity row, through the join with the users.
abbrev pub joined : Text → UserRecord → Text
joined id u = or_else u.merged_into id

unfoldable pub resolve : Text → Text → UserStore → Option Text
resolve channel channel_user_id store =
    lookup pair_keys (channel, channel_user_id) store.identities >>= λ i.
    Option.map (joined i.user_id) (lookup text_keys i.user_id store.users)

-- `update session_events set user_id = into where user_id = from`
abbrev pub moved_event : Text → Text → Option Text → Option Text
moved_event from into none = none
moved_event from into (some u) = if text_eq u from then some into else some u

-- `count(*) > 0` of the identities of a user
unfoldable pub has_identity : Text → List (Pair × IdentityRow) → Bool
has_identity user identities = some_of (λ i. text_eq i.1.user_id user) identities

unfoldable pub cleanup_orphaned_user : Text → Text → UserStore → UserStore
cleanup_orphaned_user orphan new store =
    if has_identity orphan store.identities then store else record store {
      events = map (moved_event orphan new) store.events;
      users = erase text_keys orphan store.users;
    }

-- The user that an identity had, if it is another one.
abbrev pub left_behind : Option IdentityRow → Text → Option Text
left_behind none new = none
left_behind (some row) new = if text_eq row.user_id new then none else some row.user_id

abbrev pub relinked : Option IdentityRow → Text → ℕ → IdentityRow
relinked none user created_at = record { user_id = user; created_at = created_at }
relinked (some row) user created_at = record row { user_id = user }

abbrev pub cleanup : Option Text → Text → UserStore → UserStore
cleanup none new store = store
cleanup (some orphan) new store = cleanup_orphaned_user orphan new store

unfoldable pub link_identity : Text → Text → Text → ℕ → UserStore → UserStore
link_identity user channel channel_user_id created_at store =
    let previous = lookup pair_keys (channel, channel_user_id) store.identities in
    cleanup (left_behind previous user) user (record store {
      identities =
          insert pair_keys (channel, channel_user_id) (relinked previous user created_at)
            store.identities;
    })

unfoldable pub unlink_identity : Text → Text → UserStore → UserStore
unlink_identity channel channel_user_id store = record store {
  identities = erase pair_keys (channel, channel_user_id) store.identities;
}

-- `update user_identities set user_id = into where user_id = from`
unfoldable pub move_identities : Text → Text → List (Pair × IdentityRow) → List (Pair × IdentityRow)
move_identities from into [] = []
move_identities from into ((k, i) ∷ m) =
    (k, (if text_eq i.user_id from then record i { user_id = into } else i))
    ∷ move_identities from into m

-- One round of the loop over the roles of the user that is merged.
abbrev pub move_agent : Text → Pair × RoleRow → List (Pair × RoleRow) → List (Pair × RoleRow)
move_agent into ((user, agent), row) m =
    if is_some (lookup pair_keys (into, agent) m) then m else insert pair_keys (into, agent) row m

unfoldable pub move_agents :
    Text → Text → List (Pair × RoleRow) → List (Pair × RoleRow) → List (Pair × RoleRow)
move_agents from into [] m = m
move_agents from into (((user, agent), row) ∷ rows) m =
    move_agents from into rows
      (if text_eq user from then move_agent into ((user, agent), row) m else m)

-- `delete from user_agents where user_id = from`
unfoldable pub drop_agents : Text → List (Pair × RoleRow) → List (Pair × RoleRow)
drop_agents from [] = []
drop_agents from (((user, agent), row) ∷ m) =
    let rest = drop_agents from m in if text_eq user from then rest else ((user, agent), row) ∷ rest

unfoldable pub merge : Text → Text → UserStore → UserStore
merge from into store = record {
  users = erase text_keys from store.users;
  identities = move_identities from into store.identities;
  user_agents = drop_agents from (move_agents from into store.user_agents store.user_agents);
  events = map (moved_event from into) store.events;
}

unfoldable pub delete : Text → UserStore → UserStore
delete id store = record store { users = erase text_keys id store.users }

abbrev pub with_role : Option RoleRow → UserRole → ℕ → RoleRow
with_role none role created_at = record { role = role; created_at = created_at }
with_role (some row) role created_at = record row { role = role }

unfoldable pub assign_agent : Text → Text → UserRole → ℕ → UserStore → UserStore
assign_agent agent user role created_at store = record store {
  user_agents =
      insert pair_keys (user, agent)
        (with_role (lookup pair_keys (user, agent) store.user_agents) role created_at)
        store.user_agents;
}

unfoldable pub remove_agent : Text → Text → UserStore → UserStore
remove_agent agent user store = record store {
  user_agents = erase pair_keys (user, agent) store.user_agents;
}

unfoldable pub get_agent_role : Text → Text → UserStore → Option UserRole
get_agent_role agent user store =
    Option.map (λ row. row.role) (lookup pair_keys (user, agent) store.user_agents)
