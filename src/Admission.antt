-- ===== src/Admission.antt =====
-- `resolveSessionUser` of apps/agent/src/agent-runner.ts: the user for whom a session is opened, and
-- the checks of `openSession` by it. A metadata value is its text, `String(value)`. The id of a new
-- guest, the name of the user of the operating system and the clock are arguments.
pub mod Roles
use openhermit.Prelude.{
  ℕ, Text, codes, text_eq, text_keys, truthy, Bool, true, false, not, ◌&&◌, ◌||◌, Option, none,
  some, is_some, or_else, List, [], ◌∷◌, lookup, insert, some_of, if◌then◌else◌,
}
use openhermit.Policy.{UserRole, owner, guest}
use openhermit.Auth.{present}
use openhermit.Sessions.{SessionStatus, idle, PersistedSession}
use openhermit.Users.{
  UserRecord, UserStore, get, resolve, upsert, assign_agent, get_agent_role, link_identity,
}

pub data AccessLevel : Type 0 where
  open_to_all protected_level private_level : AccessLevel

abbrev pub is_public : AccessLevel → Bool
is_public open_to_all = true
is_public _ = false

pub record SessionSpec : Type 0 where
  pub session_id : Text
  pub kind : Text
  pub platform : Option Text
  pub is_group : Bool
  pub metadata : List (Text × Text)

pub record Caller : Type 0 where
  pub channel : Text
  pub channel_user_id : Text

-- What `resolveSessionUser` returns; no user stands for `{}`.
pub record SessionUser : Type 0 where
  pub user_id : Option Text
  pub role : Option UserRole
  pub user_name : Option Text
  pub caller_info : Option Caller

abbrev pub nobody : SessionUser
nobody = record { user_id = none; role = none; user_name = none; caller_info = none }

abbrev pub named : Text → UserRole → Option Text → Option Caller → SessionUser
named id user_role name info = record {
  user_id = some id;
  role = some user_role;
  user_name = present name;
  caller_info = info;
}

-- A value of the metadata that is not empty.
abbrev pub meta : Text → SessionSpec → Option Text
meta key spec = present (lookup text_keys key spec.metadata)

abbrev first_of : Option Text → Option Text → Option Text
first_of none v = v
first_of (some u) v = some u

abbrev pub own_channel : SessionSpec → Text
own_channel spec = or_else spec.platform spec.kind

abbrev telegram_id : SessionSpec → Option Text
telegram_id spec =
    if text_eq (or_else spec.platform []) (codes "telegram")
    then first_of (meta (codes "telegram_user_id") spec)
        (first_of (meta (codes "telegram_chat_id") spec) (meta (codes "telegram_username") spec))
    else none

-- No name stands for a `userInfo` that throws.
unfoldable pub derive_channel_user_id : Option Text → SessionSpec → Option Text
derive_channel_user_id os_user spec =
    if spec.is_group
    then none
    else first_of (telegram_id spec) (if text_eq spec.kind (codes "cli") then os_user else none)

abbrev pub guest_name : SessionSpec → Caller → Option Text
guest_name spec c = first_of (meta (codes "telegram_first_name") spec) (
    first_of (meta (codes "telegram_username") spec)
      (if text_eq c.channel (codes "cli") then some c.channel_user_id else none))

-- The new user, the role and the identity, in that order.
unfoldable pub create_guest : Text → Text → Option Text → Caller → ℕ → UserStore → UserStore
create_guest agent_id guest_id name c now store =
    link_identity guest_id c.channel c.channel_user_id now (
      assign_agent agent_id guest_id guest now (
        upsert guest_id
          (record { name = name; merged_into = none; created_at = now; updated_at = now }) store))

abbrev pub schedule_user : SessionSpec → Option Text
schedule_user spec =
    if text_eq spec.kind (codes "schedule") then meta (codes "schedule_user_id") spec else none

module _ (agent_id : Text) (level : AccessLevel) (guest_id : Text) (now : ℕ) where
  -- A sender that is not known.
  abbrev pub admit_unknown :
      SessionSpec → Option Caller → Caller → UserStore → SessionUser × UserStore
  admit_unknown spec caller c store =
      if is_some caller && not (text_eq c.channel (own_channel spec))
      then (nobody, store)
      else if not (is_public level)
      then (nobody, store)
      else (
        named guest_id guest (guest_name spec c) (some c),
        create_guest agent_id guest_id (present (guest_name spec c)) c now store,
      )

  -- A user that is known, with the role on this agent.
  abbrev pub admit_known :
      Text → UserRecord → Option UserRole → Caller → UserStore → SessionUser × UserStore
  admit_known id user (some explicit_role) c store =
      (named id explicit_role user.name (some c), store)
  admit_known id user none c store =
      if not (is_public level)
      then (nobody, store)
      else (named id guest user.name (some c), assign_agent agent_id id guest now store)

  abbrev pub by_record :
      SessionSpec
      → Option Caller
      → Caller
      → Text
      → Option UserRecord
      → UserStore
      → SessionUser × UserStore
  by_record spec caller c id none store = admit_unknown spec caller c store
  by_record spec caller c id (some user) store =
      admit_known id user (get_agent_role agent_id id store) c store

  abbrev pub by_identity :
      SessionSpec → Option Caller → Caller → Option Text → UserStore → SessionUser × UserStore
  by_identity spec caller c none store = admit_unknown spec caller c store
  by_identity spec caller c (some id) store = by_record spec caller c id (get id store) store

  abbrev pub by_caller :
      SessionSpec → Option Caller → Text → Option Text → UserStore → SessionUser × UserStore
  by_caller spec caller channel none store = (nobody, store)
  by_caller spec caller channel (some channel_user_id) store =
      by_identity spec caller (record { channel = channel; channel_user_id = channel_user_id })
        (present (resolve channel channel_user_id store)) store

  -- `caller?.channel ?? …` and `caller?.channelUserId ?? …`
  unfoldable pub resolve_sender :
      Option Text → SessionSpec → Option Caller → UserStore → SessionUser × UserStore
  unfolding derive_channel_user_id
  resolve_sender os_user spec none store =
      by_caller spec none (own_channel spec) (present (derive_channel_user_id os_user spec)) store
  resolve_sender os_user spec (some c) store =
      by_caller spec (some c) c.channel (present (some c.channel_user_id)) store

  -- The user that the metadata of a schedule's session names, where there is such a user.
  abbrev pub by_schedule_user :
      Option Text
      → SessionSpec
      → Option Caller
      → Text
      → Option UserRecord
      → UserStore
      → SessionUser × UserStore
  by_schedule_user os_user spec caller id none store = resolve_sender os_user spec caller store
  by_schedule_user os_user spec caller id (some user) store =
      (named id (or_else (get_agent_role agent_id id store) guest) user.name none, store)

  abbrev pub by_schedule :
      Option Text → SessionSpec → Option Caller → Option Text → UserStore → SessionUser × UserStore
  by_schedule os_user spec caller none store = resolve_sender os_user spec caller store
  by_schedule os_user spec caller (some id) store =
      by_schedule_user os_user spec caller id (get id store) store

  unfoldable pub resolve_session_user :
      Option Text → SessionSpec → Option Caller → UserStore → SessionUser × UserStore
  unfolding resolve_sender
  resolve_session_user os_user spec caller store =
      by_schedule os_user spec caller (schedule_user spec) store

-- A session in memory.
pub record RunnerSession : Type 0 where
  pub spec : SessionSpec
  pub status : SessionStatus
  pub user_ids : List Text
  pub resolved : SessionUser

unfoldable pub merge_metadata : List (Text × Text) → List (Text × Text) → List (Text × Text)
merge_metadata old [] = old
merge_metadata old ((key, value) ∷ new) = merge_metadata (insert text_keys key value old) new

abbrev pub is_owner : Option UserRole → Bool
is_owner (some owner) = true
is_owner _ = false

abbrev pub takes_part : Option Text → List Text → Bool
takes_part none ids = false
takes_part (some id) ids = some_of (λ u. text_eq u id) ids

-- The check of a session that is there: it throws where the user is known, no participant and not
-- the owner.
abbrev pub may_reopen : SessionUser → List Text → Bool
may_reopen u ids = not (is_some u.user_id) || (takes_part u.user_id ids || is_owner u.role)

abbrev pub reopened_spec : SessionSpec → SessionSpec → SessionSpec
reopened_spec old spec = record spec {
  kind = old.kind;
  platform = old.platform;
  is_group = old.is_group;
  metadata = merge_metadata old.metadata spec.metadata;
}

abbrev pub re_resolved : SessionUser → SessionUser → SessionUser
re_resolved old u = record {
  user_id = first_of u.user_id old.user_id;
  role = elim u.role [ none ↦ old.role | some r ↦ some r ];
  user_name = first_of u.user_name old.user_name;
  caller_info = elim u.caller_info [ none ↦ old.caller_info | some c ↦ some c ];
}

-- `openSession` of a session in memory, up to its `persistSessionIndex`: whether it is granted, the
-- session and the users after it. The session is changed before the check.
unfoldable pub reopen :
    (SessionSpec → UserStore → SessionUser × UserStore)
    → SessionSpec
    → RunnerSession
    → UserStore
    → Bool × RunnerSession × UserStore
reopen resolve_user spec s store =
    let merged = reopened_spec s.spec spec in
    let touched : RunnerSession = record s { spec = merged; status = idle } in
    let found = resolve_user merged store in
    if may_reopen found.0 s.user_ids
    then (true, record touched { resolved = re_resolved s.resolved found.0 }, found.1)
    else (false, touched, found.1)

abbrev pub persisted_admits : Option PersistedSession → SessionUser → Bool
persisted_admits none u = true
persisted_admits (some row) u = may_reopen u row.user_ids

-- The two checks of `openSession` for a session that is not in memory.
unfoldable pub may_open : AccessLevel → Option PersistedSession → SessionUser → Bool
may_open level persisted u = persisted_admits persisted u && (is_some u.user_id || is_public level)
