-- ===== src/Admission/Roles.antt =====
-- Whose session it is, and with which role.
use mathlib.Core.Option
use openhermit.Prelude.{
  ℕ, Text, codes, text_eq, true, false, not, ◌&&◌, Bool-cases, Option, none, some, is_some,
  text_eq_refl, List, lookup, insert, lookup-insert, ◌≡◌, ◌⊎◌, inl, inr, refl, ap, subst, ◌∙◌,
  arith,
}
use openhermit.Policy.{UserRole, owner, guest}
use openhermit.Auth.{present}
use openhermit.Sessions.{PersistedSession, idle}
use openhermit.Users.{
  UserRecord, UserStore, RoleRow, Pair, with_role, pair_keys, get, resolve, assign_agent,
  get_agent_role, cleanup, cleanup_orphaned_user, link_identity,
}
use openhermit.Admission.{
  AccessLevel, is_public, SessionSpec, Caller, SessionUser, RunnerSession, admit_unknown,
  admit_known, by_record, by_identity, by_caller, by_schedule, meta, own_channel, create_guest,
  resolve_sender, derive_channel_user_id, schedule_user, resolve_session_user, may_open, reopen,
  reopened_spec,
}

role_written :
    (o : Option RoleRow) (k : Pair) (role : UserRole) (now : ℕ) (m : List (Pair × RoleRow))
    → Option.map
        (λ row. row.role)
        (lookup pair_keys k (insert pair_keys k (with_role o role now) m))
      ≡ some role
role_written none k role now m = ground (
  arith,
  lookup-insert pair_keys k k (with_role none role now) m,
  text_eq_refl k.0,
  text_eq_refl k.1,
)
role_written (some row) k role now m = ground (
  arith,
  lookup-insert pair_keys k k (with_role (some row) role now) m,
  text_eq_refl k.0,
  text_eq_refl k.1,
)

get_agent_role-assign_agent :
    (agent user : Text) (role : UserRole) (now : ℕ) (store : UserStore)
    → get_agent_role agent user (assign_agent agent user role now store) ≡ some role
unfolding get_agent_role assign_agent
get_agent_role-assign_agent agent user role now store =
    role_written (lookup pair_keys (user, agent) store.user_agents) (user, agent) role now
      store.user_agents

cleanup-user_agents :
    (o : Option Text) (new : Text) (store : UserStore)
    → (cleanup o new store).user_agents ≡ store.user_agents
unfolding cleanup_orphaned_user
cleanup-user_agents none new store = refl
cleanup-user_agents (some orphan) new store = ground arith

get_agent_role-link_identity :
    (agent user id channel channel_user_id : Text) (now : ℕ) (store : UserStore)
    → get_agent_role agent id (link_identity user channel channel_user_id now store)
      ≡ get_agent_role agent id store
unfolding get_agent_role link_identity
get_agent_role-link_identity agent user id channel channel_user_id now store =
    ap (λ m. Option.map (λ row. row.role) (lookup pair_keys (id, agent) m))
      (cleanup-user_agents _ user _)

get_agent_role-create_guest :
    (agent guest_id : Text) (name : Option Text) (c : Caller) (now : ℕ) (store : UserStore)
    → get_agent_role agent guest_id (create_guest agent guest_id name c now store) ≡ some guest
unfolding create_guest
get_agent_role-create_guest agent guest_id name c now store =
    get_agent_role-link_identity agent guest_id guest_id c.channel c.channel_user_id now _
    ∙ get_agent_role-assign_agent agent guest_id guest now _

present-some : (o : Option Text) (u : Text) → present o ≡ some u → o ≡ some u
present-some none u h = absurd (cc h)
present-some (some v) u h = ground (arith, h)

-- Whose session it is to be: the caller, or, where a session is opened by no caller, the sender on
-- the channel of its source, by the identity that its source and its metadata give.
abbrev pub IsSender : Option Text → SessionSpec → Option Caller → Caller → Type 0
IsSender os_user spec (some d) c = c ≡ d
IsSender os_user spec none c =
    (c.channel ≡ own_channel spec) × (derive_channel_user_id os_user spec ≡ some c.channel_user_id)

module _ (agent_id : Text) (level : AccessLevel) (guest_id : Text) (now : ℕ) where
  -- The user is the one of the identity, or a new guest of a public agent; the role that is given is
  -- the one that the agent's rows have afterwards; and where the agent is not public nothing is
  -- written.
  pub record IsAdmitted (c : Caller) (store : UserStore) (id : Text) (r : SessionUser × UserStore)
      : Type 0 where
    pub known :
        (resolve c.channel c.channel_user_id store ≡ some id)
        ⊎ ((id ≡ guest_id) × (is_public level ≡ true) × (r.0.role ≡ some guest))
    pub recorded : get_agent_role agent_id id r.1 ≡ r.0.role
    pub closed : is_public level ≡ false → r.1 ≡ store
    pub no_more : (get_agent_role agent_id id store ≡ r.0.role) ⊎ (r.0.role ≡ some guest)

  admit_unknown-IsAdmitted :
      (spec : SessionSpec) (caller : Option Caller) (c : Caller) (store : UserStore) (id : Text)
      → (admit_unknown agent_id level guest_id now spec caller c store).0.user_id ≡ some id
      → IsAdmitted c store id (admit_unknown agent_id level guest_id now spec caller c store)
  admit_unknown-IsAdmitted spec caller c store id h =
      elim (Bool-cases (is_some caller && not (text_eq c.channel (own_channel spec)))) [
        | inl away ↦ absurd (ground (arith, away, h))
        | inr here ↦ elim (Bool-cases (is_public level)) [
          | inr closed ↦ absurd (ground (arith, here, closed, h))
          | inl open' ↦
              let same : id ≡ guest_id = ground (arith, here, open', h) in
              rw (here, open')
                (record {
                  known = inr (same, open', refl);
                  recorded = rw same (get_agent_role-create_guest agent_id guest_id _ c now store);
                  closed = λ e. absurd (cc (e, open'));
                  no_more = inr refl;
                })
        ]
      ]

  admit_known-IsAdmitted :
      (id' : Text) (user : UserRecord) (o : Option UserRole) (c : Caller) (store : UserStore)
      (id : Text)
      → get_agent_role agent_id id' store ≡ o
      → resolve c.channel c.channel_user_id store ≡ some id'
      → (admit_known agent_id level guest_id now id' user o c store).0.user_id ≡ some id
      → IsAdmitted c store id (admit_known agent_id level guest_id now id' user o c store)
  admit_known-IsAdmitted id' user (some r) c store id has found h =
      let same : id' ≡ id = ground (arith, h) in
      record {
        known = inl (subst (λ x. resolve c.channel c.channel_user_id store ≡ some x) same found);
        recorded = subst (λ x. get_agent_role agent_id x store ≡ some r) same has;
        closed = λ e. refl;
        no_more = inl (subst (λ x. get_agent_role agent_id x store ≡ some r) same has);
      }
  admit_known-IsAdmitted id' user none c store id has found h =
      elim (Bool-cases (is_public level)) [
        | inr closed ↦ absurd (ground (arith, closed, h))
        | inl open' ↦
            let same : id' ≡ id = ground (arith, open', h) in
            rw open' (record {
              known =
                  inl (subst (λ x. resolve c.channel c.channel_user_id store ≡ some x) same found);
              recorded = rw (← same) (get_agent_role-assign_agent agent_id id' guest now store);
              closed = λ e. absurd (cc (e, open'));
              no_more = inr refl;
            })
      ]

  by_record-IsAdmitted :
      (spec : SessionSpec) (caller : Option Caller) (c : Caller) (id' : Text)
      (o : Option UserRecord) (store : UserStore) (id : Text)
      → resolve c.channel c.channel_user_id store ≡ some id'
      → (by_record agent_id level guest_id now spec caller c id' o store).0.user_id ≡ some id
      → IsAdmitted c store id (by_record agent_id level guest_id now spec caller c id' o store)
  by_record-IsAdmitted spec caller c id' none store id found h =
      admit_unknown-IsAdmitted spec caller c store id h
  by_record-IsAdmitted spec caller c id' (some user) store id found h =
      admit_known-IsAdmitted id' user (get_agent_role agent_id id' store) c store id refl found h

  by_identity-IsAdmitted :
      (spec : SessionSpec) (caller : Option Caller) (c : Caller) (o : Option Text)
      (store : UserStore) (id : Text)
      → present (resolve c.channel c.channel_user_id store) ≡ o
      → (by_identity agent_id level guest_id now spec caller c o store).0.user_id ≡ some id
      → IsAdmitted c store id (by_identity agent_id level guest_id now spec caller c o store)
  by_identity-IsAdmitted spec caller c none store id e h =
      admit_unknown-IsAdmitted spec caller c store id h
  by_identity-IsAdmitted spec caller c (some id') store id e h =
      by_record-IsAdmitted spec caller c id' (get id' store) store id
        (present-some (resolve c.channel c.channel_user_id store) id' e) h

  by_caller-IsAdmitted :
      (spec : SessionSpec) (caller : Option Caller) (channel : Text) (o : Option Text)
      (store : UserStore) (id : Text)
      → (by_caller agent_id level guest_id now spec caller channel o store).0.user_id ≡ some id
      → (u : Text) × (o ≡ some u)
        × IsAdmitted
            (record { channel = channel; channel_user_id = u })
            store
            id
            (by_caller agent_id level guest_id now spec caller channel o store)
  by_caller-IsAdmitted spec caller channel none store id h = absurd (cc h)
  by_caller-IsAdmitted spec caller channel (some u) store id h =
      let sender : Caller = record { channel = channel; channel_user_id = u } in
      (
        u,
        refl,
        by_identity-IsAdmitted spec caller sender (present (resolve channel u store)) store id refl
            h,
      )

  resolve_sender-IsAdmitted :
      (os_user : Option Text) (spec : SessionSpec) (caller : Option Caller) (store : UserStore)
      (id : Text)
      → (resolve_sender agent_id level guest_id now os_user spec caller store).0.user_id ≡ some id
      → (c : Caller) × IsSender os_user spec caller c
        × IsAdmitted c store id
            (resolve_sender agent_id level guest_id now os_user spec caller store)
  unfolding resolve_sender
  resolve_sender-IsAdmitted os_user spec none store id h =
      let (u, found, admitted) =
        by_caller-IsAdmitted spec none (own_channel spec)
          (present (derive_channel_user_id os_user spec)) store id h in
      (
        record { channel = own_channel spec; channel_user_id = u },
        (refl, present-some (derive_channel_user_id os_user spec) u found),
        admitted,
      )
  resolve_sender-IsAdmitted os_user spec (some c) store id h =
      let (u, found, admitted) =
        by_caller-IsAdmitted spec (some c) c.channel (present (some c.channel_user_id)) store id
          h in
      let same : u ≡ c.channel_user_id = ground (arith, found) in
      (
        record { channel = c.channel; channel_user_id = u },
        (λ i. record { channel = c.channel; channel_user_id = same i }),
        admitted,
      )

  by_schedule-IsAdmitted :
      (os_user : Option Text) (spec : SessionSpec) (caller : Option Caller) (o : Option Text)
      (store : UserStore) (id : Text)
      → o ≡ none
      → (by_schedule agent_id level guest_id now os_user spec caller o store).0.user_id ≡ some id
      → (c : Caller) × IsSender os_user spec caller c
        × IsAdmitted c store id
            (by_schedule agent_id level guest_id now os_user spec caller o store)
  by_schedule-IsAdmitted os_user spec caller none store id e h =
      resolve_sender-IsAdmitted os_user spec caller store id h
  by_schedule-IsAdmitted os_user spec caller (some s) store id e h = absurd (cc e)

-- A session that names no schedule's user is for the user to whom its sender's identity resolves, or on
-- a public agent for a new guest. The sender is the caller; where there is none, it is that of the
-- channel of the session's source, with the identity that its source and its metadata give. The role is
-- the one that the agent's rows have afterwards, and it is that of before or a guest's. Where the agent
-- is not public, no row is written.
pub resolve_session_user-IsAdmitted :
    (agent_id : Text) (level : AccessLevel) (guest_id : Text) (now : ℕ) (os_user : Option Text)
    (spec : SessionSpec) (caller : Option Caller) (store : UserStore) (id : Text)
    → schedule_user spec ≡ none
    → (resolve_session_user agent_id level guest_id now os_user spec caller store).0.user_id
      ≡ some id
    → (c : Caller) × IsSender os_user spec caller c
      × IsAdmitted agent_id level guest_id now c store id
          (resolve_session_user agent_id level guest_id now os_user spec caller store)
unfolding resolve_session_user
resolve_session_user-IsAdmitted agent_id level guest_id now os_user spec caller store id plain h =
    by_schedule-IsAdmitted agent_id level guest_id now os_user spec caller _ store id plain h

-- Any caller who asks for a new session of the kind `schedule` and names an owner of the agent in its
-- metadata is taken for the owner, and is let in on any access level.
pub resolve_session_user-schedule :
    (agent_id : Text) (level : AccessLevel) (guest_id : Text) (now : ℕ) (os_user : Option Text)
    (spec : SessionSpec) (caller : Option Caller) (store : UserStore) (id : Text)
    (user : UserRecord)
    → text_eq spec.kind (codes "schedule") ≡ true
    → meta (codes "schedule_user_id") spec ≡ some id
    → get id store ≡ some user
    → get_agent_role agent_id id store ≡ some owner
    → let found = (resolve_session_user agent_id level guest_id now os_user spec caller store).0 in
      (found.user_id ≡ some id) × (found.role ≡ some owner) × (may_open level none found ≡ true)
unfolding resolve_session_user may_open
resolve_session_user-schedule agent_id level guest_id now os_user spec caller store id user is names
      there owns =
    rw (is, names, there, owns) (refl, refl, refl)

-- A caller who is no user may open a session that is in memory on any access level, though the
-- session could not be opened from the store unless the agent is public; and of any caller, one who
-- is refused included, the session takes on the metadata and becomes idle.
pub reopen-nobody :
    (resolve_user : SessionSpec → UserStore → SessionUser × UserStore) (spec : SessionSpec)
    (s : RunnerSession) (store : UserStore) (level : AccessLevel)
    (persisted : Option PersistedSession)
    → ((resolve_user (reopened_spec s.spec spec) store).0.user_id ≡ none
        → ((reopen resolve_user spec s store).0 ≡ true)
          × (is_public level ≡ false
              → may_open level persisted (resolve_user (reopened_spec s.spec spec) store).0
                ≡ false))
      × ((reopen resolve_user spec s store).1.spec ≡ reopened_spec s.spec spec)
      × ((reopen resolve_user spec s store).1.status ≡ idle)
unfolding reopen may_open
reopen-nobody resolve_user spec s store level persisted = (
  λ unknown. (ground (arith, unknown), λ closed. ground (arith, unknown, closed)),
  ground arith,
  ground arith,
)
