-- ===== src/Sockets/Guarded.antt =====
-- Which requests reach a session.
use openhermit.Prelude.{
  Text, text_eq, text_eq_iff, Bool, true, Bool-cases, Option-cases, Option, none, some, or_else,
  List, [], ◌∷◌, find-In, some_of, In, ◌≡◌, ◌⊎◌, ◌≢◌, inl, inr, refl, sym, subst, arith,
}
use openhermit.Policy.{UserRole, owner}
use openhermit.Auth.{AuthContext, AuthMode, admin, user, channel, present}
use openhermit.Sessions.{PersistedSession}
use openhermit.Users.{UserStore, resolve, get_agent_role}
use openhermit.Sockets.{
  SessionMessage, Method, session_open, session_message, session_approve, session_checkpoint,
  session_list, session_history, session_delete, session_subscribe, session_unsubscribe,
  unknown_method, Params, CheckpointReason, Action, opens, posts, approves, checkpoints, lists,
  reads_history, deletes, subscribes, unsubscribes, fails, get_session, has_user, is_owner,
  is_admin, check_user, verify_session_access, require_session_access, post, approve, checkpoint,
  open_with, with_session, dispatch, handle_request,
}

-- The session that an action reads or changes, or listens to.
abbrev pub session_of : Action → Option Text
session_of (posts s text) = some s
session_of (approves s id b) = some s
session_of (checkpoints s reason) = some s
session_of (reads_history s caller) = some s
session_of (deletes s caller) = some s
session_of (subscribes s after) = some s
session_of (opens s caller) = none
session_of (lists auth query) = none
session_of (unsubscribes s) = none
session_of (fails code) = none

-- The caller is an administrator, or resolves to a user who owns the agent or takes part in a stored
-- session of that id.
abbrev pub MayReach : Text → UserStore → List PersistedSession → AuthContext → Text → Type 0
MayReach agent_id users rows auth session_id =
    (auth.mode ≡ admin)
    ⊎ ((u : Text) × (resolve auth.channel auth.channel_user_id users ≡ some u)
        × ((get_agent_role agent_id u users ≡ some owner)
            ⊎ ((row : PersistedSession) × In row rows
                × (row.session_id ≡ session_id)
                × In u row.user_ids)))

is_owner-some : (o : Option UserRole) → is_owner o ≡ true → o ≡ some owner
is_owner-some none h = absurd (cc h)
is_owner-some (some owner) h = refl
is_owner-some (some UserRole.user) h = absurd (cc h)
is_owner-some (some UserRole.guest) h = absurd (cc h)

some_of-In : (u : Text) (ids : List Text) → some_of (λ v. text_eq v u) ids ≡ true → In u ids
some_of-In u [] h = absurd (cc h)
some_of-In u (v ∷ ids) h = elim (Bool-cases (text_eq v u)) [
  | inl same ↦ inl (sym ((text_eq_iff v u).0 same))
  | inr other ↦ inr (some_of-In u ids (ground (arith, h, other)))
]

has_user-In :
    (u s : Text) (rows : List PersistedSession)
    → has_user u (get_session s rows) ≡ true
    → (row : PersistedSession) × In row rows × (row.session_id ≡ s) × In u row.user_ids
unfolding get_session
has_user-In u s rows h = elim (Option-cases (get_session s rows)) [
  | inl nothing ↦ absurd (let k : has_user u none ≡ true = rw nothing at h in cc k)
  | inr (row, found) ↦
      let (there, same) = find-In (λ r. text_eq r.session_id s) rows row found in
      (row, there, (text_eq_iff row.session_id s).0 same, some_of-In u row.user_ids (rw found at h))
]

pub verify_session_access-MayReach :
    (agent_id : Text) (users : UserStore) (rows : List PersistedSession) (s u : Text)
    → verify_session_access agent_id users rows s u ≡ true
    → (get_agent_role agent_id u users ≡ some owner)
      ⊎ ((row : PersistedSession) × In row rows × (row.session_id ≡ s) × In u row.user_ids)
unfolding verify_session_access
verify_session_access-MayReach agent_id users rows s u h =
    elim (Bool-cases (is_owner (get_agent_role agent_id u users))) [
      | inl owns ↦ inl (is_owner-some (get_agent_role agent_id u users) owns)
      | inr other ↦ inr (has_user-In u s rows (ground (arith, h, other)))
    ]

pub is_admin_mode : (mode : AuthMode) → is_admin mode ≡ true → mode ≡ admin
is_admin_mode admin h = refl
is_admin_mode user h = absurd (cc h)
is_admin_mode channel h = absurd (cc h)

pub present-some : (o : Option Text) (u : Text) → present o ≡ some u → o ≡ some u
present-some none u h = absurd (cc h)
present-some (some v) u h = ground (arith, h)

check_user-reaches :
    (verify : Text → Bool) (o : Option Text) (action : Action) (s : Text)
    → session_of (check_user verify o action) ≡ some s
    → (session_of action ≡ some s) × ((u : Text) × (o ≡ some u) × (verify u ≡ true))
check_user-reaches verify none action s h = absurd (cc h)
check_user-reaches verify (some u) action s h = elim (Bool-cases (verify u)) [
  | inl granted ↦ (ground (arith, granted, h), (u, refl, granted))
  | inr denied ↦ absurd (ground (arith, denied, h))
]

require_session_access-reaches :
    (mode : AuthMode) (verify : Text → Bool) (caller : Option Text) (action : Action) (s : Text)
    → session_of (require_session_access mode verify caller action) ≡ some s
    → (session_of action ≡ some s)
      × ((mode ≡ admin) ⊎ ((u : Text) × (caller ≡ some u) × (verify u ≡ true)))
unfolding require_session_access
require_session_access-reaches mode verify caller action s h = elim (Bool-cases (is_admin mode)) [
  | inl is ↦ (ground (arith, is, h), inl (is_admin_mode mode is))
  | inr other ↦
      let (reached, (u, there, granted)) =
        check_user-reaches verify (present caller) action s (ground (arith, other, h)) in
      (reached, inr (u, present-some caller u there, granted))
]

post_own : (o : Option SessionMessage) (sid s : Text) → session_of (post sid o) ≡ some s → sid ≡ s
post_own none sid s h = absurd (cc h)
post_own (some text) sid s h = ground (arith, h)

approve_own :
    (o : Option (Text × Bool)) (sid s : Text) → session_of (approve sid o) ≡ some s → sid ≡ s
approve_own none sid s h = absurd (cc h)
approve_own (some (id, b)) sid s h = ground (arith, h)

checkpoint_own :
    (o : Option (Option CheckpointReason)) (sid s : Text)
    → session_of (checkpoint sid o) ≡ some s
    → sid ≡ s
checkpoint_own none sid s h = absurd (cc h)
checkpoint_own (some reason) sid s h = ground (arith, h)

open_with-none :
    (o : Option Text) (caller : Option (Text × Text)) (s : Text)
    → session_of (open_with o caller) ≢ some s
open_with-none none caller s h = cc h
open_with-none (some sid) caller s h = cc h

unsubscribes-none :
    (o : Option Text) (s : Text) → session_of (with_session o (λ sid. unsubscribes sid)) ≢ some s
unsubscribes-none none s h = cc h
unsubscribes-none (some sid) s h = cc h

module _ (agent_id : Text) (users : UserStore) (rows : List PersistedSession)
    (auth : AuthContext) where
  guarded-MayReach :
      (sid s : Text) (action : Action)
      → (session_of action ≡ some s → sid ≡ s)
      → session_of (
          require_session_access auth.mode
            (verify_session_access agent_id users rows sid)
            (resolve auth.channel auth.channel_user_id users)
            action)
        ≡ some s
      → MayReach agent_id users rows auth s
  guarded-MayReach sid s action same h =
      let (reached, allowed) =
        require_session_access-reaches auth.mode (verify_session_access agent_id users rows sid)
          (resolve auth.channel auth.channel_user_id users) action s h in
      elim allowed [
        | inl is ↦ inl is
        | inr (u, there, granted) ↦
            let granted' : verify_session_access agent_id users rows s u ≡ true =
              subst (λ x. verify_session_access agent_id users rows x u ≡ true) (same reached)
                granted in
            inr (u, there, verify_session_access-MayReach agent_id users rows s u granted')
      ]

  with_session-MayReach :
      (o : Option Text) (s : Text) (k : Text → Action)
      → ((sid : Text) → session_of (k sid) ≡ some s → sid ≡ s)
      → session_of (
          with_session o (λ sid.
            require_session_access auth.mode
              (verify_session_access agent_id users rows sid)
              (resolve auth.channel auth.channel_user_id users)
              (k sid)))
        ≡ some s
      → MayReach agent_id users rows auth s
  with_session-MayReach none s k same h = absurd (cc h)
  with_session-MayReach (some sid) s k same h = guarded-MayReach sid s (k sid) (same sid) h

  dispatch-MayReach :
      (method : Method) (p : Params) (s : Text)
      → session_of (dispatch agent_id users rows auth method p) ≡ some s
      → MayReach agent_id users rows auth s
  unfolding dispatch
  dispatch-MayReach session_open p s h = absurd (open_with-none p.spec _ s h)
  dispatch-MayReach session_message p s h =
      with_session-MayReach p.session_id s (λ sid. post sid p.message)
        (λ sid. post_own p.message sid s) h
  dispatch-MayReach session_approve p s h =
      with_session-MayReach p.session_id s (λ sid. approve sid p.approval)
        (λ sid. approve_own p.approval sid s) h
  dispatch-MayReach session_checkpoint p s h =
      with_session-MayReach p.session_id s (λ sid. checkpoint sid p.reason)
        (λ sid. checkpoint_own p.reason sid s) h
  dispatch-MayReach session_list p s h = absurd (cc h)
  dispatch-MayReach session_history p s h =
      with_session-MayReach p.session_id s
        (λ sid. reads_history sid (resolve auth.channel auth.channel_user_id users))
        (λ sid k. ground (arith, k)) h
  dispatch-MayReach session_delete p s h =
      with_session-MayReach p.session_id s
        (λ sid. deletes sid (resolve auth.channel auth.channel_user_id users))
        (λ sid k. ground (arith, k)) h
  dispatch-MayReach session_subscribe p s h =
      with_session-MayReach p.session_id s (λ sid. subscribes sid (or_else p.last_event_id 0))
        (λ sid k. ground (arith, k)) h
  dispatch-MayReach session_unsubscribe p s h = absurd (unsubscribes-none p.session_id s h)
  dispatch-MayReach unknown_method p s h = absurd (cc h)

-- A request reads a session's history, posts to it, answers its approvals, checkpoints it, deletes it
-- or listens to it only for an identity that is the administrator's, or that resolves to a user who
-- owns the agent or takes part in the stored session.
pub handle_request-MayReach :
    (agent_id : Text) (users : UserStore) (rows : List PersistedSession) (auth : Option AuthContext)
    (method : Method) (p : Params) (session_id : Text)
    → session_of (handle_request agent_id users rows auth method p) ≡ some session_id
    → (a : AuthContext) × (auth ≡ some a) × MayReach agent_id users rows a session_id
unfolding handle_request
handle_request-MayReach agent_id users rows none method p session_id h = absurd (cc h)
handle_request-MayReach agent_id users rows (some auth) method p session_id h =
    (auth, refl, dispatch-MayReach agent_id users rows auth method p session_id h)
