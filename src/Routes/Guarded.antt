-- ===== src/Routes/Guarded.antt =====
-- Which routes reach a session.
use mathlib.Core.Option.{some-injective}
use openhermit.Prelude.{
  subst, Text, Bool, Bool-cases, Option, none, some, List, ◌≡◌, ◌⊎◌, inl, inr, refl, sym, arith,
}
use openhermit.Auth.{AuthContext, present}
use openhermit.Sessions.{PersistedSession}
use openhermit.Users.{UserStore}
use openhermit.Sockets.{Action, reads_history, deletes, lists, is_admin}
use openhermit.Sockets.Guarded.{MayReach, is_admin_mode}
use openhermit.Routes.{
  Route, open_session, list_sessions, post_message, read_messages, approve_tool, checkpoint_session,
  delete_session, stream_events, Body, Answer, calls, streams, denies, unauthorized, is_foreign,
  post_http, approve_http, checkpoint_http, open_http, caller_user, require_session_access_http,
  for_user, on_session, on_agent, route, handle_route, runtime_allows,
}
use openhermit.Routes.Reached.{
  IsOwnAgent, IsConfined, IsExcused, reached, on_session-reached, require-reached, for_user-reached,
  verified-MayReach, calls_own, post_own, approve_own, checkpoint_own, on_agent-reached,
  open_http-reached, history-reached, home-IsOwnAgent, in_namespace-IsConfined,
}

module _ (agent_id : Text) (users : UserStore) (rows : List PersistedSession) where
  -- The session that a request names: that of its path, or of the specification in its body.
  abbrev pub named_in : Route → Text → Body → Option Text
  named_in open_session s b = b.spec
  named_in list_sessions s b = none
  named_in _ s b = some s

  -- What is known of a request that reaches the session `t`.
  pub record IsGuarded (r : Route) (auth : AuthContext) (s : Text) (b : Body) (t : Text)
      : Type 0 where
    pub same : named_in r s b ≡ some t
    pub confined_to : IsConfined agent_id auth t
    pub allowed :
        MayReach agent_id users rows auth t ⊎ IsExcused r auth (present (caller_user users auth))

  same-IsGuarded :
      (r : Route) (auth : AuthContext) (s t : Text) (b : Body)
      → named_in r s b ≡ some s
      → t ≡ s
      → IsConfined agent_id auth s
      → MayReach agent_id users rows auth s ⊎ IsExcused r auth (present (caller_user users auth))
      → IsGuarded r auth s b t
  same-IsGuarded r auth s t b names at home may =
      subst (λ x. IsGuarded r auth s b x) (sym at)
        (record { same = names; confined_to = home; allowed = may })

  route-IsGuarded :
      (running : Bool) (auth : AuthContext) (r : Route) (s t : Text) (b : Body)
      → reached agent_id users rows (route agent_id running users rows auth r s b) ≡ some t
      → IsGuarded r auth s b t
  unfolding route
  route-IsGuarded running auth open_session s t b h =
      let (home, k) =
        on_agent-reached agent_id users rows running auth t (open_http auth b.spec) h in
      let (names, within) = open_http-reached agent_id users rows auth t b.spec k in
      record {
        same = names;
        confined_to = in_namespace-IsConfined agent_id auth t home within;
        allowed = inr tt;
      }
  route-IsGuarded running auth list_sessions s t b h =
      let (home, k) =
        on_agent-reached agent_id users rows running auth t (calls (lists auth b.query)) h in
      absurd (unfold runtime_allows in cc k)
  route-IsGuarded running auth post_message s t b h =
      let (home, k) =
        on_session-reached agent_id users rows running auth s t
          (for_user agent_id users rows auth s (post_http auth s b.message b)) h in
      let (may, own) =
        for_user-reached agent_id users rows auth s t (post_http auth s b.message b) k in
      same-IsGuarded post_message auth s t b refl
        (post_own agent_id users rows auth s t b.message b own) home may
  route-IsGuarded running auth read_messages s t b h =
      let (home, k) = on_session-reached agent_id users rows running auth s t _ h in
      elim (Bool-cases (is_admin auth.mode)) [
        | inl is ↦
            same-IsGuarded read_messages auth s t b refl
              (calls_own agent_id users rows (reads_history s none) s t refl (rw is at k)) home
              (inl (inl (is_admin_mode auth.mode is)))
        | inr other ↦
            let (same', may) =
              history-reached agent_id users rows auth s t (present (caller_user users auth)) refl
                (rw other at k) in
            same-IsGuarded read_messages auth s t b refl same' home (inl may)
      ]
  route-IsGuarded running auth approve_tool s t b h =
      let (home, k) =
        on_session-reached agent_id users rows running auth s t
          (require_session_access_http agent_id users rows auth s (approve_http s b.approval)) h in
      let (may, own) = require-reached agent_id users rows auth s t (approve_http s b.approval) k in
      same-IsGuarded approve_tool auth s t b refl
        (approve_own agent_id users rows s t b.approval own) home (inl may)
  route-IsGuarded running auth checkpoint_session s t b h =
      let (home, k) =
        on_session-reached agent_id users rows running auth s t
          (require_session_access_http agent_id users rows auth s (checkpoint_http s b.reason)) h in
      let (may, own) =
        require-reached agent_id users rows auth s t (checkpoint_http s b.reason) k in
      same-IsGuarded checkpoint_session auth s t b refl
        (checkpoint_own agent_id users rows s t b.reason own) home (inl may)
  route-IsGuarded running auth delete_session s t b h =
      let (home, k) =
        on_session-reached agent_id users rows running auth s t
          (calls (deletes s (caller_user users auth))) h in
      same-IsGuarded delete_session auth s t b refl
        (calls_own agent_id users rows (deletes s (caller_user users auth)) s t refl k) home
        (verified-MayReach agent_id users rows auth s (unfold runtime_allows in ground (arith, k)))
  route-IsGuarded running auth stream_events s t b h =
      let (home, k) =
        on_session-reached agent_id users rows running auth s t
          (for_user agent_id users rows auth s (streams s)) h in
      let (may, own) = for_user-reached agent_id users rows auth s t (streams s) k in
      same-IsGuarded stream_events auth s t b refl (some-injective t s (sym own)) home may

  on_session-IsOwnAgent :
      (running : Bool) (auth : AuthContext) (s : Text) (answer : Answer) (action : Action)
      → on_session agent_id running auth s answer ≡ calls action
      → IsOwnAgent agent_id auth
  on_session-IsOwnAgent running auth s answer action h =
      elim (Bool-cases (is_foreign agent_id auth)) [
        | inr home ↦ home-IsOwnAgent agent_id auth home
        | inl foreign ↦
            absurd (let k : denies unauthorized ≡ calls action = rw foreign at h in cc k)
      ]

  on_agent-IsOwnAgent :
      (running : Bool) (auth : AuthContext) (answer : Answer) (action : Action)
      → on_agent agent_id running auth answer ≡ calls action
      → IsOwnAgent agent_id auth
  on_agent-IsOwnAgent running auth answer action h = elim (Bool-cases (is_foreign agent_id auth)) [
    | inr home ↦ home-IsOwnAgent agent_id auth home
    | inl foreign ↦ absurd (let k : denies unauthorized ≡ calls action = rw foreign at h in cc k)
  ]

  -- Any call of the runtime comes after the check of the agent.
  route-IsOwnAgent :
      (running : Bool) (auth : AuthContext) (r : Route) (s : Text) (b : Body) (action : Action)
      → route agent_id running users rows auth r s b ≡ calls action
      → IsOwnAgent agent_id auth
  unfolding route
  route-IsOwnAgent running auth open_session s b action h =
      on_agent-IsOwnAgent running auth _ action h
  route-IsOwnAgent running auth list_sessions s b action h =
      on_agent-IsOwnAgent running auth _ action h
  route-IsOwnAgent running auth post_message s b action h =
      on_session-IsOwnAgent running auth s _ action h
  route-IsOwnAgent running auth read_messages s b action h =
      on_session-IsOwnAgent running auth s _ action h
  route-IsOwnAgent running auth approve_tool s b action h =
      on_session-IsOwnAgent running auth s _ action h
  route-IsOwnAgent running auth checkpoint_session s b action h =
      on_session-IsOwnAgent running auth s _ action h
  route-IsOwnAgent running auth delete_session s b action h =
      on_session-IsOwnAgent running auth s _ action h
  route-IsOwnAgent running auth stream_events s b action h =
      on_session-IsOwnAgent running auth s _ action h

-- A session route opens, reads, changes or listens to no session but that of its path or, to open one,
-- of its body, and for a channel's token only one in its namespace. The caller is the administrator, or
-- a user who owns the agent or takes part in the stored session, but for four cases: a channel may post
-- and listen in its namespace with no user, a session is deleted for an identity that resolves to no
-- user, and the user of an opening is checked by the runtime's `openSession`. Whatever a route calls,
-- the listing too, a channel's token calls it for its own agent only.
pub handle_route-IsGuarded :
    (agent_id : Text) (running : Bool) (users : UserStore) (rows : List PersistedSession)
    (auth : Option AuthContext) (r : Route) (s : Text) (b : Body)
    → ((t : Text)
        → reached agent_id users rows (handle_route agent_id running users rows auth r s b) ≡ some t
        → (a : AuthContext) × (auth ≡ some a) × IsGuarded agent_id users rows r a s b t)
      × ((action : Action)
          → handle_route agent_id running users rows auth r s b ≡ calls action
          → (a : AuthContext) × (auth ≡ some a) × IsOwnAgent agent_id a)
unfolding handle_route
handle_route-IsGuarded agent_id running users rows none r s b =
    (λ t h. absurd (cc h), λ action h. absurd (cc h))
handle_route-IsGuarded agent_id running users rows (some a) r s b = (
  λ t h. (a, refl, route-IsGuarded agent_id users rows running a r s t b h),
  λ action h. (a, refl, route-IsOwnAgent agent_id users rows running a r s b action h),
)
