-- ===== src/Routes/Reached.antt =====
-- Which session a route reaches, and past which checks.
use mathlib.Core.Option.{some-injective}
use openhermit.Prelude.{
  subst, ap, Text, codes, text_eq_iff, truthy, starts_with, Bool, true, false, Bool-cases,
  Option-cases, ap, Option, none, some, List, ◌++◌, ◌≡◌, ◌⊎◌, inl, inr, refl, sym, ◌∙◌, arith,
  if◌then◌else◌,
}
use openhermit.Auth.{AuthContext, AuthMode, admin, user, channel, present}
use openhermit.Sessions.{PersistedSession}
use openhermit.Users.{UserStore}
use openhermit.Sockets.{
  SessionMessage, opens, Action, CheckpointReason, is_admin, verify_session_access,
}
use openhermit.Sockets.Guarded.{
  session_of, MayReach, verify_session_access-MayReach, is_admin_mode, present-some,
}
use openhermit.Routes.{
  Route, open_session, post_message, delete_session, stream_events, Body, Answer, calls, appends,
  streams, denies, is_user, is_foreign, in_namespace, post_http, approve_http, checkpoint_http,
  open_http, history_of, caller_user, require_session_access_http, for_user, on_session, on_agent,
  verified_caller, runtime_allows,
}

-- The session that an action opens, reads, changes or listens to.
abbrev pub named_by : Action → Option Text
named_by (opens s caller) = some s
named_by action = session_of action

-- The session that the runtime opens, reads, changes or listens to for an answer.
abbrev pub reached_by : (Action → Bool) → Answer → Option Text
reached_by allows (calls action) = if allows action then named_by action else none
reached_by allows (appends s text) = some s
reached_by allows (streams s) = some s
reached_by allows (denies e) = none

-- A channel's token is for its agent.
abbrev pub IsOwnAgent : Text → AuthContext → Type 0
IsOwnAgent agent_id auth =
    (g : Text)
    → auth.mode ≡ channel
    → auth.agent_id ≡ some g
    → truthy g ≡ true
    → truthy agent_id ≡ true
    → g ≡ agent_id

pub home-IsOwnAgent :
    (agent_id : Text) (auth : AuthContext)
    → is_foreign agent_id auth ≡ false
    → IsOwnAgent agent_id auth
home-IsOwnAgent agent_id auth home g mode at given own =
    (text_eq_iff g agent_id).0 (ground (arith, home, mode, at, given, own))

-- A channel's token is for its agent and its namespace.
pub record IsConfined (agent_id : Text) (auth : AuthContext) (session_id : Text) : Type 0 where
  pub own_agent : IsOwnAgent agent_id auth
  pub own_namespace :
      (n : Text)
      → auth.mode ≡ channel
      → present auth.channel_namespace ≡ some n
      → starts_with session_id (n ++ codes ":") ≡ true

pub in_namespace-IsConfined :
    (agent_id : Text) (auth : AuthContext) (s : Text)
    → is_foreign agent_id auth ≡ false
    → in_namespace auth s ≡ true
    → IsConfined agent_id auth s
in_namespace-IsConfined agent_id auth s home within = record {
  own_agent = home-IsOwnAgent agent_id auth home;
  own_namespace = λ n mode at. ground (arith, within, mode, at);
}

-- Where no check of the user stands before the action.
abbrev pub IsExcused : Route → AuthContext → Option Text → Type 0
IsExcused post_message auth caller = auth.mode ≡ channel
IsExcused stream_events auth caller = auth.mode ≡ channel
IsExcused delete_session auth caller = caller ≡ none
IsExcused open_session auth caller = Unit
IsExcused _ auth caller = ⊥

module _ (agent_id : Text) (users : UserStore) (rows : List PersistedSession) where
  abbrev pub reached : Answer → Option Text
  reached answer = reached_by (runtime_allows agent_id users rows) answer

  pub on_session-reached :
      (running : Bool) (auth : AuthContext) (s t : Text) (answer : Answer)
      → reached (on_session agent_id running auth s answer) ≡ some t
      → IsConfined agent_id auth s × (reached answer ≡ some t)
  on_session-reached running auth s t answer h = elim (Bool-cases (is_foreign agent_id auth)) [
    | inl foreign ↦ absurd (let k : none ≡ some t = rw foreign at h in cc k)
    | inr home ↦ elim (Bool-cases (in_namespace auth s)) [
      | inr outside ↦ absurd (let k : none ≡ some t = rw (home, outside) at h in cc k)
      | inl within ↦ elim (Bool-cases running) [
        | inr stopped ↦ absurd (let k : none ≡ some t = rw (home, within, stopped) at h in cc k)
        | inl runs ↦
            (in_namespace-IsConfined agent_id auth s home within, (rw (home, within, runs) at h))
      ]
    ]
  ]

  pub require-reached :
      (auth : AuthContext) (s t : Text) (answer : Answer)
      → reached (require_session_access_http agent_id users rows auth s answer) ≡ some t
      → MayReach agent_id users rows auth s × (reached answer ≡ some t)
  unfolding require_session_access_http
  require-reached auth s t answer h = elim (Bool-cases (is_admin auth.mode)) [
    | inl is ↦ (inl (is_admin_mode auth.mode is), (rw is at h))
    | inr other ↦ elim (Option-cases (present (caller_user users auth))) [
      | inl nobody ↦ absurd (let k : none ≡ some t = rw (other, nobody) at h in cc k)
      | inr (u, found) ↦ elim (Bool-cases (verify_session_access agent_id users rows s u)) [
        | inr refused ↦ absurd (let k : none ≡ some t = rw (other, found, refused) at h in cc k)
        | inl granted ↦ (
          inr (
            u,
            present-some (caller_user users auth) u found,
            verify_session_access-MayReach agent_id users rows s u granted,
          ),
          (rw (other, found, granted) at h),
        )
      ]
    ]
  ]

  pub is_user_mode : (mode : AuthMode) → is_user mode ≡ false → (mode ≡ admin) ⊎ (mode ≡ channel)
  is_user_mode user h = absurd (cc h)
  is_user_mode admin h = inl refl
  is_user_mode channel h = inr refl

  pub for_user-reached :
      (auth : AuthContext) (s t : Text) (answer : Answer)
      → reached (for_user agent_id users rows auth s answer) ≡ some t
      → (MayReach agent_id users rows auth s ⊎ (auth.mode ≡ channel)) × (reached answer ≡ some t)
  for_user-reached auth s t answer h = elim (Bool-cases (is_user auth.mode)) [
    | inl is ↦ let (may, k) = require-reached auth s t answer (rw is at h) in (inl may, k)
    | inr other ↦ (
      elim (is_user_mode auth.mode other) [ inl a ↦ inl (inl a) | inr c ↦ inr c ],
      (rw other at h),
    )
  ]

  -- A runtime's own check of the caller.
  pub verified-MayReach :
      (auth : AuthContext) (s : Text)
      → verified_caller agent_id users rows s (present (caller_user users auth)) ≡ true
      → MayReach agent_id users rows auth s ⊎ (present (caller_user users auth) ≡ none)
  verified-MayReach auth s h = elim (Option-cases (present (caller_user users auth))) [
    | inl nobody ↦ inr nobody
    | inr (u, found) ↦ inl (
        inr (
          u,
          present-some (caller_user users auth) u found,
          verify_session_access-MayReach agent_id users rows s u (rw found at h),
        ))
  ]

  pub calls_own :
      (action : Action) (s t : Text)
      → named_by action ≡ some s
      → reached (calls action) ≡ some t
      → t ≡ s
  calls_own action s t own h = ground (arith, own, h)

  pub post_own :
      (auth : AuthContext) (s t : Text) (o : Option SessionMessage) (b : Body)
      → reached (post_http auth s o b) ≡ some t
      → t ≡ s
  unfolding runtime_allows
  post_own auth s t none b h = absurd (cc h)
  post_own auth s t (some text) b h = ground (arith, h)

  pub approve_own :
      (s t : Text) (o : Option (Text × Bool)) → reached (approve_http s o) ≡ some t → t ≡ s
  unfolding runtime_allows
  approve_own s t none h = absurd (cc h)
  approve_own s t (some (id, b)) h = ground (arith, h)

  pub checkpoint_own :
      (s t : Text) (o : Option (Option CheckpointReason))
      → reached (checkpoint_http s o) ≡ some t
      → t ≡ s
  unfolding runtime_allows
  checkpoint_own s t none h = absurd (cc h)
  checkpoint_own s t (some reason) h = ground (arith, h)

  pub on_agent-reached :
      (running : Bool) (auth : AuthContext) (t : Text) (answer : Answer)
      → reached (on_agent agent_id running auth answer) ≡ some t
      → (is_foreign agent_id auth ≡ false) × (reached answer ≡ some t)
  on_agent-reached running auth t answer h = elim (Bool-cases (is_foreign agent_id auth)) [
    | inl foreign ↦ absurd (let k : none ≡ some t = rw foreign at h in cc k)
    | inr home ↦ elim (Bool-cases running) [
      | inr stopped ↦ absurd (let k : none ≡ some t = rw (home, stopped) at h in cc k)
      | inl runs ↦ (home, rw (home, runs) at h)
    ]
  ]

  pub open_http-reached :
      (auth : AuthContext) (t : Text) (o : Option Text)
      → reached (open_http auth o) ≡ some t
      → (o ≡ some t) × (in_namespace auth t ≡ true)
  unfolding runtime_allows
  open_http-reached auth t none h = absurd (cc h)
  open_http-reached auth t (some s) h = elim (Bool-cases (in_namespace auth s)) [
    | inr outside ↦ absurd (let k : none ≡ some t = rw outside at h in cc k)
    | inl within ↦
        let same : s ≡ t = some-injective s t (rw within at h) in
        (ap some same, subst (λ x. in_namespace auth x ≡ true) same within)
  ]

  -- The history is the runtime's to check.
  pub history-reached :
      (auth : AuthContext) (s t : Text) (o : Option Text)
      → present (caller_user users auth) ≡ o
      → reached (history_of s o) ≡ some t
      → (t ≡ s) × MayReach agent_id users rows auth s
  unfolding runtime_allows
  history-reached auth s t none e h = absurd (cc h)
  history-reached auth s t (some u) e h =
      let found = present-some (caller_user users auth) u e in
      let again : present (some u) ≡ some u = ap present (sym found) ∙ e in
      elim (Bool-cases (verify_session_access agent_id users rows s u)) [
        | inl granted ↦ (
          ground (arith, again, granted, h),
          inr (u, found, verify_session_access-MayReach agent_id users rows s u granted),
        )
        | inr refused ↦ absurd (ground (arith, again, refused, h))
      ]
