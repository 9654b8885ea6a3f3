-- ===== src/Routes.antt =====
-- The session routes of apps/gateway/src/app.ts, with the checks that the runtime makes itself in
-- `deleteSession` and `listSessionMessages` of apps/agent/src/agent-runner.ts. What a route asks of
-- the runtime is an `Action`, as on a connection; the modes of an answer to a message (`wait` and
-- `stream`) come after it.
pub mod Reached
pub mod Guarded
pub mod Transports
use openhermit.Prelude.{
  Text, codes, text_eq, truthy, starts_with, Bool, true, false, not, ◌&&◌, Option, none, some,
  or_else, List, ◌++◌, if◌then◌else◌,
}
use openhermit.Auth.{AuthContext, AuthMode, admin, user, channel, present}
use openhermit.Sessions.{PersistedSession, SessionListQuery}
use openhermit.Users.{UserStore, resolve}
use openhermit.Sockets.{
  Action, SessionMessage, MessageSender, opens, posts, approves, checkpoints, lists, reads_history,
  deletes, subscribes, unsubscribes, fails, CheckpointReason, manual, verify_session_access,
  is_admin, caller_of,
}

pub data Route : Type 0 where
  open_session list_sessions post_message read_messages approve_tool : Route
  checkpoint_session delete_session stream_events : Route

-- The body of a request, `none` where it is not of the type that the route tests for;
-- `append_mode` is the mode in which a message is only stored.
pub record Body : Type 0 where
  pub spec : Option Text
  pub message : Option SessionMessage
  pub append_mode : Bool
  pub approval : Option (Text × Bool)
  pub reason : Option (Option CheckpointReason)
  pub query : SessionListQuery

pub data HttpError : Type 0 where
  unauthorized validation not_found : HttpError

-- `streams` is the stream of a session's events: the backlog is written first, and the stream subscribes
-- after it. That is not the `subscribes` of a connection, which leaves no gap.
pub data Answer : Type 0 where
  calls : Action → Answer
  appends : Text → SessionMessage → Answer
  streams : Text → Answer
  denies : HttpError → Answer

abbrev pub is_channel : AuthMode → Bool
is_channel channel = true
is_channel _ = false

abbrev pub is_user : AuthMode → Bool
is_user user = true
is_user _ = false

abbrev pub names_other : Text → Option Text → Bool
names_other agent_id none = false
names_other agent_id (some other) = truthy other && not (text_eq other agent_id)

-- The second check of `requireAuth`.
abbrev pub is_foreign : Text → AuthContext → Bool
is_foreign agent_id auth =
    truthy agent_id && (is_channel auth.mode && names_other agent_id auth.agent_id)

abbrev pub has_prefix : Option Text → Text → Bool
has_prefix none session_id = true
has_prefix (some namespace) session_id = starts_with session_id (namespace ++ codes ":")

-- Whether `enforceSessionNamespace` returns.
abbrev pub in_namespace : AuthContext → Text → Bool
in_namespace auth session_id =
    if is_channel auth.mode then has_prefix (present auth.channel_namespace) session_id else true

abbrev pub verified_http : Bool → Answer → Answer
verified_http true answer = answer
verified_http false answer = denies not_found

abbrev pub as_user : (Text → Bool) → Option Text → Answer → Answer
as_user verify none answer = denies not_found
as_user verify (some user_id) answer = verified_http (verify user_id) answer

abbrev pub declares_other : Option Text → Option MessageSender → Bool
declares_other none sender = false
declares_other (some namespace) none = false
declares_other (some namespace) (some sender) = not (text_eq sender.channel namespace)

-- The check of the sender that a channel's message declares.
abbrev pub is_impostor : AuthContext → Option MessageSender → Bool
is_impostor auth sender =
    is_channel auth.mode && declares_other (present auth.channel_namespace) sender

-- The message goes to the runtime as it is.
abbrev pub post_http : AuthContext → Text → Option SessionMessage → Body → Answer
post_http auth session_id none b = denies validation
post_http auth session_id (some m) b =
    if is_impostor auth m.sender
    then denies validation
    else if b.append_mode
    then appends session_id m
    else calls (posts session_id m)

abbrev pub approve_http : Text → Option (Text × Bool) → Answer
approve_http session_id none = denies validation
approve_http session_id (some (tool_call_id, approved)) =
    calls (approves session_id tool_call_id approved)

abbrev pub checkpoint_http : Text → Option (Option CheckpointReason) → Answer
checkpoint_http session_id none = denies validation
checkpoint_http session_id (some reason) = calls (checkpoints session_id (or_else reason manual))

abbrev pub open_http : AuthContext → Option Text → Answer
open_http auth none = denies validation
open_http auth (some session_id) =
    if in_namespace auth session_id
    then calls (opens session_id (caller_of auth auth.mode))
    else denies validation

abbrev pub history_of : Text → Option Text → Answer
history_of session_id none = denies not_found
history_of session_id (some user_id) = calls (reads_history session_id (some user_id))

abbrev pub caller_user : UserStore → AuthContext → Option Text
caller_user users auth = resolve auth.channel auth.channel_user_id users

module _ (agent_id : Text) (users : UserStore) (rows : List PersistedSession) where
  -- `requireSessionAccessHttp`, and what follows where it returns.
  unfoldable pub require_session_access_http : AuthContext → Text → Answer → Answer
  require_session_access_http auth session_id answer =
      if is_admin auth.mode
      then answer
      else as_user (verify_session_access agent_id users rows session_id)
          (present (caller_user users auth)) answer

  -- The check that a channel is spared.
  abbrev pub for_user : AuthContext → Text → Answer → Answer
  for_user auth session_id answer =
      if is_user auth.mode then require_session_access_http auth session_id answer else answer

  abbrev pub verified_caller : Text → Option Text → Bool
  verified_caller session_id none = true
  verified_caller session_id (some user_id) =
      verify_session_access agent_id users rows session_id user_id

  -- Whether the runtime goes on past its own check of the caller.
  unfoldable pub runtime_allows : Action → Bool
  runtime_allows (reads_history s caller) = verified_caller s (present caller)
  runtime_allows (deletes s caller) = verified_caller s (present caller)
  runtime_allows _ = true

-- `running` says whether the agent has a runner.
module _ (agent_id : Text) (running : Bool) where
  -- `requireAuth`, `enforceSessionNamespace` and `resolveRunner`.
  abbrev pub on_session : AuthContext → Text → Answer → Answer
  on_session auth session_id answer =
      if is_foreign agent_id auth
      then denies unauthorized
      else if not (in_namespace auth session_id)
      then denies validation
      else if running
      then answer
      else denies not_found

  abbrev pub on_agent : AuthContext → Answer → Answer
  on_agent auth answer =
      if is_foreign agent_id auth
      then denies unauthorized
      else if running
      then answer
      else denies not_found

module _ (agent_id : Text) (running : Bool) (users : UserStore) (rows : List PersistedSession) where
  abbrev pub open_route : AuthContext → Body → Answer
  open_route auth b = on_agent agent_id running auth (open_http auth b.spec)

  abbrev pub list_route : AuthContext → Body → Answer
  list_route auth b = on_agent agent_id running auth (calls (lists auth b.query))

  abbrev pub post_route : AuthContext → Text → Body → Answer
  post_route auth s b =
      on_session agent_id running auth s
        (for_user agent_id users rows auth s (post_http auth s b.message b))

  abbrev pub history_route : AuthContext → Text → Answer
  history_route auth s = on_session agent_id running auth s (
      if is_admin auth.mode
      then calls (reads_history s none)
      else history_of s (present (caller_user users auth)))

  abbrev pub approve_route : AuthContext → Text → Body → Answer
  approve_route auth s b =
      on_session agent_id running auth s
        (require_session_access_http agent_id users rows auth s (approve_http s b.approval))

  abbrev pub checkpoint_route : AuthContext → Text → Body → Answer
  checkpoint_route auth s b =
      on_session agent_id running auth s
        (require_session_access_http agent_id users rows auth s (checkpoint_http s b.reason))

  abbrev pub delete_route : AuthContext → Text → Answer
  delete_route auth s =
      on_session agent_id running auth s (calls (deletes s (caller_user users auth)))

  -- Up to the stream of events.
  abbrev pub events_route : AuthContext → Text → Answer
  events_route auth s =
      on_session agent_id running auth s (for_user agent_id users rows auth s (streams s))

  unfoldable pub route : AuthContext → Route → Text → Body → Answer
  route auth open_session s b = open_route auth b
  route auth list_sessions s b = list_route auth b
  route auth post_message s b = post_route auth s b
  route auth read_messages s b = history_route auth s
  route auth approve_tool s b = approve_route auth s b
  route auth checkpoint_session s b = checkpoint_route auth s b
  route auth delete_session s b = delete_route auth s
  route auth stream_events s b = events_route auth s

  unfoldable pub handle_route : Option AuthContext → Route → Text → Body → Answer
  unfolding route
  handle_route none r s b = denies unauthorized
  handle_route (some auth) r s b = route auth r s b
