-- ===== src/Routes/Transports.antt =====
-- The two transports: what a user asks for over HTTP and on a WebSocket connection.
use openhermit.Prelude.{Text, Bool, Option, none, some, List, ◌≡◌, if◌then◌else◌}
use openhermit.Auth.{AuthContext, user}
use openhermit.Sessions.{PersistedSession}
use openhermit.Users.{UserStore}
use openhermit.Sockets.{
  of_params, posts, Action, fails, Method, session_open, session_message, session_approve,
  session_checkpoint, session_list, session_history, session_delete, session_subscribe, Params,
}
use openhermit.Routes.{
  Route, open_session, list_sessions, post_message, read_messages, approve_tool, checkpoint_session,
  delete_session, stream_events, Body, Answer, calls, appends, streams, denies, runtime_allows,
}

-- The same action over a connection, which passes four parts of a message on: not whether the bot was
-- mentioned, and not the metadata.
abbrev pub over_socket : Action → Action
over_socket (posts s m) = posts s (of_params m)
over_socket action = action

-- What the runtime carries out, if anything.
abbrev pub by_http : (Action → Bool) → Answer → Option Action
by_http allows (calls action) = if allows action then some (over_socket action) else none
by_http allows (appends s text) = none
by_http allows (streams s) = none
by_http allows (denies e) = none

abbrev pub by_socket : (Action → Bool) → Action → Option Action
by_socket allows (fails code) = none
by_socket allows action = if allows action then some action else none

abbrev pub method_of : Route → Method
method_of open_session = session_open
method_of list_sessions = session_list
method_of post_message = session_message
method_of read_messages = session_history
method_of approve_tool = session_approve
method_of checkpoint_session = session_checkpoint
method_of delete_session = session_delete
method_of stream_events = session_subscribe

abbrev pub params_of : Text → Body → Params
params_of s b = record {
  session_id = some s;
  spec = b.spec;
  message = b.message;
  approval = b.approval;
  reason = b.reason;
  query = b.query;
  last_event_id = none;
}

module _ (agent_id : Text) (users : UserStore) (rows : List PersistedSession) (auth : AuthContext)
    (is : auth.mode ≡ user) where
  abbrev http : Answer → Option Action
  http answer = by_http (runtime_allows agent_id users rows) answer

  abbrev socket : Action → Option Action
  socket action = by_socket (runtime_allows agent_id users rows) action
