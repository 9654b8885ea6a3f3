-- ===== src/Sockets.antt =====
-- apps/gateway/src/ws-handler.ts: the requests on a WebSocket connection, with the access check of
-- apps/agent/src/agent-runner.ts. A request's parameters are `none` where they have not the type that
-- the handler tests for. What the runtime does with a call is the call itself; whether it returns is
-- an argument. The tables are those at the time of the check.
pub mod Guarded
pub mod Subscriptions
use openhermit.Prelude.{
  ℕ, Text, text_eq, text_keys, truthy, Bool, true, false, Option, none, some, or_else, List, [],
  ◌∷◌, lookup, insert, erase, find, some_of, if◌then◌else◌,
}
use openhermit.Policy.{UserRole, owner}
use openhermit.Auth.{AuthContext, AuthMode, admin, user, channel, present}
use openhermit.Sessions.{PersistedSession, SessionListQuery}
use openhermit.Users.{UserStore, resolve, get_agent_role}
use openhermit.Broker.{Broker, unsubscribe, subscribe_from}

pub data Method : Type 0 where
  session_open session_message session_approve session_checkpoint session_list : Method
  session_history session_delete session_subscribe session_unsubscribe : Method
  unknown_method : Method

pub data CheckpointReason : Type 0 where
  manual new_session turn_limit idle : CheckpointReason

-- An attachment is its text.
pub record MessageSender : Type 0 where
  pub channel : Text
  pub channel_user_id : Text
  pub display_name : Option Text

pub record SessionMessage : Type 0 where
  pub text : Text
  pub message_id : Option Text
  pub attachments : Option (List Text)
  pub sender : Option MessageSender
  pub metadata : Option (List (Text × Text))
  pub mentioned : Option Bool

-- `spec` is the session id of a valid SessionSpec, `message` a valid message, `reason` the
-- reason of a valid checkpoint request, if it has one.
pub record Params : Type 0 where
  pub session_id : Option Text
  pub spec : Option Text
  pub message : Option SessionMessage
  pub approval : Option (Text × Bool)
  pub reason : Option (Option CheckpointReason)
  pub query : SessionListQuery
  pub last_event_id : Option ℕ

pub data ErrorCode : Type 0 where
  invalid_params session_not_found not_subscribed internal_error : ErrorCode

-- What a request does, or the error that it is answered with.
pub data Action : Type 0 where
  opens : Text → Option (Text × Text) → Action
  posts : Text → SessionMessage → Action
  approves : Text → Text → Bool → Action
  checkpoints : Text → CheckpointReason → Action
  lists : AuthContext → SessionListQuery → Action
  reads_history : Text → Option Text → Action
  deletes : Text → Option Text → Action
  subscribes : Text → ℕ → Action
  unsubscribes : Text → Action
  fails : ErrorCode → Action

-- The rows of the agent.
unfoldable pub get_session : Text → List PersistedSession → Option PersistedSession
get_session session_id rows = find (λ r. text_eq r.session_id session_id) rows

abbrev pub has_user : Text → Option PersistedSession → Bool
has_user user_id none = false
has_user user_id (some row) = some_of (λ u. text_eq u user_id) row.user_ids

abbrev pub is_owner : Option UserRole → Bool
is_owner (some owner) = true
is_owner _ = false

-- Whether it returns; it throws otherwise.
unfoldable pub verify_session_access : Text → UserStore → List PersistedSession → Text → Text → Bool
verify_session_access agent_id users rows session_id user_id =
    if is_owner (get_agent_role agent_id user_id users)
    then true
    else has_user user_id (get_session session_id rows)

abbrev pub is_admin : AuthMode → Bool
is_admin admin = true
is_admin _ = false

abbrev pub verified_or : Bool → Action → Action
verified_or true action = action
verified_or false action = fails internal_error

-- A NotFoundError of `verifySessionAccess` is no SessionAccessDeniedError.
abbrev pub check_user : (Text → Bool) → Option Text → Action → Action
check_user verify none action = fails session_not_found
check_user verify (some user_id) action = verified_or (verify user_id) action

-- `requireSessionAccess`, and what follows where it returns.
unfoldable pub require_session_access : AuthMode → (Text → Bool) → Option Text → Action → Action
require_session_access mode verify caller action =
    if is_admin mode then action else check_user verify (present caller) action

-- The message is put together from four of the parameters.
abbrev pub of_params : SessionMessage → SessionMessage
of_params m = record {
  text = m.text;
  message_id = m.message_id;
  attachments = m.attachments;
  sender = m.sender;
  metadata = none;
  mentioned = none;
}

abbrev pub post : Text → Option SessionMessage → Action
post session_id none = fails invalid_params
post session_id (some m) = posts session_id (of_params m)

abbrev pub approve : Text → Option (Text × Bool) → Action
approve session_id none = fails invalid_params
approve session_id (some (tool_call_id, approved)) = approves session_id tool_call_id approved

abbrev pub checkpoint : Text → Option (Option CheckpointReason) → Action
checkpoint session_id none = fails invalid_params
checkpoint session_id (some reason) = checkpoints session_id (or_else reason manual)

-- The identity that opens: a user's own.
abbrev pub caller_of : AuthContext → AuthMode → Option (Text × Text)
caller_of auth user =
    if truthy auth.channel_user_id then some (auth.channel, auth.channel_user_id) else none
caller_of auth _ = none

abbrev pub open_with : Option Text → Option (Text × Text) → Action
open_with none caller = fails invalid_params
open_with (some session_id) caller = opens session_id caller

abbrev with_session : Option Text → (Text → Action) → Action
with_session none k = fails invalid_params
with_session (some session_id) k = k session_id

module _ (agent_id : Text) (users : UserStore) (rows : List PersistedSession) where
  abbrev guarded : AuthContext → Text → Action → Action
  guarded auth session_id action =
      require_session_access auth.mode (verify_session_access agent_id users rows session_id)
        (resolve auth.channel auth.channel_user_id users) action

  -- The `switch`, for a connection with an identity.
  unfoldable pub dispatch : AuthContext → Method → Params → Action
  dispatch auth session_open p = open_with p.spec (caller_of auth auth.mode)
  dispatch auth session_message p =
      with_session p.session_id (λ s. guarded auth s (post s p.message))
  dispatch auth session_approve p =
      with_session p.session_id (λ s. guarded auth s (approve s p.approval))
  dispatch auth session_checkpoint p =
      with_session p.session_id (λ s. guarded auth s (checkpoint s p.reason))
  dispatch auth session_list p = lists auth p.query
  dispatch auth session_history p =
      with_session p.session_id
        (λ s. guarded auth s (reads_history s (resolve auth.channel auth.channel_user_id users)))
  dispatch auth session_delete p =
      with_session p.session_id
        (λ s. guarded auth s (deletes s (resolve auth.channel auth.channel_user_id users)))
  dispatch auth session_subscribe p =
      with_session p.session_id (λ s. guarded auth s (subscribes s (or_else p.last_event_id 0)))
  dispatch auth session_unsubscribe p = with_session p.session_id (λ s. unsubscribes s)
  dispatch auth unknown_method p = fails invalid_params

  unfoldable pub handle_request : Option AuthContext → Method → Params → Action
  unfolding dispatch
  handle_request none method p = fails invalid_params
  handle_request (some auth) method p = dispatch auth method p

-- The connection's subscriptions, each with its subscriber at the runtime's broker.
pub record Socket : Type 0 where
  pub subscriptions : List (Text × ℕ)
  pub broker : Broker

pub data Response : Type 0 where
  result : Response
  error : ErrorCode → Response

abbrev pub left_by : Text → Option ℕ → Broker → Broker
left_by session_id none b = b
left_by session_id (some n) b = unsubscribe session_id n b

abbrev pub joined_to : Text → ℕ → List (Text × ℕ) → Broker → Socket
joined_to session_id after subscriptions b = record {
  subscriptions = insert text_keys session_id b.next_subscriber subscriptions;
  broker = subscribe_from session_id after b;
}

-- `session.subscribe` once it is granted: the old subscription of the session ends first.
unfoldable pub add_subscription : Text → ℕ → Socket → Socket
add_subscription session_id after s =
    joined_to session_id after s.subscriptions
      (left_by session_id (lookup text_keys session_id s.subscriptions) s.broker)

abbrev pub end_subscription : Text → Option ℕ → Socket → Response × Socket
end_subscription session_id none s = (error not_subscribed, s)
end_subscription session_id (some n) s = (
  result,
  record {
    subscriptions = erase text_keys session_id s.subscriptions;
    broker = unsubscribe session_id n s.broker;
  },
)

-- The answer to a request, and the connection after it; `returns` says which calls do not throw.
unfoldable pub carry_out : (Action → Bool) → Action → Socket → Response × Socket
unfolding add_subscription
carry_out returns (fails code) s = (error code, s)
carry_out returns (subscribes session_id after) s = (result, add_subscription session_id after s)
carry_out returns (unsubscribes session_id) s =
    end_subscription session_id (lookup text_keys session_id s.subscriptions) s
carry_out returns call s = if returns call then (result, s) else (error internal_error, s)

unfoldable pub leave_all : List (Text × ℕ) → Broker → Broker
leave_all [] b = b
leave_all ((session_id, n) ∷ subscriptions) b = leave_all subscriptions (unsubscribe session_id n b)

-- The handler of `close`.
unfoldable pub close : Socket → Socket
unfolding leave_all
close s = record { subscriptions = []; broker = leave_all s.subscriptions s.broker }
