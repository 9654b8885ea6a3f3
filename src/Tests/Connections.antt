-- ===== src/Tests/Connections.antt =====
-- The broker of events and a connection to it, at a session `s` with an event `e`.
use openhermit.Prelude.{
  ℕ, Text, codes, text_eq, lookup, insert, true, false, none, some, List, [], ◌∷◌, ◌++◌, All, In,
  ◌≡◌, inl, refl, arith,
}
use openhermit.Auth.{AuthContext, AuthMode}
use openhermit.Sessions.{PersistedSession}
use openhermit.Users.{UserStore, resolve, get_agent_role}
use openhermit.Broker.{
  Envelope, Broker, new_broker, has, subscribe, subscribe_from, get_backlog, last_hundred, enqueue,
  publish, resume_in, resume,
}
use openhermit.Broker.Reached.{Reach, here, next, subscribes, publishes}
use openhermit.Broker.Runs.{Run, Run-receives}
use openhermit.Broker.Twice.{subscribe_from-twice}
use openhermit.Broker.Listens.{listens}
use openhermit.Sockets.{
  SessionMessage, Method, Params, Action, Socket, handle_request, dispatch, require_session_access,
  verify_session_access, get_session, add_subscription, close,
}
use openhermit.Sockets.Guarded.{MayReach, handle_request-MayReach}
use openhermit.Routes.{post_message, Body, Answer, handle_route, route, require_session_access_http}
use openhermit.Routes.Reached.{IsOwnAgent, reached}
use openhermit.Routes.Guarded.{IsGuarded, handle_route-IsGuarded}
use openhermit.Sockets.Subscriptions.{
  Open, IsTracked, before_joining, Open-IsTracked, close-listens,
}

abbrev session : Text
session = codes "s"

abbrev event : Envelope
event = record { id = 1; session_id = session; event = codes "e" }

-- One subscriber is there, and the loop of the event awaits it.
abbrev busy : Broker
busy = publish session (codes "e") (subscribe_from session 0 new_broker)

busy-flights : busy.flights ≡ record { envelope = event; set = 0; visited = 0 ∷ [] } ∷ []
unfolding publish enqueue subscribe_from subscribe get_backlog last_hundred lookup insert text_eq
busy-flights = refl

busy-Reach : Reach busy
busy-Reach =
    next (next here (subscribes session 0 new_broker))
      (publishes session (codes "e") (subscribe_from session 0 new_broker))

Run-receives_example : All (λ e. In {A = ℕ × Envelope} (0, e) (resume 0 busy).received) (event ∷ [])
unfolding resume resume_in publish enqueue subscribe_from subscribe get_backlog last_hundred lookup
    insert text_eq
Run-receives_example =
    Run-receives session 0 new_broker (resume 0 busy) (event ∷ []) here
      (Run.resumes 0 (Run.publishes session (codes "e") Run.starts)) refl

subscribe_from-twice_example :
    (new : List (ℕ × Envelope)) × ((subscribe_from session 0 busy).received ≡ busy.received ++ new)
    × In {A = ℕ × Envelope} (1, event) new
    × ((resume 0 (subscribe_from session 0 busy)).received
        ≡ (subscribe_from session 0 busy).received ++ (1, event) ∷ [])
unfolding publish enqueue subscribe_from subscribe get_backlog last_hundred lookup insert text_eq
subscribe_from-twice_example =
    subscribe_from-twice session 0 0 busy (record { envelope = event; set = 0; visited = 0 ∷ [] })
      [] refl refl refl refl refl (inl refl) (omega arith)

abbrev caller : AuthContext
caller = record {
  mode = AuthMode.user;
  channel = codes "web";
  channel_user_id = codes "x";
  agent_id = none;
  channel_namespace = none;
}

abbrev users : UserStore
users = record {
  users =
      (codes "u", record { name = none; merged_into = none; created_at = 1; updated_at = 1 }) ∷ [];
  identities = ((codes "web", codes "x"), record { user_id = codes "u"; created_at = 1 }) ∷ [];
  user_agents = [];
  events = [];
}

abbrev rows : List PersistedSession
rows =
    record {
      session_id = session;
      source = record { kind = codes "web"; interactive = true; platform = none };
      status = none;
      created_at = 1;
      last_activity_at = 2;
      message_count = 3;
      description = none;
      last_message_preview = none;
      metadata = none;
      user_ids = codes "u" ∷ [];
    }
    ∷ []

abbrev greeting : SessionMessage
greeting = record {
  text = codes "hi";
  message_id = none;
  attachments = none;
  sender = none;
  metadata = none;
  mentioned = none;
}

abbrev to_session : Params
to_session = record {
  session_id = some session;
  spec = none;
  message = some greeting;
  approval = none;
  reason = none;
  query = record {
    kind = none;
    platform = none;
    interactive = none;
    limit = none;
    channel = none;
    metadata = none;
    include_inactive = false;
  };
  last_event_id = none;
}

handle_request-posts :
    handle_request (codes "a") users rows (some caller) Method.session_message to_session
    ≡ Action.posts session greeting
unfolding handle_request dispatch require_session_access verify_session_access get_session resolve
    get_agent_role lookup text_eq
handle_request-posts = refl

handle_request-MayReach_example :
    (a : AuthContext) × (some caller ≡ some a) × MayReach (codes "a") users rows a session
unfolding handle_request dispatch require_session_access verify_session_access get_session resolve
    get_agent_role lookup text_eq
handle_request-MayReach_example =
    handle_request-MayReach (codes "a") users rows (some caller) Method.session_message to_session
      session refl

abbrev connected : Socket
connected = add_subscription session 0 (record { subscriptions = []; broker = busy })

connected-Open : Open connected (busy.next_subscriber ∷ [])
unfolding lookup
connected-Open = Open.grants session 0 (Open.opened busy busy-Reach)

Open-IsTracked_example : IsTracked connected (busy.next_subscriber ∷ [])
Open-IsTracked_example = Open-IsTracked connected (busy.next_subscriber ∷ []) connected-Open

close-listens_example :
    ((t : Text) (n : ℕ)
      → has n (busy.next_subscriber ∷ []) ≡ true
      → listens t n (close connected).broker ≡ false)
    × (listens session
          (before_joining session (close connected)).next_subscriber
          (add_subscription session 0 (close connected)).broker
        ≡ true)
close-listens_example = close-listens connected (busy.next_subscriber ∷ []) session 0 connected-Open

abbrev to_post : Body
to_post = record {
  spec = none;
  message = some greeting;
  append_mode = false;
  approval = none;
  reason = none;
  query = to_session.query;
}

handle_route-posts :
    handle_route (codes "a") true users rows (some caller) post_message session to_post
    ≡ Answer.calls (Action.posts session greeting)
unfolding handle_route route require_session_access_http verify_session_access get_session resolve
    get_agent_role lookup text_eq
handle_route-posts = refl

handle_route-IsGuarded_example :
    ((t : Text)
      → reached
          (codes "a")
          users
          rows
          (handle_route (codes "a") true users rows (some caller) post_message session to_post)
        ≡ some t
      → (a : AuthContext) × (some caller ≡ some a)
        × IsGuarded (codes "a") users rows post_message a session to_post t)
    × ((action : Action)
        → handle_route (codes "a") true users rows (some caller) post_message session to_post
          ≡ Answer.calls action
        → (a : AuthContext) × (some caller ≡ some a) × IsOwnAgent (codes "a") a)
handle_route-IsGuarded_example =
    handle_route-IsGuarded (codes "a") true users rows (some caller) post_message session to_post
