-- ===== src/Tests/Identities.antt =====
-- Identities: the tokens of requests, the channel keys, the link tokens, the users and their sessions.
use mathlib.Core.Option
use openhermit.Prelude.{
  ℕ, Text, codes, text_eq, text_eq_iff, ◌+◌, text_keys, starts_with, lookup, insert, leb, true,
  false, Option, none, some, [], ◌∷◌, ◌++◌, ◌≡◌, ◌≢◌, ◌↔◌, inl, refl, some_of, if◌then◌else◌,
}
use openhermit.Auth.{AuthContext, AuthMode, JwtPayload, Request, resolve_auth, bearer_token}
use openhermit.Auth.Justified.{IsJustified, resolve_auth_iff}
use openhermit.Auth.Registry.{
  ChannelRegistration, ChannelRegistry, register, unregister, unregister_by_agent, resolve_by_key,
  resolve_by_id,
}
use openhermit.Auth.Registry.Reached.{here, registers, unregisters, leaves, Reach-IsSynced}
use openhermit.Auth.Registry.Synced.{IsSynced, register-IsSynced}
use openhermit.LinkTokens.{
  LinkParams, Pending, token_ttl_ms, link_for, fresh_token, issue_link_token, consume_link_token,
}
use openhermit.LinkTokens.Once.{consume-issue}
use openhermit.Policy.{UserRole}
use openhermit.Users.{
  UserRecord, UserStore, joined, resolve, merge, drop_agents, move_agents, link_identity,
  get_agent_role,
}
use openhermit.Users.Linked.{link_identity-resolve}
use openhermit.Sessions.{
  PersistedSession, SessionListQuery, to_summary, list_sessions, build_session_summaries, list_rows,
  sort_summaries, insert_summary, matches_session_list_query,
}
use openhermit.Sessions.Listing.{
  IsOf, list_sessions_for_caller, list_sessions_for_caller-user, list_sessions_for_caller-channel,
}

-- A verification that accepts one token.
abbrev verify : Text → Option JwtPayload
verify token =
    if text_eq token (codes "jwt")
    then some (record {
      sub = some (codes "x");
      channel = some (codes "web");
      channel_user_id = some (codes "x");
    })
    else none

abbrev registration : Text → ChannelRegistration
registration key = record {
  channel_id = codes "tg";
  api_key = key;
  namespace = none;
  agent_id = codes "a";
}

abbrev no_channels : ChannelRegistry
no_channels = record { by_key = []; by_id = [] }

abbrev jwt_request : Request
jwt_request = record { authorization = some (codes "Bearer jwt"); query_token = none }

abbrev web_user : AuthContext
web_user = record {
  mode = AuthMode.user;
  channel = codes "web";
  channel_user_id = codes "x";
  agent_id = none;
  channel_namespace = none;
}

resolve_auth_iff_example :
    (resolve_auth verify (some (codes "secret")) no_channels jwt_request ≡ some web_user) ↔ (
      (token : Text) × (bearer_token jwt_request ≡ some token)
      × IsJustified verify (some (codes "secret")) no_channels token web_user)
resolve_auth_iff_example =
    resolve_auth_iff verify (some (codes "secret")) no_channels jwt_request web_user

no_channels-IsSynced : IsSynced no_channels
unfolding resolve_by_key lookup
no_channels-IsSynced = record { at_key = λ k r h. absurd (cc h) }

abbrev channel_left : ChannelRegistry
channel_left =
    unregister_by_agent (codes "a")
      (unregister (codes "no") (register (registration (codes "k")) no_channels))

Reach-IsSynced_example : IsSynced channel_left
unfolding resolve_by_id lookup
Reach-IsSynced_example =
    Reach-IsSynced (
      leaves (codes "a")
        (unregisters (codes "no") (registers (registration (codes "k")) here refl)))

keys_differ : (registration (codes "new")).api_key ≢ (registration (codes "old")).api_key
unfolding text_eq
keys_differ h = absurd (cc ((text_eq_iff (codes "new") (codes "old")).1 h))

abbrev elsewhere : ChannelRegistration
elsewhere = record (registration (codes "k")) { agent_id = codes "b" }

elsewhere-IsSynced : IsSynced (register elsewhere no_channels)
unfolding resolve_by_id lookup
elsewhere-IsSynced = register-IsSynced elsewhere no_channels no_channels-IsSynced refl

abbrev params : LinkParams
params = record { user_id = codes "u"; channel = codes "tg"; channel_user_id = codes "7" }

abbrev taken : Pending
taken = (codes "t1", link_for params 0) ∷ []

-- The first token that is drawn is taken.
consume-issue_example :
    ((consume_link_token
        (codes "t2")
        500
        ((codes "t1", link_for params 0) ∷ (codes "t2", link_for params 10) ∷ [])).0
      ≡ (if leb (10 + token_ttl_ms) 500 then none else some (link_for params 10)))
    × ((consume_link_token
          (codes "t2")
          600
          (consume_link_token
            (codes "t2")
            500
            ((codes "t1", link_for params 0) ∷ (codes "t2", link_for params 10) ∷ [])).1).0
        ≡ none)
unfolding issue_link_token fresh_token lookup insert text_eq
consume-issue_example =
    consume-issue (codes "t1" ∷ codes "t2" ∷ []) 10 500 600 params taken
      ((codes "t1", link_for params 0) ∷ (codes "t2", link_for params 10) ∷ []) (codes "t2") 600010
      refl

abbrev user_row : UserRecord
user_row = record { name = none; merged_into = none; created_at = 1; updated_at = 1 }

-- Two users: one with an identity on a channel and a role on an agent, one with nothing.
abbrev two_users : UserStore
two_users = record {
  users = (codes "u", user_row) ∷ (codes "v", user_row) ∷ [];
  identities = ((codes "tg", codes "7"), record { user_id = codes "u"; created_at = 1 }) ∷ [];
  user_agents = ((codes "u", codes "a"), record { role = UserRole.owner; created_at = 1 }) ∷ [];
  events = some (codes "u") ∷ [];
}

role_moves :
    get_agent_role (codes "a") (codes "v") (merge (codes "u") (codes "v") two_users)
    ≡ some UserRole.owner
unfolding get_agent_role merge drop_agents move_agents lookup insert text_eq
role_moves = refl

link_identity-resolve_example :
    (resolve
        (codes "tg")
        (codes "7")
        (link_identity (codes "v") (codes "tg") (codes "7") 2 two_users)
      ≡ Option.map (joined (codes "v")) (lookup text_keys (codes "v") two_users.users))
    × (resolve
          (codes "tg")
          (codes "8")
          (link_identity (codes "v") (codes "tg") (codes "7") 2 two_users)
        ≡ resolve (codes "tg") (codes "8") two_users)
unfolding text_eq
link_identity-resolve_example =
    link_identity-resolve (codes "v") (codes "tg") (codes "7") 2 two_users (codes "tg") (codes "8")
      refl

abbrev session_row : PersistedSession
session_row = record {
  session_id = codes "tg:1";
  source = record { kind = codes "channel"; interactive = true; platform = none };
  status = none;
  created_at = 1;
  last_activity_at = 2;
  message_count = 3;
  description = none;
  last_message_preview = none;
  metadata = none;
  user_ids = codes "u" ∷ [];
}

abbrev every_session : SessionListQuery
every_session = record {
  kind = none;
  platform = none;
  interactive = none;
  limit = none;
  channel = none;
  metadata = none;
  include_inactive = false;
}

abbrev no_events : Text → ℕ
no_events id = 0

abbrev resolve_all : Text → Text → Option Text
resolve_all channel id = some (codes "u")

list_sessions_for_caller-user_example :
    (id : Text) × (resolve_all web_user.channel web_user.channel_user_id ≡ some id)
    × IsOf no_events
        (to_summary no_events session_row)
        (session_row ∷ [])
        (λ s. some_of (λ u. text_eq u id) s.user_ids ≡ true)
unfolding list_sessions_for_caller list_sessions build_session_summaries list_rows sort_summaries
    insert_summary matches_session_list_query text_eq
list_sessions_for_caller-user_example =
    list_sessions_for_caller-user no_events (session_row ∷ []) resolve_all web_user every_session
      (to_summary no_events session_row) refl (inl refl)

abbrev channel_caller : AuthContext
channel_caller = record web_user { mode = AuthMode.channel; channel_namespace = some (codes "tg") }

list_sessions_for_caller-channel_example :
    starts_with (codes "tg:1") (codes "tg" ++ codes ":") ≡ true
unfolding list_sessions_for_caller list_sessions build_session_summaries list_rows sort_summaries
    insert_summary matches_session_list_query text_eq starts_with
list_sessions_for_caller-channel_example =
    list_sessions_for_caller-channel no_events (session_row ∷ []) none channel_caller every_session
      (codes "tg") (to_summary no_events session_row) refl refl refl refl (inl refl)
