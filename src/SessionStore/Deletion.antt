-- ===== src/SessionStore/Deletion.antt =====
-- `deleteSession` of apps/agent/src/agent-runner.ts: its errors, and what it leaves.
use mathlib.Core.Option
use openhermit.Prelude.{
  Text, text_eq, Bool, true, false, not, Option, none, some, or_else, List, [], ◌∷◌, ◌++◌, map,
  filter, some_of, ◌≡◌, ◌≢◌, if◌then◌else◌,
}
use openhermit.Users.{Pair, UserStore}
use openhermit.Auth.{present}
use openhermit.Sessions.{SessionStatus, running, PersistedSession}
use openhermit.Routes.{verified_caller}
use openhermit.SessionStore.{
  SessionEntry, SessionType, group, SessionRow, SessionStore, is_session, Progress, nothing,
  events_only, both, delete, get, row_to_entry,
}

-- The sessions that are in memory, the store, and the sessions of the events `session.closed`.
pub record Runner : Type 0 where
  pub active : List Text
  pub store : SessionStore
  pub closed : List Text

pub data DeleteError : Type 0 where
  missing is_group is_running database_error hook_error : DeleteError

-- The fields that the listing and the check of the caller read.
abbrev pub to_persisted : SessionEntry → PersistedSession
to_persisted e = record {
  session_id = e.session_id;
  source = record {
    kind = e.source_kind;
    interactive = e.source_interactive;
    platform = e.source_platform;
  };
  status = e.status;
  created_at = e.created_at;
  last_activity_at = e.last_activity_at;
  message_count = e.message_count;
  description = e.description;
  last_message_preview = e.last_message_preview;
  metadata = e.metadata;
  user_ids = or_else e.user_ids [];
}

-- The agent's own rows.
abbrev pub rows_of : Text → SessionStore → List PersistedSession
rows_of agent_id store =
    map (λ (r : Pair × SessionRow). to_persisted (row_to_entry r.0.1 r.1))
      (filter (λ (r : Pair × SessionRow). text_eq r.0.0 agent_id) store.sessions)

abbrev pub of_group : Option SessionType → Bool
of_group (some group) = true
of_group _ = false

abbrev pub in_progress : Option SessionStatus → Bool
in_progress (some running) = true
in_progress _ = false

abbrev pub inactivated : Text → Runner → Runner
inactivated session_id runner = record runner {
  active = filter (λ s. not (text_eq s session_id)) runner.active;
}

-- How the calls settle that are awaited once the checks are passed: how far the deletion in the store
-- comes, and whether the hooks of the event all return.
pub record Settled : Type 0 where
  pub progress : Progress
  pub hooks_return : Bool

abbrev pub deleted_to : Progress → Text → Text → Runner → Runner
deleted_to progress agent_id session_id runner = record (inactivated session_id runner) {
  store = delete progress agent_id session_id runner.store;
}

abbrev pub told : Text → Bool → Runner → Option DeleteError × Runner
told session_id hooks_return runner = (
  if hooks_return then none else some hook_error,
  record runner { closed = runner.closed ++ session_id ∷ [] },
)

-- Past the checks: out of memory first, then the store, then the event.
unfoldable pub removed : Progress → Bool → Text → Text → Runner → Option DeleteError × Runner
removed nothing hooks_return agent_id session_id runner =
    (some database_error, deleted_to nothing agent_id session_id runner)
removed events_only hooks_return agent_id session_id runner =
    (some database_error, deleted_to events_only agent_id session_id runner)
removed both hooks_return agent_id session_id runner =
    told session_id hooks_return (deleted_to both agent_id session_id runner)

unfoldable pub delete_entry :
    Settled → Text → Text → Runner → Option SessionEntry → Option DeleteError × Runner
unfolding removed
delete_entry settled agent_id session_id runner none = (some missing, runner)
delete_entry settled agent_id session_id runner (some e) =
    if of_group e.type
    then (some is_group, runner)
    else if in_progress e.status
    then (some is_running, runner)
    else removed settled.progress settled.hooks_return agent_id session_id runner

unfoldable pub delete_session :
    Settled → Text → UserStore → Text → Option Text → Runner → Option DeleteError × Runner
unfolding delete_entry
delete_session settled agent_id users session_id caller runner =
    if verified_caller agent_id users (rows_of agent_id runner.store) session_id (present caller)
    then delete_entry settled agent_id session_id runner (get agent_id session_id runner.store)
    else (some missing, runner)

-- What a session must be to be deleted.
pub record IsDeletable (agent_id : Text) (users : UserStore) (s : Text) (caller : Option Text)
    (runner : Runner) : Type 0 where
  pub may : verified_caller agent_id users (rows_of agent_id runner.store) s (present caller) ≡ true
  pub session : SessionEntry
  pub stored : get agent_id s runner.store ≡ some session
  pub alone : session.type ≢ some group
  pub still : session.status ≢ some running

pub record IsGone (agent_id s : Text) (before after : Runner) : Type 0 where
  pub unread : get agent_id s after.store ≡ none
  pub others :
      (b t : Text)
      → is_session agent_id s (b, t) ≡ false
      → get b t after.store ≡ get b t before.store
  pub no_events : some_of (λ e. is_session agent_id s e.0) after.store.events ≡ false
  pub not_active : some_of (λ i. text_eq i s) after.active ≡ false
  pub told : after.closed ≡ before.closed ++ s ∷ []

-- Where the store throws: the session is out of memory, but every row is there as it was.
pub record IsHalfGone (s : Text) (before after : Runner) : Type 0 where
  pub kept : (b t : Text) → get b t after.store ≡ get b t before.store
  pub half_active : some_of (λ i. text_eq i s) after.active ≡ false
  pub untold : after.closed ≡ before.closed

-- What a session that was deletable has come to.
abbrev pub Removal : Progress → Bool → Text → Text → Runner → Option DeleteError × Runner → Type 0
Removal both hooks_return agent_id s before r =
    (r.0 ≡ (if hooks_return then none else some hook_error)) × IsGone agent_id s before r.1
Removal _ hooks_return agent_id s before r = (r.0 ≡ some database_error) × IsHalfGone s before r.1
