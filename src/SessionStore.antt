-- ===== src/SessionStore.antt =====
-- packages/store/src/impl/session-store.ts: the rows of the sessions, as the operations that write
-- leave them, and what is read of them. The columns of texts hold values of the types that the program
-- writes there; metadata values are their texts; instants are milliseconds, in the order of the ISO
-- texts. The two columns of the working memory are not among them: no operation here reads or sets them.
pub mod Writes
pub mod Deletion
use mathlib.Core.Option
use openhermit.Prelude.{
  ℕ, Text, text_eq, ltb, Bool, true, false, not, ◌&&◌, Option, none, some, or_else, List, [], ◌∷◌,
  ◌+◌, ◌==◌, lookup, insert, filter, if◌then◌else◌,
}
use openhermit.Users.{Pair, pair_keys}
use openhermit.Sessions.{SessionStatus, idle, inactive}

pub data SessionType : Type 0 where
  direct group : SessionType

pub data DescriptionSource : Type 0 where
  fallback ai : DescriptionSource

-- `PersistedSessionIndexEntry`, the fields of its source with it.
pub record SessionEntry : Type 0 where
  pub session_id : Text
  pub source_kind : Text
  pub source_interactive : Bool
  pub source_platform : Option Text
  pub source_type : Option SessionType
  pub status : Option SessionStatus
  pub created_at : ℕ
  pub last_activity_at : ℕ
  pub message_count : ℕ
  pub completed_turn_count : Option ℕ
  pub description : Option Text
  pub description_source : Option DescriptionSource
  pub last_message_preview : Option Text
  pub metadata : Option (List (Text × Text))
  pub type : Option SessionType
  pub user_ids : Option (List Text)

-- The columns `immutable` of a row, and its columns `runtime`.
pub record Identity : Type 0 where
  pub source_kind : Text
  pub source_platform : Option Text
  pub interactive : ℕ
  pub created_at : ℕ
  pub type : SessionType

pub record Runtime : Type 0 where
  pub last_activity_at : ℕ
  pub description : Option Text
  pub description_source : Option DescriptionSource
  pub message_count : ℕ
  pub completed_turn_count : ℕ
  pub last_message_preview : Option Text
  pub metadata : List (Text × Text)
  pub status : SessionStatus
  pub user_ids : List Text

pub record SessionRow : Type 0 where
  pub identity : Identity
  pub runtime : Runtime

-- The rows under the agent and the session, and the events of the sessions by the same pair.
pub record SessionStore : Type 0 where
  pub sessions : List (Pair × SessionRow)
  pub events : List (Pair × Text)

abbrev pub type_of : Option SessionType → Option SessionType → SessionType
type_of none source_type = or_else source_type direct
type_of (some type) source_type = type

abbrev pub immutable : SessionEntry → Identity
immutable e = record {
  source_kind = e.source_kind;
  source_platform = e.source_platform;
  interactive = if e.source_interactive then 1 else 0;
  created_at = e.created_at;
  type = type_of e.type e.source_type;
}

abbrev pub runtime_of : SessionEntry → Runtime
runtime_of e = record {
  last_activity_at = e.last_activity_at;
  description = e.description;
  description_source = e.description_source;
  message_count = e.message_count;
  completed_turn_count = or_else e.completed_turn_count 0;
  last_message_preview = e.last_message_preview;
  metadata = or_else e.metadata [];
  status = or_else e.status idle;
  user_ids = or_else e.user_ids [];
}

-- On a conflict only the runtime columns are set.
abbrev pub upserted : SessionEntry → Option SessionRow → SessionRow
upserted e none = record { identity = immutable e; runtime = runtime_of e }
upserted e (some row) = record row { runtime = runtime_of e }

unfoldable pub upsert : Text → SessionEntry → SessionStore → SessionStore
upsert agent_id e store = record store {
  sessions =
      insert pair_keys (agent_id, e.session_id)
        (upserted e (lookup pair_keys (agent_id, e.session_id) store.sessions)) store.sessions;
}

-- `update sessions set … where …`
unfoldable pub update_where :
    (Pair → SessionRow → Bool)
    → (Runtime → Runtime)
    → List (Pair × SessionRow)
    → List (Pair × SessionRow)
update_where test f [] = []
update_where test f ((key, row) ∷ rows) =
    let rest = update_where test f rows in
    if test key row then (key, record row { runtime = f row.runtime }) ∷ rest else (key, row) ∷ rest

abbrev pub is_session : Text → Text → Pair → Bool
is_session agent_id session_id key = text_eq key.0 agent_id && text_eq key.1 session_id

unfoldable pub update_description :
    Text → Text → Text → DescriptionSource → SessionStore → SessionStore
unfolding update_where
update_description agent_id session_id description source store = record store {
  sessions =
      update_where (λ key row. is_session agent_id session_id key)
        (λ r. record r { description = some description; description_source = some source })
        store.sessions;
}

unfoldable pub update_status : Text → Text → SessionStatus → SessionStore → SessionStore
unfolding update_where
update_status agent_id session_id status store = record store {
  sessions =
      update_where (λ key row. is_session agent_id session_id key)
        (λ r. record r { status = status }) store.sessions;
}

-- How far `delete` comes before one of its two statements throws, if one does: they are no transaction.
pub data Progress : Type 0 where
  nothing events_only both : Progress

unfoldable pub delete_events : Text → Text → SessionStore → SessionStore
delete_events agent_id session_id store = record store {
  events = filter (λ e. not (is_session agent_id session_id e.0)) store.events;
}

unfoldable pub delete_rows : Text → Text → SessionStore → SessionStore
delete_rows agent_id session_id store = record store {
  sessions = filter (λ row. not (is_session agent_id session_id row.0)) store.sessions;
}

unfoldable pub delete : Progress → Text → Text → SessionStore → SessionStore
unfolding delete_events delete_rows
delete nothing agent_id session_id store = store
delete events_only agent_id session_id store = delete_events agent_id session_id store
delete both agent_id session_id store =
    delete_rows agent_id session_id (delete_events agent_id session_id store)

abbrev pub is_inactive : SessionStatus → Bool
is_inactive inactive = true
is_inactive _ = false

abbrev pub is_stale : Text → ℕ → Pair → SessionRow → Bool
is_stale agent_id older_than key row =
    text_eq key.0 agent_id
    && not (is_inactive row.runtime.status)
    && ltb row.runtime.last_activity_at older_than

unfoldable pub count_where : (Pair → SessionRow → Bool) → List (Pair × SessionRow) → ℕ
count_where test [] = 0
count_where test ((key, row) ∷ rows) =
    let rest = count_where test rows in if test key row then 1 + rest else rest

unfoldable pub mark_stale_inactive : Text → ℕ → SessionStore → ℕ × SessionStore
unfolding update_where count_where
mark_stale_inactive agent_id older_than store = (
  count_where (is_stale agent_id older_than) store.sessions,
  record store {
    sessions =
        update_where (is_stale agent_id older_than) (λ r. record r { status = inactive })
          store.sessions;
  },
)

abbrev pub given_type : SessionType → Option SessionType
given_type direct = none
given_type group = some group

abbrev pub unless_empty {ℓ} : {A : Type ℓ} → List A → Option (List A)
unless_empty [] = none
unless_empty (x ∷ xs) = some (x ∷ xs)

abbrev pub row_to_entry : Text → SessionRow → SessionEntry
row_to_entry session_id row = record {
  session_id = session_id;
  source_kind = row.identity.source_kind;
  source_interactive = row.identity.interactive == 1;
  source_platform = row.identity.source_platform;
  source_type = given_type row.identity.type;
  status = some row.runtime.status;
  created_at = row.identity.created_at;
  last_activity_at = row.runtime.last_activity_at;
  message_count = row.runtime.message_count;
  completed_turn_count = some row.runtime.completed_turn_count;
  description = row.runtime.description;
  description_source = row.runtime.description_source;
  last_message_preview = row.runtime.last_message_preview;
  metadata = unless_empty row.runtime.metadata;
  type = given_type row.identity.type;
  user_ids = unless_empty row.runtime.user_ids;
}

unfoldable pub get : Text → Text → SessionStore → Option SessionEntry
get agent_id session_id store =
    Option.map (row_to_entry session_id) (lookup pair_keys (agent_id, session_id) store.sessions)
