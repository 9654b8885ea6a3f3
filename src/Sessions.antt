-- ===== src/Sessions.antt =====
-- apps/agent/src/session-utils.ts and apps/agent/src/agent-runner/session-index.ts: the listing of an
-- agent's sessions, with the listing of apps/agent/src/agent-runner.ts and the query of
-- packages/store/src/impl/session-store.ts under it. Metadata values are their texts, `String(value)`;
-- instants are milliseconds, in the order of the ISO texts that the program compares.
pub mod Listing
pub mod Described
use openhermit.Prelude.{
  ℕ, Text, codes, text_eq, text_keys, truthy, starts_with, leb, ltb, Bool, true, false, not, ◌&&◌,
  ◌||◌, Option, none, some, is_some, or_else, List, [], ◌∷◌, ◌++◌, lookup, filter, every, some_of,
  map, take, if◌then◌else◌,
}

pub data SessionStatus : Type 0 where
  idle running awaiting_approval inactive : SessionStatus

pub record SessionSource : Type 0 where
  pub kind : Text
  pub interactive : Bool
  pub platform : Option Text

pub record PersistedSession : Type 0 where
  pub session_id : Text
  pub source : SessionSource
  pub status : Option SessionStatus
  pub created_at : ℕ
  pub last_activity_at : ℕ
  pub message_count : ℕ
  pub description : Option Text
  pub last_message_preview : Option Text
  pub metadata : Option (List (Text × Text))
  pub user_ids : List Text

pub record SessionSummary : Type 0 where
  pub session_id : Text
  pub source : SessionSource
  pub created_at : ℕ
  pub last_activity_at : ℕ
  pub last_event_id : ℕ
  pub message_count : ℕ
  pub description : Option Text
  pub last_message_preview : Option Text
  pub status : SessionStatus
  pub metadata : Option (List (Text × Text))

pub record SessionListQuery : Type 0 where
  pub kind : Option Text
  pub platform : Option Text
  pub interactive : Option Bool
  pub limit : Option ℕ
  pub channel : Option Text
  pub metadata : Option (List (Text × Text))
  pub include_inactive : Bool

-- `x ? [x] : []`, for a text that may be missing or empty
abbrev pub present : Option Text → Option Text
present none = none
present (some s) = if truthy s then some s else none

-- A condition of a query on an optional text.
abbrev pub wanted : Option Text → (Text → Bool) → Bool
wanted none f = true
wanted (some s) f = if truthy s then f s else true

abbrev is_text : Option Text → Text → Bool
is_text none s = false
is_text (some t) s = text_eq t s

abbrev bool_eq : Bool → Bool → Bool
bool_eq true b = b
bool_eq false b = not b

abbrev wanted_flag : Option Bool → Bool → Bool
wanted_flag none b = true
wanted_flag (some a) b = bool_eq b a

-- `String(meta[key] ?? '') === value` for every condition
abbrev metadata_has : List (Text × Text) → List (Text × Text) → Bool
metadata_has conditions meta =
    every (λ c. text_eq (or_else (lookup text_keys c.0 meta) []) c.1) conditions

abbrev wanted_metadata : Option (List (Text × Text)) → Option (List (Text × Text)) → Bool
wanted_metadata none meta = true
wanted_metadata (some conditions) none = false
wanted_metadata (some conditions) (some meta) = metadata_has conditions meta

unfoldable pub matches_session_list_query : SessionSummary → SessionListQuery → Bool
matches_session_list_query summary query =
    wanted query.kind (λ k. text_eq summary.source.kind k)
    && wanted query.platform (λ p. is_text summary.source.platform p)
    && wanted_flag query.interactive summary.source.interactive
    && wanted query.channel (λ c. starts_with summary.session_id (c ++ codes ":"))
    && wanted_metadata query.metadata summary.metadata

-- `sort(sortSessionSummaries)`: the last activity first; the sort is stable.
unfoldable pub insert_summary : SessionSummary → List SessionSummary → List SessionSummary
insert_summary s [] = s ∷ []
insert_summary s (t ∷ ts) =
    let rest = insert_summary s ts in
    if leb t.last_activity_at s.last_activity_at then s ∷ t ∷ ts else t ∷ rest

unfoldable pub sort_summaries : List SessionSummary → List SessionSummary
sort_summaries [] = []
sort_summaries (s ∷ ss) = insert_summary s (sort_summaries ss)

module _ (last_event_id : Text → ℕ) where
  abbrev pub to_summary : PersistedSession → SessionSummary
  to_summary s = record {
    session_id = s.session_id;
    source = s.source;
    created_at = s.created_at;
    last_activity_at = s.last_activity_at;
    last_event_id = last_event_id s.session_id;
    message_count = s.message_count;
    description = present s.description;
    last_message_preview = present s.last_message_preview;
    status = or_else s.status idle;
    metadata = s.metadata;
  }

  unfoldable pub build_session_summaries :
      List PersistedSession → SessionListQuery → List SessionSummary
  build_session_summaries rows query =
      sort_summaries (filter (λ s. matches_session_list_query s query) (map to_summary rows))

-- The rows of `DbSessionStore.list`, in the order of the table.
abbrev is_inactive : Option SessionStatus → Bool
is_inactive (some inactive) = true
is_inactive _ = false

abbrev pub takes_part : Option Text → PersistedSession → Bool
takes_part none s = true
takes_part (some user) s = if truthy user then some_of (λ u. text_eq u user) s.user_ids else true

unfoldable pub list_rows : List PersistedSession → Option Text → Bool → List PersistedSession
list_rows rows user include_inactive =
    filter (λ s. (include_inactive || not (is_inactive s.status)) && takes_part user s) rows

abbrev pub limited : Option ℕ → List SessionSummary → List SessionSummary
limited none summaries = summaries
limited (some n) summaries = take n summaries

-- `AgentRunner.listSessions`
unfoldable pub list_sessions :
    List PersistedSession → (Text → ℕ) → SessionListQuery → Option Text → List SessionSummary
list_sessions rows last_event_id query caller =
    limited query.limit
      (build_session_summaries last_event_id (list_rows rows caller query.include_inactive) query)
