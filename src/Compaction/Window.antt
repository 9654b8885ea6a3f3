-- ===== src/Compaction/Window.antt =====
-- `compactContextIfNeeded` of apps/agent/src/agent-runner/context-compaction.ts. The store of summaries
-- and the agent that writes one are parameters; a call of theirs may throw.
pub mod Retained
pub mod Shrinks
use openhermit.Prelude.{
  ℕ, zero, suc, ◌+◌, ◌-◌, max, min, Text, truthy, leb, ltb, Bool, true, false, ◌&&◌, Option, none,
  some, List, [], ◌∷◌, ◌++◌, length, take, drop, or_else, if◌then◌else◌,
}
use openhermit.Compaction.{
  AgentMessage, user_text, user, assistant, tool_result, json, estimate_messages_tokens,
}
use openhermit.Compaction.Summary.{
  summary_lines, SummaryJson, parse_compaction_summary_response, request_text,
  build_context_compaction_block,
}

abbrev pub message_at : List AgentMessage → ℕ → Option AgentMessage
message_at [] i = none
message_at (m ∷ messages) zero = some m
message_at (m ∷ messages) (suc i) = message_at messages i

abbrev pub is_tool_result : Option AgentMessage → Bool
is_tool_result (some (tool_result name items)) = true
is_tool_result _ = false

abbrev pub is_assistant : Option AgentMessage → Bool
is_assistant (some (assistant items)) = true
is_assistant _ = false

-- Where the two messages belong together the window starts one earlier; at 0 it starts there.
abbrev pub start_before : List AgentMessage → ℕ → ℕ
start_before messages zero = 0
start_before messages (suc i) =
    if is_tool_result (message_at messages (suc i)) && is_assistant (message_at messages i)
    then i
    else suc i

unfoldable pub get_compaction_retained_start_index : List AgentMessage → ℕ → ℕ
get_compaction_retained_start_index messages retain_count =
    start_before messages (length messages - retain_count)

-- The loops over the number of retained messages, by whether a number fits the budget.
module _ (fits : ℕ → Bool) where
  unfoldable pub shrink : ℕ → ℕ
  shrink zero = 0
  shrink (suc zero) = 1
  shrink (suc (suc r)) =
      let fewer = shrink (suc r) in if fits (suc (suc r)) then suc (suc r) else fewer

  -- `more` counts the messages that are not retained yet.
  unfoldable pub expand : ℕ → ℕ → ℕ
  expand zero r = r
  expand (suc more) r = let wider = expand more (r + 1) in if fits (r + 1) then wider else r

  unfoldable pub choose_retain_count : ℕ → ℕ → ℕ
  choose_retain_count total recent =
      let shrunk = shrink (min recent total) in expand (total - shrunk) shrunk

pub record CompactionOptions : Type 0 where
  pub max_tokens : ℕ
  pub recent_message_count : ℕ
  pub summary_max_chars : ℕ

-- `getContextCompactionMaxTokens`, from what the options, the configuration and the model say.
unfoldable pub get_max_tokens : Option ℕ → ℕ → ℕ → ℕ → ℕ
get_max_tokens (some n) config_max model_max context_window = n
get_max_tokens none config_max model_max context_window =
    max 2048 (context_window - max config_max (min model_max 1024) - 2048)

-- The summary that is persisted, and whether reading and writing it throws.
pub record SummaryStore : Type 0 where
  pub saved : Option Text
  pub get_throws : Bool
  pub set_throws : Bool

-- The agent that answers a request, if there is a factory of such agents: `none` where a call of it
-- throws, `some none` where there is no answer.
pub record CompactionDeps : Type 0 where
  pub options : CompactionOptions
  pub agent : Option (Text → Option (Option Text))
  pub parse : Text → SummaryJson

pub record Compacted : Type 0 where
  pub messages : List AgentMessage
  pub store : SummaryStore

abbrev pub retained_block : Option AgentMessage → List AgentMessage
retained_block none = []
retained_block (some m) = m ∷ []

-- `buildCandidate`
unfoldable pub build_candidate :
    List AgentMessage → List AgentMessage → ℕ → Option Text → ℕ → List AgentMessage
build_candidate blocks messages summary_max llm_summary retain_count =
    let start = get_compaction_retained_start_index messages retain_count in
    blocks
    ++ (retained_block (
          build_context_compaction_block summary_max llm_summary (take start messages)
            (length (drop start messages)))
        ++ drop start messages)

-- `setCompactionSummary` on a summary that is not empty. Where it throws the summary stays in use.
abbrev save : Option Text → SummaryStore → (Option Text) × SummaryStore
save none store = (none, store)
save (some s) store = (
  some s,
  if truthy s then (if store.set_throws then store else record store { saved = some s }) else store,
)

abbrev answered :
    (Text → SummaryJson) → SummaryStore → Option (Option Text) → (Option Text) × SummaryStore
answered parse store none = (none, store)
answered parse store (some response) = save (parse_compaction_summary_response parse response) store

-- `runCompactionSummaryTurn`; with no line to summarize no agent is asked.
abbrev run_compaction_summary_turn :
    (Text → Option (Option Text))
    → (Text → SummaryJson)
    → Text
    → SummaryStore
    → List Text
    → (Option Text) × SummaryStore
run_compaction_summary_turn agent parse session_id store [] = (none, store)
run_compaction_summary_turn agent parse session_id store (l ∷ lines) =
    answered parse store (agent (request_text session_id store.saved (l ∷ lines)))

-- The summary for the compacted messages and what is persisted then.
abbrev pub llm_summary_for :
    CompactionDeps
    → Text
    → SummaryStore
    → List AgentMessage
    → Option (Text → Option (Option Text))
    → (Option Text) × SummaryStore
llm_summary_for deps session_id store [] agent = (none, store)
llm_summary_for deps session_id store (m ∷ compacted) none =
    (if store.get_throws then none else store.saved, store)
llm_summary_for deps session_id store (m ∷ compacted) (some agent) =
    if store.get_throws
    then (none, store)
    else run_compaction_summary_turn agent deps.parse session_id store
        (summary_lines (m ∷ compacted))

abbrev pub fits_budget : CompactionDeps → List AgentMessage → List AgentMessage → ℕ → Bool
fits_budget deps blocks messages retain_count =
    leb
      (estimate_messages_tokens
        (build_candidate blocks messages deps.options.summary_max_chars none retain_count))
      deps.options.max_tokens

abbrev pub chosen : CompactionDeps → List AgentMessage → List AgentMessage → ℕ
chosen deps blocks messages =
    choose_retain_count (fits_budget deps blocks messages) (length messages)
      deps.options.recent_message_count

-- The candidate with the summary, where it is smaller than what there was.
abbrev pub smaller_or : List AgentMessage → List AgentMessage → List AgentMessage
smaller_or combined compacted =
    if leb (estimate_messages_tokens combined) (estimate_messages_tokens compacted)
    then combined
    else compacted

abbrev pub compact_with :
    CompactionDeps
    → List AgentMessage
    → List AgentMessage
    → ℕ
    → (Option Text) × SummaryStore
    → Compacted
compact_with deps blocks messages retain_count (llm_summary, store) = record {
  messages =
      smaller_or (blocks ++ messages)
        (build_candidate blocks messages deps.options.summary_max_chars llm_summary retain_count);
  store = store;
}

unfoldable pub compact :
    CompactionDeps → Text → SummaryStore → List AgentMessage → List AgentMessage → ℕ → Compacted
compact deps session_id store blocks messages retain_count =
    compact_with deps blocks messages retain_count (
      llm_summary_for deps session_id store
        (take (get_compaction_retained_start_index messages retain_count) messages) deps.agent)

unfoldable pub compact_context_if_needed :
    CompactionDeps → Text → SummaryStore → List AgentMessage → List AgentMessage → Compacted
compact_context_if_needed deps session_id store blocks messages =
    if leb (length messages) 1
    then record { messages = blocks ++ messages; store = store }
    else if leb (estimate_messages_tokens (blocks ++ messages)) deps.options.max_tokens
    then record { messages = blocks ++ messages; store = store }
    else compact deps session_id store blocks messages (chosen deps blocks messages)
