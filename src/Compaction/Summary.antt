-- ===== src/Compaction/Summary.antt =====
-- The texts that stand for compacted messages in apps/agent/src/agent-runner/context-compaction.ts: the line
-- of a message, the request to the language model and its answer, and the block of the context.
-- The language model and the parser of JSON are parameters.
use openhermit.Prelude.{
  ℕ, ◌+◌, ◌-◌, Text, codes, starts_with, truthy, decimal, join_with, ltb, false, ◌&&◌, Option, none,
  some, List, [], ◌∷◌, ◌++◌, length, take, drop, map, if◌then◌else◌, or_else,
}
use openhermit.Policy.Commands.{trim, trim_start, trim_end, collapse}
use openhermit.Compaction.{
  Item, text, thinking, tool_call, image, other, AgentMessage, user_text, user, assistant,
  tool_result, json,
}

-- The texts and the names of the tool calls of a content, in order.
unfoldable pub texts_of : List Item → List Text
texts_of [] = []
texts_of (text s ∷ items) = s ∷ texts_of items
texts_of (thinking s ∷ items) = texts_of items
texts_of (tool_call name arguments ∷ items) = texts_of items
texts_of (image ∷ items) = texts_of items
texts_of (other s ∷ items) = texts_of items

unfoldable pub tool_names : List Item → List Text
tool_names [] = []
tool_names (text s ∷ items) = tool_names items
tool_names (thinking s ∷ items) = tool_names items
tool_names (tool_call name arguments ∷ items) = name ∷ tool_names items
tool_names (image ∷ items) = tool_names items
tool_names (other s ∷ items) = tool_names items

-- `s.replace(/\s+/g, ' ').trim()`
abbrev pub normalized : Text → Text
normalized s = trim (collapse false s)

abbrev user_line : Text → Option Text
user_line s = if truthy (normalized s) then some (codes "User: " ++ normalized s) else none

abbrev assistant_line : Text → Text → Option Text
assistant_line s tools =
    if truthy (normalized s)
    then some (codes "Agent: " ++ normalized s)
    else if truthy tools
    then some (codes "Agent used tools: " ++ tools)
    else none

abbrev tool_line : Text → Text → Option Text
tool_line name s =
    if truthy (normalized s)
    then some (codes "Tool " ++ (name ++ (codes ": " ++ normalized s)))
    else some (codes "Tool " ++ (name ++ codes " completed."))

abbrev pub spaced : List Item → Text
spaced items = join_with (codes " ") (texts_of items)

unfoldable pub summarize_message : AgentMessage → Option Text
summarize_message (user_text s) = user_line s
summarize_message (user items) = user_line (spaced items)
summarize_message (assistant items) =
    assistant_line (spaced items) (join_with (codes ", ") (tool_names items))
summarize_message (tool_result name items) = tool_line name (spaced items)
summarize_message (json s) = none

abbrev keep_line : Option Text → List Text → List Text
keep_line none lines = lines
keep_line (some s) lines = if truthy s then s ∷ lines else lines

-- `messages.map(summarizeMessageForCompaction).filter(Boolean)`
unfoldable pub summary_lines : List AgentMessage → List Text
summary_lines [] = []
summary_lines (m ∷ messages) = keep_line (summarize_message m) (summary_lines messages)

abbrev pub transcript_max : ℕ
transcript_max = 16000

abbrev previous_parts : Option Text → List Text
previous_parts none = []
previous_parts (some s) =
    if truthy s then codes "Previous compaction summary (incorporate and update):" ∷ s ∷ [] else []

-- The text of the request, from the lines of the compacted messages.
abbrev pub request_text : Text → Option Text → List Text → Text
request_text session_id previous lines = join_with (codes "\n\n") (
    (codes "Session: " ++ session_id)
    ∷ (previous_parts previous
        ++ (codes "Compacted messages to summarize:"
            ∷ take transcript_max (join_with (codes "\n") lines)
            ∷ [])))

-- What `JSON.parse` makes of a text, as far as it is read: it throws or gives null, or a value without
-- a text under `compactionSummary`, or that text.
pub data SummaryJson : Type 0 where
  no_json no_summary : SummaryJson
  summary : Text → SummaryJson

abbrev fence : Text
fence = codes "```"

abbrev lower : ℕ → ℕ
lower c = if ltb 64 c && ltb c 91 then c + 32 else c

-- After the opening fence: the word `json`, in either case, and white space.
abbrev after_fence : Text → Text
after_fence s =
    if starts_with (map lower (take 4 s)) (codes "json")
    then trim_start (drop 4 s)
    else trim_start s

abbrev drop_fence : Text → Text
drop_fence s =
    if starts_with (drop (length s - 3) s) fence then trim_end (take (length s - 3) s) else s

abbrev pub json_text : Text → Text
json_text trimmed =
    if starts_with trimmed fence then trim (drop_fence (after_fence (drop 3 trimmed))) else trimmed

abbrev present : Text → Option Text
present s = if truthy s then some s else none

abbrev parsed : Text → SummaryJson → Option Text
parsed trimmed no_json = present trimmed
parsed trimmed no_summary = none
parsed trimmed (summary s) = present (trim s)

unfoldable pub parse_compaction_summary_response : (Text → SummaryJson) → Option Text → Option Text
parse_compaction_summary_response parse none = none
parse_compaction_summary_response parse (some response) =
    if truthy response then parsed (trim response) (parse (json_text (trim response))) else none

abbrev summary_parts : Option Text → List Text
summary_parts none = []
summary_parts (some s) = if truthy s then s ∷ [] ∷ [] else []

abbrev history_text : Text → Text
history_text history =
    if truthy history then codes "- " ++ history else codes "- (no compactable text)"

abbrev last_lines : List Text → List Text
last_lines lines = drop (length lines - 12) lines

abbrev history_parts : ℕ → Option Text → List AgentMessage → List Text
history_parts summary_max llm_summary compacted =
    if truthy (or_else llm_summary [])
    then []
    else []
      ∷ codes "Compacted earlier session history:"
      ∷ history_text
          (take summary_max (join_with (codes "\n- ") (last_lines (summary_lines compacted))))
      ∷ []

abbrev block_text : ℕ → Option Text → List AgentMessage → ℕ → Text
block_text summary_max llm_summary compacted retained = trim (
    join_with (codes "\n") (
      codes "Context compaction summary (runtime-generated, read-only context):"
      ∷ []
      ∷ (summary_parts llm_summary
          ++ ((codes "Earlier messages compacted: "
                ++ (decimal (length compacted)
                    ++ (codes " of " ++ decimal (length compacted + retained))))
              ∷ (codes "Recent messages preserved verbatim: " ++ decimal retained)
              ∷ history_parts summary_max llm_summary compacted))))

-- `buildContextCompactionBlock`; the messages were as many as those compacted and those retained.
unfoldable pub build_context_compaction_block :
    ℕ → Option Text → List AgentMessage → ℕ → Option AgentMessage
build_context_compaction_block summary_max llm_summary [] retained = none
build_context_compaction_block summary_max llm_summary (m ∷ compacted) retained =
    some (user (text (block_text summary_max llm_summary (m ∷ compacted) retained) ∷ []))
