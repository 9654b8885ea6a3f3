-- ===== src/Compaction.antt =====
-- apps/agent/src/agent-runner/context-compaction.ts: the messages of a context and the estimate of their
-- tokens. Of a message only what the compaction reads is kept; JSON is given by its text.
pub mod Truncated
pub mod Summary
pub mod Window
use openhermit.Prelude.{
  ℕ, zero, suc, ◌+◌, ◌-◌, ◌*◌, ◌/◌, max, Text, codes, leb, Bool, true, false, List, [], ◌∷◌, ◌++◌,
  length, if◌then◌else◌,
}

-- A part of a message's content. Of a tool call its name and the JSON of its arguments.
pub data Item : Type 0 where
  text thinking : Text → Item
  tool_call : Text → Text → Item
  image : Item
  other : Text → Item

-- A message by its role. A user's content may be one text; `json` is a message of another role.
pub data AgentMessage : Type 0 where
  user_text : Text → AgentMessage
  user assistant : List Item → AgentMessage
  tool_result : Text → List Item → AgentMessage
  json : Text → AgentMessage

-- `Math.max(1, Math.ceil(text.length / 4))`
unfoldable pub estimate_text_tokens : Text → ℕ
estimate_text_tokens s = max 1 ((length s + 3) / 4)

abbrev pub estimate_item_tokens : Item → ℕ
estimate_item_tokens (text s) = estimate_text_tokens s
estimate_item_tokens (thinking s) = estimate_text_tokens s
estimate_item_tokens (tool_call name arguments) =
    estimate_text_tokens (name ++ (codes " " ++ arguments))
estimate_item_tokens image = 256
estimate_item_tokens (other s) = estimate_text_tokens s

unfoldable pub estimate_content_tokens : List Item → ℕ
estimate_content_tokens [] = 0
estimate_content_tokens (i ∷ items) = estimate_item_tokens i + estimate_content_tokens items

unfoldable pub estimate_message_tokens : AgentMessage → ℕ
estimate_message_tokens (user_text s) = estimate_text_tokens s + 12
estimate_message_tokens (user items) = estimate_content_tokens items + 12
estimate_message_tokens (assistant items) = estimate_content_tokens items + 12
estimate_message_tokens (tool_result name items) = estimate_content_tokens items + 20
estimate_message_tokens (json s) = estimate_text_tokens s

unfoldable pub estimate_messages_tokens : List AgentMessage → ℕ
estimate_messages_tokens [] = 0
estimate_messages_tokens (m ∷ messages) =
    estimate_message_tokens m + estimate_messages_tokens messages
