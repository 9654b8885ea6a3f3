-- ===== src/Compaction/Truncated.antt =====
-- `truncateToolResults` of apps/agent/src/agent-runner/context-compaction.ts. The product with 0.7, rounded
-- down, is a parameter.
pub mod Kept
use openhermit.Prelude.{
  ℕ, zero, suc, ◌+◌, ◌-◌, ◌*◌, ◌/◌, Text, codes, leb, Bool, true, false, List, [], ◌∷◌, ◌++◌,
  length, map, if◌then◌else◌,
}
use openhermit.ToolResults.{Format, create_head_tail_preview}
use openhermit.Compaction.{
  Item, text, thinking, tool_call, image, other, AgentMessage, user_text, user, assistant,
  tool_result, json,
}

-- The number of characters in the texts of a content.
unfoldable pub text_chars : List Item → ℕ
text_chars [] = 0
text_chars (text s ∷ items) = length s + text_chars items
text_chars (thinking s ∷ items) = text_chars items
text_chars (tool_call name arguments ∷ items) = text_chars items
text_chars (image ∷ items) = text_chars items
text_chars (other s ∷ items) = text_chars items

-- A quarter of the window in tokens, at four characters a token; both products are exact.
abbrev pub max_chars_of : ℕ → ℕ
max_chars_of context_window = context_window * 4 / 4

module _ (f : Format) (seven_tenths : ℕ → ℕ) where
  abbrev pub head_budget : ℕ → ℕ
  head_budget max_chars = seven_tenths max_chars

  abbrev pub truncation_mark : ℕ → ℕ → Text
  truncation_mark total max_chars =
      codes "\n\n[truncated: original "
      ++ (f.to_locale_string total
          ++ (codes " chars, kept ~" ++ (f.to_locale_string max_chars ++ codes "]")))

  abbrev pub preview_item : ℕ → ℕ → Text → Item
  preview_item total max_chars s = text (
      create_head_tail_preview f s (head_budget max_chars) (max_chars - head_budget max_chars)
      ++ truncation_mark total max_chars)

  -- The `map` over the items with the characters that remain.
  unfoldable pub truncate_items : ℕ → ℕ → ℕ → List Item → List Item
  truncate_items total max_chars remaining [] = []
  truncate_items total max_chars zero (i ∷ items) = text [] ∷ truncate_items total max_chars 0 items
  truncate_items total max_chars (suc r) (text s ∷ items) =
      let whole = text s ∷ truncate_items total max_chars (suc r - length s) items in
      let cut = preview_item total max_chars s ∷ truncate_items total max_chars 0 items in
      if leb (length s) (suc r) then whole else cut
  truncate_items total max_chars (suc r) (thinking s ∷ items) =
      thinking s ∷ truncate_items total max_chars (suc r) items
  truncate_items total max_chars (suc r) (tool_call name arguments ∷ items) =
      tool_call name arguments ∷ truncate_items total max_chars (suc r) items
  truncate_items total max_chars (suc r) (image ∷ items) =
      image ∷ truncate_items total max_chars (suc r) items
  truncate_items total max_chars (suc r) (other s ∷ items) =
      other s ∷ truncate_items total max_chars (suc r) items

  abbrev pub truncate_content : ℕ → List Item → List Item
  truncate_content max_chars items =
      if leb (text_chars items) max_chars
      then items
      else truncate_items (text_chars items) max_chars max_chars items

  abbrev pub truncate_message : ℕ → AgentMessage → AgentMessage
  truncate_message max_chars (user_text s) = user_text s
  truncate_message max_chars (user items) = user items
  truncate_message max_chars (assistant items) = assistant items
  truncate_message max_chars (tool_result name items) =
      tool_result name (truncate_content max_chars items)
  truncate_message max_chars (json s) = json s

  unfoldable pub truncate_tool_results : List AgentMessage → ℕ → List AgentMessage
  truncate_tool_results messages context_window =
      map (truncate_message (max_chars_of context_window)) messages
