-- ===== src/ToolResults.antt =====
-- apps/agent/src/agent-runner/tool-result-persistence.ts: previews of long texts. `toLocaleString` and
-- the products with 0.8 and 0.2, rounded down, are parameters.
pub mod Preview
use openhermit.Prelude.{
  ℕ, zero, suc, ◌+◌, ◌-◌, Text, codes, starts_with, leb, Bool, true, false, Option, none, some, [],
  ◌∷◌, ◌++◌, length, take, drop, if◌then◌else◌,
}
use openhermit.Channels.{last_index_of}

pub record Format : Type 0 where
  pub to_locale_string : ℕ → Text
  pub eight_tenths : ℕ → ℕ
  pub two_tenths : ℕ → ℕ

abbrev pub newline : Text
newline = 10 ∷ []

-- `text.indexOf('\n')` counted from `at`.
unfoldable pub newline_from : ℕ → Text → Option ℕ
newline_from at [] = none
newline_from at (c ∷ s) =
    let rest = newline_from (at + 1) s in if starts_with (c ∷ s) newline then some at else rest

-- `text.indexOf('\n', pos)`
abbrev pub index_of_newline : Text → ℕ → Option ℕ
index_of_newline text pos = newline_from pos (drop pos text)

abbrev no_earlier_than : ℕ → ℕ → Option ℕ → ℕ
no_earlier_than floor pos none = pos
no_earlier_than floor pos (some i) = if leb floor i then i else pos

abbrev no_later_than : ℕ → ℕ → Option ℕ → ℕ
no_later_than ceiling pos none = pos
no_later_than ceiling pos (some i) = if leb i ceiling then i else pos

abbrev pub persist_threshold_chars : ℕ
persist_threshold_chars = 8000

abbrev pub preview_head_chars : ℕ
preview_head_chars = 3000

abbrev pub preview_tail_chars : ℕ
preview_tail_chars = 1500

abbrev pub tool_result_path : Text → Text
tool_result_path tool_call_id = codes ".openhermit/tool_results/" ++ (tool_call_id ++ codes ".json")

abbrev pub footer : (ℕ → Text) → Text → Text → Text
footer to_locale_string full_text file_path =
    codes "\n\n[Output truncated — full text ("
    ++ (to_locale_string (length full_text)
        ++ (codes " chars) saved to workspace/"
            ++ (file_path ++ codes ". Use read_file to view the complete content if needed.]")))

module _ (f : Format) where
  unfoldable pub find_newline_before : Text → ℕ → ℕ
  find_newline_before text pos =
      no_earlier_than (f.eight_tenths pos) pos (last_index_of text newline pos)

  unfoldable pub find_newline_after : Text → ℕ → ℕ
  find_newline_after text pos =
      no_later_than (pos + f.two_tenths (length text - pos)) pos (index_of_newline text pos)

  -- The text that stands for the omitted characters.
  abbrev pub omission : ℕ → Text
  omission n = codes "\n\n[... " ++ (f.to_locale_string n ++ codes " characters omitted ...]\n\n")

  abbrev pub cut_out : Text → ℕ → ℕ → Text
  cut_out text head_cut tail_cut =
      take head_cut text ++ (omission (tail_cut - head_cut) ++ drop tail_cut text)

  unfoldable pub create_head_tail_preview : Text → ℕ → ℕ → Text
  create_head_tail_preview text head_chars tail_chars =
      if leb (length text) (head_chars + tail_chars)
      then text
      else cut_out text (find_newline_before text head_chars)
          (find_newline_after text (length text - tail_chars))

  -- The preview and the path of the file with the whole text; `none` where the text is short.
  unfoldable pub build_tool_result_preview : Text → Text → Option (Text × Text)
  build_tool_result_preview tool_call_id full_text =
      if leb (length full_text) persist_threshold_chars
      then none
      else some (
        create_head_tail_preview full_text preview_head_chars preview_tail_chars
            ++ footer f.to_locale_string full_text (tool_result_path tool_call_id),
        tool_result_path tool_call_id,
      )
