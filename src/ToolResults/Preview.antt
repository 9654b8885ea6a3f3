-- ===== src/ToolResults/Preview.antt =====
-- What a preview keeps of a text.
use openhermit.Prelude.{
  ℕ, zero, suc, ◌+◌, ◌-◌, ◌≤◌, ◌<◌, Text, some, [], ◌∷◌, length, drop, length-drop, Option-cases,
  ◌≡◌, inl, inr, arith,
}
use openhermit.Channels.{last_index_of}
use openhermit.ToolResults.{
  Format, newline, newline_from, index_of_newline, find_newline_before, find_newline_after, cut_out,
  create_head_tail_preview,
}

last_index_of-le : (s pat : Text) (from i : ℕ) → last_index_of s pat from ≡ some i → i ≤ from
unfolding last_index_of
last_index_of-le s pat zero i h = ground (arith, h)
last_index_of-le s pat (suc from) i h = ground (arith, h, last_index_of-le s pat from i)

newline_from-bounds :
    (at : ℕ) (s : Text) (i : ℕ) → newline_from at s ≡ some i → (at ≤ i) × (i ≤ at + length s)
unfolding newline_from
newline_from-bounds at [] i h = absurd (cc h)
newline_from-bounds at (c ∷ s) i h = ground (arith, h, newline_from-bounds (at + 1) s i)

module _ (f : Format) where
  find_newline_before-le : (text : Text) (pos : ℕ) → find_newline_before f text pos ≤ pos
  unfolding find_newline_before
  find_newline_before-le text pos = elim (Option-cases (last_index_of text newline pos)) [
    | inl nothing ↦ ground (arith, nothing)
    | inr (i, found) ↦ ground (arith, found, last_index_of-le text newline pos i found)
  ]

  find_newline_after-bounds :
      (text : Text) (pos : ℕ)
      → pos ≤ length text
      → (pos ≤ find_newline_after f text pos) × (find_newline_after f text pos ≤ length text)
  unfolding find_newline_after
  find_newline_after-bounds text pos h = elim (Option-cases (index_of_newline text pos)) [
    | inl nothing ↦ ground (arith, nothing)
    | inr (i, found) ↦
        let (low, high) = newline_from-bounds pos (drop pos text) i found in
        ground (arith, found, low, high, length-drop pos text)
  ]

  -- A text longer than the head and the tail together is cut: a head and a tail of it are kept, no
  -- longer than asked for, and between them stands the number of the characters left out.
  pub create_head_tail_preview-cut :
      (text : Text) (head_chars tail_chars : ℕ)
      → head_chars + tail_chars < length text
      → (i : ℕ) × (j : ℕ) × (i ≤ head_chars)
        × (i ≤ j)
        × (length text - tail_chars ≤ j)
        × (j ≤ length text)
        × (create_head_tail_preview f text head_chars tail_chars ≡ cut_out f text i j)
  unfolding create_head_tail_preview
  create_head_tail_preview-cut text head_chars tail_chars h =
      let before = find_newline_before-le text head_chars in
      let (low, high) = find_newline_after-bounds text (length text - tail_chars) (omega arith) in
      (
        find_newline_before f text head_chars,
        find_newline_after f text (length text - tail_chars),
        before,
        omega (arith, before, low),
        low,
        high,
        ground arith,
      )
