-- ===== src/Compaction/Truncated/Kept.antt =====
-- How much of a tool result is left by the truncation.
use openhermit.Prelude.{
  ℕ, zero, suc, ◌+◌, ◌-◌, ◌*◌, ◌≤◌, ◌<◌, Text, codes, leb, leb→le, List, [], ◌∷◌, ◌++◌, length,
  length-append, take, drop, length-take-le, length-drop, Bool-cases, ◌≡◌, inl, inr, refl, arith,
  ap,
}
use openhermit.ToolResults.{Format, create_head_tail_preview, cut_out, omission}
use openhermit.ToolResults.Preview.{create_head_tail_preview-cut}
use openhermit.Compaction.{Item, text, thinking, tool_call, image, other}
use openhermit.Compaction.Truncated.{
  text_chars, truncation_mark, preview_item, truncate_items, truncate_content,
}

module _ (f : Format) (digits : ℕ) (short : (n : ℕ) → length (f.to_locale_string n) ≤ digits) where
  length-omission : (n : ℕ) → length (omission f n) ≤ digits + 33
  length-omission n = omega (
    arith,
    length-append {0} (codes "\n\n[... ")
        (f.to_locale_string n ++ codes " characters omitted ...]\n\n"),
    length-append {0} (f.to_locale_string n) (codes " characters omitted ...]\n\n"),
    short n,
  )

  length-cut_out :
      (s : Text) (i j : ℕ) → length (cut_out f s i j) ≤ i + digits + 33 + (length s - j)
  length-cut_out s i j = omega (
    arith,
    length-append {0} (take i s) (omission f (j - i) ++ drop j s),
    length-append {0} (omission f (j - i)) (drop j s),
    length-take-le i s,
    length-drop j s,
    length-omission (j - i),
  )

  preview_bound :
      (s : Text) (head tail : ℕ)
      → length (create_head_tail_preview f s head tail) ≤ head + tail + digits + 33
  preview_bound s head tail = elim (Bool-cases (leb (length s) (head + tail))) [
    | inl fits ↦
        unfold create_head_tail_preview in
        rw fits (omega (arith, leb→le (length s) (head + tail) fits))
    | inr longer ↦
        let (i, j, before, ordered, after, inside, e) =
          create_head_tail_preview-cut f s head tail (ground (arith, longer)) in
        omega (arith, ap length e, length-cut_out s i j)
  ]

  module _ (seven_tenths : ℕ → ℕ) (share : (n : ℕ) → seven_tenths n ≤ n) where
    length-truncation_mark :
        (total max_chars : ℕ)
        → length (truncation_mark f seven_tenths total max_chars) ≤ digits + digits + 40
    length-truncation_mark total max_chars = omega (
      arith,
      length-append {0} (codes "\n\n[truncated: original ") (
          f.to_locale_string total
          ++ (codes " chars, kept ~" ++ (f.to_locale_string max_chars ++ codes "]"))),
      length-append {0} (f.to_locale_string total)
          (codes " chars, kept ~" ++ (f.to_locale_string max_chars ++ codes "]")),
      length-append {0} (codes " chars, kept ~") (f.to_locale_string max_chars ++ codes "]"),
      length-append {0} (f.to_locale_string max_chars) (codes "]"),
      short total,
      short max_chars,
    )

    preview_item_bound :
        (total max_chars : ℕ) (s : Text)
        → text_chars (preview_item f seven_tenths total max_chars s ∷ [])
          ≤ max_chars + 3 * digits + 80
    unfolding text_chars
    preview_item_bound total max_chars s = omega (
      arith,
      length-append {0}
          (create_head_tail_preview f s (seven_tenths max_chars)
            (max_chars - seven_tenths max_chars))
          (truncation_mark f seven_tenths total max_chars),
      preview_bound s (seven_tenths max_chars) (max_chars - seven_tenths max_chars),
      length-truncation_mark total max_chars,
      share max_chars,
    )

    nothing_left :
        (total max_chars : ℕ) (items : List Item)
        → text_chars (truncate_items f seven_tenths total max_chars 0 items) ≡ 0
    unfolding truncate_items text_chars
    nothing_left total max_chars [] = refl
    nothing_left total max_chars (i ∷ items) = omega (arith, nothing_left total max_chars items)

    truncate_items_bound :
        (total max_chars r : ℕ) (items : List Item)
        → text_chars (truncate_items f seven_tenths total max_chars r items)
          ≤ r + (max_chars + 3 * digits + 80)
    unfolding truncate_items text_chars
    truncate_items_bound total max_chars r [] = omega arith
    truncate_items_bound total max_chars zero (i ∷ items) =
        omega (arith, nothing_left total max_chars items)
    truncate_items_bound total max_chars (suc r) (text s ∷ items) =
        elim (Bool-cases (leb (length s) (suc r))) [
          | inl fits ↦ rw fits (
              omega (
                arith,
                leb→le (length s) (suc r) fits,
                truncate_items_bound total max_chars (suc r - length s) items,
              ))
          | inr longer ↦ rw longer (
              omega
                (arith, preview_item_bound total max_chars s, nothing_left total max_chars items))
        ]
    truncate_items_bound total max_chars (suc r) (thinking s ∷ items) =
        truncate_items_bound total max_chars (suc r) items
    truncate_items_bound total max_chars (suc r) (tool_call name arguments ∷ items) =
        truncate_items_bound total max_chars (suc r) items
    truncate_items_bound total max_chars (suc r) (image ∷ items) =
        truncate_items_bound total max_chars (suc r) items
    truncate_items_bound total max_chars (suc r) (other s ∷ items) =
        truncate_items_bound total max_chars (suc r) items

    -- Where a number is written with at most so many digits, the texts of a tool result have after
    -- the truncation at most twice the characters that were granted, and the marks.
    pub truncate_content_bound :
        (max_chars : ℕ) (items : List Item)
        → text_chars (truncate_content f seven_tenths max_chars items)
          ≤ 2 * max_chars + 3 * digits + 80
    truncate_content_bound max_chars items = elim (Bool-cases (leb (text_chars items) max_chars)) [
      | inl fits ↦ rw fits (omega (arith, leb→le (text_chars items) max_chars fits))
      | inr longer ↦
          rw longer
            (omega (arith, truncate_items_bound (text_chars items) max_chars max_chars items))
    ]

module _ (f : Format) (seven_tenths : ℕ → ℕ) where
  step_whole :
      (total max_chars r : ℕ) (s : Text) (items : List Item)
      → 0 < r
      → length s ≤ r
      → truncate_items f seven_tenths total max_chars r (text s ∷ items)
        ≡ text s ∷ truncate_items f seven_tenths total max_chars (r - length s) items
  unfolding truncate_items
  step_whole total max_chars zero s items pos h = absurd (omega (arith, pos))
  step_whole total max_chars (suc r) s items pos h = ground arith

  step_cut :
      (total max_chars r : ℕ) (s : Text)
      → 0 < r
      → r < length s
      → truncate_items f seven_tenths total max_chars r (text s ∷ [])
        ≡ preview_item f seven_tenths total max_chars s ∷ []
  unfolding truncate_items
  step_cut total max_chars zero s pos h = absurd (omega (arith, pos))
  step_cut total max_chars (suc r) s pos h = ground arith

  preview_whole :
      (s : Text) (head tail : ℕ)
      → length s ≤ head + tail
      → create_head_tail_preview f s head tail ≡ s
  unfolding create_head_tail_preview
  preview_whole s head tail h = ground arith

  over_limit :
      (max_chars : ℕ) (s t : Text)
      → max_chars < length s + length t
      → truncate_content f seven_tenths max_chars (text s ∷ text t ∷ [])
        ≡ truncate_items f seven_tenths
            (length s + length t)
            max_chars
            max_chars
            (text s ∷ text t ∷ [])
  unfolding text_chars
  over_limit max_chars s t h = ground arith

  -- Two texts that fit one by one, the first with room to spare, and not together: both are kept
  -- whole, though the mark says that the result was cut to the limit.
  pub truncate_content-whole :
      (max_chars : ℕ) (s t : Text)
      → seven_tenths max_chars ≤ max_chars
      → length s < max_chars
      → length t ≤ max_chars
      → max_chars < length s + length t
      → truncate_content f seven_tenths max_chars (text s ∷ text t ∷ [])
        ≡ text s ∷ text (t ++ truncation_mark f seven_tenths (length s + length t) max_chars) ∷ []
  truncate_content-whole max_chars s t share h k more =
      rw
        (
          over_limit max_chars s t more,
          step_whole (length s + length t) max_chars max_chars s (text t ∷ []) (omega arith)
              (omega arith),
          step_cut (length s + length t) max_chars (max_chars - length s) t (omega arith)
              (omega arith),
          preview_whole t (seven_tenths max_chars) (max_chars - seven_tenths max_chars)
              (omega arith),
        )
        refl
