-- ===== src/Compaction/Window/Shrinks.antt =====
-- What the compaction of a context gives.
use openhermit.Prelude.{
  ℕ, ◌≤◌, ◌<◌, Text, leb, Option, none, some, List, ◌++◌, length, take, drop, Bool-cases, ◌≡◌, ◌⊎◌,
  inl, inr, refl, arith,
}
use openhermit.Compaction.{AgentMessage, estimate_messages_tokens}
use openhermit.Compaction.Summary.{build_context_compaction_block}
use openhermit.Compaction.Window.{
  SummaryStore, CompactionDeps, get_compaction_retained_start_index, build_candidate,
  retained_block, compact, compact_with, smaller_or, chosen, llm_summary_for,
  compact_context_if_needed,
}

-- A context that was compacted at a message: the blocks, at most one message for the ones before,
-- and the ones from there on.
abbrev pub IsCompacted : List AgentMessage → List AgentMessage → List AgentMessage → Type 0
IsCompacted blocks messages result =
    (k : ℕ) × (block : List AgentMessage) × (length block ≤ 1)
    × (result ≡ blocks ++ (block ++ drop k messages))

length-retained_block : (m : Option AgentMessage) → length (retained_block m) ≤ 1
length-retained_block none = omega arith
length-retained_block (some m) = omega arith

build_candidate-IsCompacted :
    (blocks messages : List AgentMessage) (summary_max : ℕ) (llm_summary : Option Text) (r : ℕ)
    → IsCompacted blocks messages (build_candidate blocks messages summary_max llm_summary r)
unfolding build_candidate
build_candidate-IsCompacted blocks messages summary_max llm_summary r =
    let start = get_compaction_retained_start_index messages r in
    let block = retained_block (
      build_context_compaction_block summary_max llm_summary (take start messages)
        (length (drop start messages))) in
    (start, block, length-retained_block _, refl)

-- The outcome for a context over the budget.
abbrev Outcome : List AgentMessage → List AgentMessage → List AgentMessage → Type 0
Outcome blocks messages result =
    (result ≡ blocks ++ messages)
    ⊎ (IsCompacted blocks messages result
        × (estimate_messages_tokens result < estimate_messages_tokens (blocks ++ messages)))

smaller_or-Outcome :
    (blocks messages compacted : List AgentMessage)
    → IsCompacted blocks messages compacted
    → Outcome blocks messages (smaller_or (blocks ++ messages) compacted)
smaller_or-Outcome blocks messages compacted h =
    elim (Bool-cases
      (leb (estimate_messages_tokens (blocks ++ messages)) (estimate_messages_tokens compacted))) [
        | inl larger ↦ rw larger (inl refl)
        | inr smaller ↦ rw smaller (inr (h, ground (arith, smaller)))
      ]

compact_with-Outcome :
    (deps : CompactionDeps) (blocks messages : List AgentMessage) (r : ℕ)
    (q : (Option Text) × SummaryStore)
    → Outcome blocks messages (compact_with deps blocks messages r q).messages
compact_with-Outcome deps blocks messages r (llm_summary, store) =
    smaller_or-Outcome blocks messages
      (build_candidate blocks messages deps.options.summary_max_chars llm_summary r)
      (build_candidate-IsCompacted blocks messages deps.options.summary_max_chars llm_summary r)

compact-Outcome :
    (deps : CompactionDeps) (session_id : Text) (store : SummaryStore)
    (blocks messages : List AgentMessage) (r : ℕ)
    → Outcome blocks messages (compact deps session_id store blocks messages r).messages
unfolding compact
compact-Outcome deps session_id store blocks messages r =
    compact_with-Outcome deps blocks messages r (
      llm_summary_for deps session_id store
        (take (get_compaction_retained_start_index messages r) messages) deps.agent)

over_budget :
    (blocks messages result : List AgentMessage) (budget : ℕ)
    → budget < estimate_messages_tokens (blocks ++ messages)
    → Outcome blocks messages result
    → (result ≡ blocks ++ messages)
      ⊎ (IsCompacted blocks messages result
          × (estimate_messages_tokens result < estimate_messages_tokens (blocks ++ messages))
          × (budget < estimate_messages_tokens (blocks ++ messages)))
over_budget blocks messages result budget h (inl same) = inl same
over_budget blocks messages result budget h (inr (compacted, fewer)) = inr (compacted, fewer, h)

-- The context that is sent is the one there was, or one compacted at some message, with fewer
-- tokens by the estimate: the blocks stay, and the messages from that one on stay in their order.
pub compact_context_if_needed_lem :
    (deps : CompactionDeps) (session_id : Text) (store : SummaryStore)
    (blocks messages : List AgentMessage)
    → let result = (compact_context_if_needed deps session_id store blocks messages).messages in
      (result ≡ blocks ++ messages)
      ⊎ (IsCompacted blocks messages result
          × (estimate_messages_tokens result < estimate_messages_tokens (blocks ++ messages))
          × (deps.options.max_tokens < estimate_messages_tokens (blocks ++ messages)))
unfolding compact_context_if_needed
compact_context_if_needed_lem deps session_id store blocks messages =
    elim (Bool-cases (leb (length messages) 1)) [
      | inl few ↦ rw few (inl refl)
      | inr many ↦
          elim (Bool-cases
            (leb (estimate_messages_tokens (blocks ++ messages)) deps.options.max_tokens)) [
              | inl fits ↦ rw (many, fits) (inl refl)
              | inr over ↦
                  rw (many, over)
                    (over_budget blocks messages
                      (compact deps session_id store blocks messages
                        (chosen deps blocks messages)).messages
                      deps.options.max_tokens (ground (arith, over))
                      (compact-Outcome deps session_id store blocks messages
                        (chosen deps blocks messages)))
            ]
    ]
