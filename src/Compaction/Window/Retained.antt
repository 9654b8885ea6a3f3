-- ===== src/Compaction/Window/Retained.antt =====
-- How many messages stay, and where the window of those that stay begins.
use openhermit.Prelude.{
  ℕ, zero, suc, ◌+◌, ◌-◌, ◌≤◌, min, Bool, true, false, ◌&&◌, List, length, Option, none, some,
  Bool-cases, ◌≡◌, ◌⊎◌, inl, inr, refl, subst, arith,
}
use openhermit.Compaction.{AgentMessage, user_text, user, assistant, tool_result, json}
use openhermit.Compaction.Window.{
  message_at, is_tool_result, is_assistant, start_before, get_compaction_retained_start_index,
  shrink, expand, choose_retain_count,
}

module _ (fits : ℕ → Bool) where
  -- The first loop gives a number that fits, or at most one message.
  shrink_lem : (r : ℕ) → (shrink fits r ≤ r) × ((fits (shrink fits r) ≡ true) ⊎ (shrink fits r ≤ 1))
  unfolding shrink
  shrink_lem zero = ground arith
  shrink_lem (suc zero) = ground arith
  shrink_lem (suc (suc r)) = ground (arith, shrink_lem (suc r))

  -- The second one ends at the last number that fits.
  expand_lem :
      (more r : ℕ)
      → (fits r ≡ true) ⊎ (r ≤ 1)
      → (r ≤ expand fits more r)
        × (expand fits more r ≤ r + more)
        × ((expand fits more r ≡ r + more) ⊎ (fits (expand fits more r + 1) ≡ false))
        × ((fits (expand fits more r) ≡ true) ⊎ (expand fits more r ≤ 1))
  unfolding expand
  expand_lem zero r h = ground arith
  expand_lem (suc more) r h = elim (Bool-cases (fits (r + 1))) [
    | inl wider ↦ ground (arith, wider, expand_lem more (r + 1) (inl wider))
    | inr full ↦ ground (arith, full)
  ]

  -- Whatever fits: at most all messages stay; their number fits the budget, or it is at most one;
  -- and all stay, or one more would not fit.
  pub choose_retain_count_lem :
      (total recent : ℕ)
      → let r = choose_retain_count fits total recent in
        (r ≤ total) × ((fits r ≡ true) ⊎ (r ≤ 1)) × ((r ≡ total) ⊎ (fits (r + 1) ≡ false))
  unfolding choose_retain_count
  choose_retain_count_lem total recent =
      let first = shrink fits (min recent total) in
      let (below, ok) = shrink_lem (min recent total) in
      ground (arith, below, expand_lem (total - first) first ok)

assistant-not_tool_result :
    (o : Option AgentMessage) → is_assistant o ≡ true → is_tool_result o ≡ false
assistant-not_tool_result none h = refl
assistant-not_tool_result (some (user_text s)) h = refl
assistant-not_tool_result (some (user items)) h = refl
assistant-not_tool_result (some (assistant items)) h = refl
assistant-not_tool_result (some (tool_result name items)) h = absurd (cc h)
assistant-not_tool_result (some (json s)) h = refl

moved_back :
    (a b : Bool) (o : Option AgentMessage)
    → a && is_assistant o ≡ true
    → is_tool_result o && b ≡ false
moved_back a b o h = rw (assistant-not_tool_result o (ground (arith, h))) refl

start_before_lem :
    (messages : List AgentMessage) (n i : ℕ)
    → start_before messages n ≡ suc i
    → (suc i ≤ n)
      × (n ≤ suc i + 1)
      × ((is_tool_result (message_at messages (suc i)) && is_assistant (message_at messages i))
          ≡ false)
start_before_lem messages zero i h = absurd (omega (arith, h))
start_before_lem messages (suc j) i h =
    elim (Bool-cases
      (is_tool_result (message_at messages (suc j)) && is_assistant (message_at messages j))) [
        | inl together ↦
            let same : j ≡ suc i = rw together at h in
            (
              omega (arith, same),
              omega (arith, same),
              moved_back (is_tool_result (message_at messages (suc j)))
                  (is_assistant (message_at messages i)) (message_at messages (suc i))
                  (subst
                    (λ k.
                      is_tool_result (message_at messages (suc j))
                        && is_assistant (message_at messages k)
                      ≡ true)
                    same together),
            )
        | inr apart ↦
            let same : suc j ≡ suc i = rw apart at h in
            let fewer : j ≡ i = omega (arith, same) in
            (
              omega (arith, same),
              omega (arith, same),
              subst
                  (λ k.
                    is_tool_result (message_at messages (suc k))
                      && is_assistant (message_at messages k)
                    ≡ false)
                  fewer apart,
            )
      ]

-- The window begins at most one message before those that were to stay, and never with the result
-- of a tool that the message of the agent right before it asked for.
pub get_compaction_retained_start_index_lem :
    (messages : List AgentMessage) (retain_count i : ℕ)
    → get_compaction_retained_start_index messages retain_count ≡ suc i
    → (suc i ≤ length messages - retain_count)
      × (length messages - retain_count ≤ suc i + 1)
      × ((is_tool_result (message_at messages (suc i)) && is_assistant (message_at messages i))
          ≡ false)
unfolding get_compaction_retained_start_index
get_compaction_retained_start_index_lem messages retain_count i h =
    start_before_lem messages (length messages - retain_count) i h
