-- ===== src/LinkTokens/Once.antt =====
-- A link token works once, for ten minutes, and the collector cannot be noticed.
use openhermit.Prelude.{
  ℕ, ◌+◌, ◌≤◌, Text, text_eq_iff, text_eq_refl, text_keys, leb, Option, Option-cases, none, some,
  List, [], ◌∷◌, lookup, insert, lookup-insert, lookup-erase, Distinct, ◌≡◌, inl, inr, refl, arith,
  if◌then◌else◌,
}
use openhermit.LinkTokens.{
  Pending, PendingLink, LinkParams, token_ttl_ms, collect, fresh_token, link_for, issue_link_token,
  consume_link_token,
}

fresh_token-free :
    (draws : List Text) (pending : Pending) (token : Text)
    → fresh_token draws pending ≡ some token
    → lookup text_keys token pending ≡ none
unfolding fresh_token
fresh_token-free [] pending token h = absurd (cc h)
fresh_token-free (t ∷ draws) pending token h = ground (arith, fresh_token-free draws pending token)

issue-lookup :
    (draws : List Text) (now : ℕ) (params : LinkParams) (pending after : Pending) (token : Text)
    (expires : ℕ)
    → issue_link_token draws now params pending ≡ some ((token, expires), after)
    → (lookup text_keys token pending ≡ none)
      × (after ≡ insert text_keys token (link_for params now) pending)
unfolding issue_link_token
issue-lookup draws now params pending after token expires h =
    elim (Option-cases (fresh_token draws pending)) [
      | inl nothing ↦ absurd (ground (arith, h, nothing))
      | inr (t, drawn) ↦
          let same : t ≡ token = ground (arith, h, drawn) in
          (rw (← same) (fresh_token-free draws pending t drawn), ground (arith, h, drawn))
    ]

-- Whatever a token gives, it gives nothing a second time.
consume-twice :
    (token : Text) (later again : ℕ) (pending : Pending)
    → (consume_link_token token again (consume_link_token token later pending).1).0 ≡ none
unfolding consume_link_token
consume-twice token later again pending = elim (Option-cases (lookup text_keys token pending)) [
  | inl nothing ↦ ground (arith, nothing)
  | inr (link, there) ↦
      ground (arith, there, lookup-erase text_keys token token pending, text_eq_refl token)
]

consume-live :
    (token : Text) (later : ℕ) (pending : Pending) (link : PendingLink)
    → lookup text_keys token pending ≡ some link
    → (consume_link_token token later pending).0
      ≡ (if leb link.expires_at later then none else some link)
unfolding consume_link_token
consume-live token later pending link there = ground (arith, there)

-- A token that was issued gives its link at any time before its expiry and nothing from then on,
-- and either way it gives nothing a second time.
pub consume-issue :
    (draws : List Text) (now later again : ℕ) (params : LinkParams) (pending after : Pending)
    (token : Text) (expires : ℕ)
    → issue_link_token draws now params pending ≡ some ((token, expires), after)
    → ((consume_link_token token later after).0
        ≡ (if leb (now + token_ttl_ms) later then none else some (link_for params now)))
      × ((consume_link_token token again (consume_link_token token later after).1).0 ≡ none)
consume-issue draws now later again params pending after token expires h =
    let (free, same) = issue-lookup draws now params pending after token expires h in
    (
      consume-live token later after (link_for params now) (
          rw (
            same,
            lookup-insert text_keys token token (link_for params now) pending,
            text_eq_refl token,
          )),
      consume-twice token later again after,
    )

-- Issuing a token leaves every token that was pending as it was.
pub lookup-issue :
    (draws : List Text) (now : ℕ) (params : LinkParams) (pending after : Pending)
    (token other : Text) (expires : ℕ) (link : PendingLink)
    → issue_link_token draws now params pending ≡ some ((token, expires), after)
    → lookup text_keys other pending ≡ some link
    → lookup text_keys other after ≡ some link
lookup-issue draws now params pending after token other expires link h there =
    let (free, same) = issue-lookup draws now params pending after token expires h in
    rw (same, lookup-insert text_keys token other (link_for params now) pending)
      (ground (arith, free, there, text_eq_iff token other))

-- A link that has not expired.
abbrev keep_live : ℕ → Option PendingLink → Option PendingLink
keep_live now none = none
keep_live now (some link) = if leb link.expires_at now then none else some link

lookup-collect :
    (now : ℕ) (pending : Pending) (token : Text)
    → Distinct text_keys pending
    → lookup text_keys token (collect now pending) ≡ keep_live now (lookup text_keys token pending)
unfolding collect lookup
lookup-collect now [] token h = refl
lookup-collect now ((t, link) ∷ pending) token h =
    ground (arith, h.0, text_eq_iff t token, lookup-collect now pending token h.1)

-- What the collector has taken away would not have been given out any more: a token gives the same
-- link after a run of the collector as it does without one.
pub consume-collect :
    (now later : ℕ) (pending : Pending) (token : Text)
    → Distinct text_keys pending
    → now ≤ later
    → (consume_link_token token later (collect now pending)).0
      ≡ (consume_link_token token later pending).0
unfolding consume_link_token
consume-collect now later pending token h le = ground (arith, lookup-collect now pending token h)
