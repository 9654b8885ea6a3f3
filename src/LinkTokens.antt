-- ===== src/LinkTokens.antt =====
-- apps/agent/src/identity-link-tokens.ts: one-time tokens that link a channel's user to a user.
-- Instants are milliseconds; the clock is an argument, and so are the tokens that `makeToken` would
-- draw from the random source, in their order.
pub mod Once
use openhermit.Prelude.{
  ℕ, ◌+◌, Text, text_keys, leb, Bool, Option, none, some, is_some, List, [], ◌∷◌, lookup, insert,
  erase, if◌then◌else◌,
}

pub record PendingLink : Type 0 where
  pub user_id : Text
  pub channel : Text
  pub channel_user_id : Text
  pub expires_at : ℕ

abbrev pub Pending : Type 0
Pending = List (Text × PendingLink)

abbrev pub token_ttl_ms : ℕ
token_ttl_ms = 600000

-- The callback of the interval: expired links go.
unfoldable pub collect : ℕ → Pending → Pending
collect now [] = []
collect now ((token, link) ∷ pending) =
    let rest = collect now pending in if leb link.expires_at now then rest else (token, link) ∷ rest

-- `while (pending.has(token)) token = makeToken()`; `none` if every draw is taken.
unfoldable pub fresh_token : List Text → Pending → Option Text
fresh_token [] pending = none
fresh_token (token ∷ draws) pending =
    if is_some (lookup text_keys token pending) then fresh_token draws pending else some token

pub record LinkParams : Type 0 where
  pub user_id : Text
  pub channel : Text
  pub channel_user_id : Text

abbrev pub link_for : LinkParams → ℕ → PendingLink
link_for params now = record {
  user_id = params.user_id;
  channel = params.channel;
  channel_user_id = params.channel_user_id;
  expires_at = now + token_ttl_ms;
}

-- The token with its expiry, and the links afterwards.
unfoldable pub issue_link_token :
    List Text → ℕ → LinkParams → Pending → Option ((Text × ℕ) × Pending)
issue_link_token draws now params pending = elim (fresh_token draws pending) [
  | none ↦ none
  | some token ↦
      some ((token, now + token_ttl_ms), insert text_keys token (link_for params now) pending)
]

unfoldable pub consume_link_token : Text → ℕ → Pending → Option PendingLink × Pending
consume_link_token token now pending = elim (lookup text_keys token pending) [
  | none ↦ (none, pending)
  | some link ↦ (if leb link.expires_at now then none else some link, erase text_keys token pending)
]
