-- ===== src/Channels.antt =====
-- `splitMessage` of apps/channels/telegram/src/formatting.ts, apps/channels/slack/src/formatting.ts and
-- apps/channels/discord/src/formatting.ts: one function, at three limits. `trimEnd` and `trimStart`
-- are those of the command normalization.
pub mod Chunks
use mathlib.Core.Option
use openhermit.Prelude.{
  ℕ, zero, suc, ◌-◌, Text, codes, starts_with, leb, ltb, Bool, true, false, Option, none, some,
  is_some, or_else, List, [], ◌∷◌, ◌++◌, length, take, drop, if◌then◌else◌,
}
use openhermit.Policy.Commands.{trim_start, trim_end}

-- `s.lastIndexOf(pat, from)`: the last place up to `from` where `pat` stands; `none` for -1.
unfoldable pub last_index_of : Text → Text → ℕ → Option ℕ
last_index_of s pat zero = if starts_with s pat then some 0 else none
last_index_of s pat (suc from) =
    let rest = last_index_of s pat from in
    if starts_with (drop (suc from) s) pat then some (suc from) else rest

-- `splitIndex <= 0`, and the next pattern
abbrev or_next : Option ℕ → Option ℕ → Option ℕ
or_next none next = next
or_next (some zero) next = next
or_next (some (suc i)) next = some (suc i)

abbrev or_hard : Option ℕ → ℕ → ℕ
or_hard none limit = limit
or_hard (some zero) limit = limit
or_hard (some (suc i)) limit = suc i

unfoldable pub split_index : ℕ → Text → ℕ
split_index limit s =
    or_hard
      (or_next (or_next (last_index_of s (10 ∷ 10 ∷ []) limit) (last_index_of s (10 ∷ []) limit))
        (last_index_of s (32 ∷ []) limit))
      limit

-- The loop, with fuel for its rounds.
unfoldable pub split_from : ℕ → ℕ → Text → Option (List Text)
split_from fuel limit [] = some []
split_from zero limit (c ∷ s) = none
split_from (suc fuel) limit (c ∷ s) =
    let i = split_index limit (c ∷ s) in
    let rest = split_from fuel limit (trim_start (drop i (c ∷ s))) in
    if leb (length (c ∷ s)) limit
    then some ((c ∷ s) ∷ [])
    else Option.map (λ chunks. trim_end (take i (c ∷ s)) ∷ chunks) rest

-- A text has as many rounds as characters at most.
unfoldable pub split_message : ℕ → Text → Option (List Text)
unfolding split_from
split_message limit text =
    if leb (length text) limit then some (text ∷ []) else split_from (length text) limit text

abbrev pub telegram_max_length : ℕ
telegram_max_length = 4096

abbrev pub slack_max_length : ℕ
slack_max_length = 4000

abbrev pub discord_max_length : ℕ
discord_max_length = 2000
