-- ===== src/Logs.antt =====
-- apps/gateway/src/log-buffer.ts: the ring buffer of log lines. The time stamp is an argument.
pub mod Window
use openhermit.Prelude.{
  ℕ, zero, suc, ◌-◌, Text, leb, Bool, Option, none, some, List, [], ◌∷◌, ◌++◌, length, drop,
  if◌then◌else◌,
}

pub record LogEntry : Type 0 where
  pub timestamp : Text
  pub message : Text

pub record LogBuffer : Type 0 where
  pub entries : List LogEntry
  pub max_size : ℕ

abbrev pub new_buffer : ℕ → LogBuffer
new_buffer max_size = record { entries = []; max_size = max_size }

-- `entries.shift()` where the buffer is full
unfoldable pub push : LogEntry → LogBuffer → LogBuffer
push e b =
    let kept = (if leb b.max_size (length b.entries) then drop 1 b.entries else b.entries) in
    record b { entries = kept ++ e ∷ [] }

-- `slice(-n)`: `-0` is 0, and the whole list.
abbrev slice_last : ℕ → List LogEntry → List LogEntry
slice_last zero entries = entries
slice_last (suc n) entries = drop (length entries - suc n) entries

unfoldable pub tail : Option ℕ → LogBuffer → List LogEntry
tail none b = b.entries
tail (some n) b = if leb (length b.entries) n then b.entries else slice_last n b.entries
