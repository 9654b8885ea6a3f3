-- ===== src/Sse.antt =====
-- packages/sdk/src/sse.ts: the parser of server-sent events, which takes the frames that are complete
-- off a buffer and gives the rest back for the next read. A parsed id is exact up to 2 ^ 53.
pub mod Streamed
use openhermit.Prelude.{
  ℕ, ◌+◌, ◌-◌, ◌*◌, Text, codes, starts_with, drop_last, ends_with, leb, ◌==◌, Bool, true, false,
  ◌&&◌, Option, none, some, List, [], ◌∷◌, ◌++◌, drop, map, if◌then◌else◌,
}
use openhermit.Policy.Commands.{trim}

-- What `Number.parseInt` yields where it does not yield NaN.
pub data Number : Type 0 where
  pos neg : ℕ → Number

pub record SseFrame : Type 0 where
  pub id : Option Number
  pub event : Text
  pub data_text : Text

abbrev pub newline : ℕ
newline = 10

abbrev pub carriage_return : ℕ
carriage_return = 13

abbrev pub leads : ℕ → Text → Bool
leads c [] = false
leads c (d ∷ t) = d == c

-- `buffer.replace(/\r\n/g, '\n')`: a carriage return before a newline is dropped.
unfoldable pub normalize : Text → Text
normalize [] = []
normalize (c ∷ t) =
    let rest = normalize t in if c == carriage_return && leads newline t then rest else c ∷ rest

-- The segments but the last, which `pop` takes off as the remainder.
pub record Segments : Type 0 where
  pub complete : List Text
  pub remainder : Text

abbrev pub close : Segments → Segments
close s = record s { complete = [] ∷ s.complete }

abbrev extend_first : ℕ → List Text → Text → Segments
extend_first c [] r = record { complete = []; remainder = c ∷ r }
extend_first c (s ∷ ss) r = record { complete = (c ∷ s) ∷ ss; remainder = r }

abbrev pub extend : ℕ → Segments → Segments
extend c s = extend_first c s.complete s.remainder

-- `normalized.split('\n\n')`
unfoldable pub split_segments : Text → Segments
split_segments [] = record { complete = []; remainder = [] }
split_segments (c ∷ []) = record { complete = []; remainder = c ∷ [] }
split_segments (c ∷ d ∷ t) = elim (c == newline && d == newline) [
  | true ↦ close (split_segments t)
  | false ↦ extend c (split_segments (d ∷ t))
]

abbrev extend_line : ℕ → List Text → List Text
extend_line c [] = (c ∷ []) ∷ []
extend_line c (l ∷ ls) = (c ∷ l) ∷ ls

-- `segment.split('\n')`
unfoldable pub split_lines : Text → List Text
split_lines [] = [] ∷ []
split_lines (c ∷ t) =
    let rest = split_lines t in if c == newline then [] ∷ rest else extend_line c rest

abbrev is_digit : ℕ → Bool
is_digit c = leb 48 c && leb c 57

-- The digits that lead the text, after the value of those before it.
unfoldable pub digits : ℕ → Text → ℕ
digits n [] = n
digits n (c ∷ s) = let rest = digits (n * 10 + (c - 48)) s in if is_digit c then rest else n

abbrev unsigned : (ℕ → Number) → Text → Option Number
unsigned sign [] = none
unsigned sign (c ∷ s) = if is_digit c then some (sign (digits 0 (c ∷ s))) else none

-- `Number.parseInt(s, 10)` on a trimmed text.
abbrev pub parse_int : Text → Option Number
parse_int [] = none
parse_int (c ∷ s) =
    if c == 45 then unsigned neg s else if c == 43 then unsigned pos s else unsigned pos (c ∷ s)

abbrev or_id : Option Number → Option Number → Option Number
or_id none id = id
or_id (some n) id = some n

-- One round of the inner loop.
abbrev pub read_line : SseFrame → Text → SseFrame
read_line f line =
    if starts_with line (codes "event:")
    then record f { event = trim (drop 6 line) }
    else if starts_with line (codes "data:")
    then record f { data_text = f.data_text ++ (trim (drop 5 line) ++ newline ∷ []) }
    else if starts_with line (codes "id:")
    then record f { id = or_id (parse_int (trim (drop 3 line))) f.id }
    else f

unfoldable pub read_lines : SseFrame → List Text → SseFrame
read_lines f [] = f
read_lines f (l ∷ ls) = read_lines (read_line f l) ls

-- `data.replace(/\n$/, '')`
abbrev pub chomp : Text → Text
chomp s = if ends_with newline s then drop_last s else s

abbrev pub read_segment : Text → SseFrame
read_segment segment =
    let f =
      read_lines (record { id = none; event = codes "message"; data_text = [] })
        (split_lines segment) in
    record f { data_text = chomp f.data_text }

pub record SseBatch : Type 0 where
  pub frames : List SseFrame
  pub remainder : Text

abbrev pub parse_sse_frames : Text → SseBatch
parse_sse_frames buffer =
    let s = split_segments (normalize buffer) in
    record { frames = map read_segment s.complete; remainder = s.remainder }
