-- ===== src/Output.antt =====
-- apps/agent/src/core/bounded-string.ts: the output of a command, kept up to a number of bytes. Sizes are
-- below 2 ^ 53, where the numbers of the code are exact.
pub mod Slice
pub mod Halves
pub mod Bounded
use openhermit.Prelude.{
  ℕ, zero, suc, ◌+◌, ◌-◌, ◌*◌, ◌/◌, ◌%◌, Text, codes, utf8, decode_utf8, is_continuation, decimal,
  leb, ltb, Bool, true, false, List, [], ◌∷◌, ◌++◌, length, take, if◌then◌else◌,
}

-- `buf[i] ?? 0`
abbrev pub byte_at : List ℕ → ℕ → ℕ
byte_at [] i = 0
byte_at (b ∷ bytes) zero = b
byte_at (b ∷ bytes) (suc i) = byte_at bytes i

-- The loop that walks back from the cap to the first byte of a code point.
unfoldable pub walk_back : List ℕ → ℕ → ℕ
walk_back bytes zero = 0
walk_back bytes (suc cut) =
    let before = walk_back bytes cut in
    if is_continuation (byte_at bytes (suc cut)) then before else suc cut

abbrev pub byte_length : Text → ℕ
byte_length s = length (utf8 s)

unfoldable pub slice_utf8 : Text → ℕ → Text
slice_utf8 s max_bytes =
    if leb (byte_length s) max_bytes
    then s
    else decode_utf8 (take (walk_back (utf8 s) max_bytes) (utf8 s))

pub record BoundedString : Type 0 where
  pub parts : List Text
  pub bytes : ℕ
  pub dropped_bytes : ℕ
  pub truncated : Bool

abbrev pub empty_string : BoundedString
empty_string = record { parts = []; bytes = 0; dropped_bytes = 0; truncated = false }

-- A chunk that does not fit: its prefix that fits, if there is room for a byte.
abbrev pub cut_chunk : ℕ → Text → BoundedString → BoundedString
cut_chunk max_bytes chunk s =
    let fitted = slice_utf8 chunk (max_bytes - s.bytes) in
    if ltb s.bytes max_bytes
    then record {
      parts = s.parts ++ fitted ∷ [];
      bytes = s.bytes + byte_length fitted;
      dropped_bytes = s.dropped_bytes + (byte_length chunk - byte_length fitted);
      truncated = true;
    }
    else record s { dropped_bytes = s.dropped_bytes + byte_length chunk; truncated = true }

unfoldable pub append : ℕ → Text → BoundedString → BoundedString
append max_bytes chunk s =
    if s.truncated
    then record s { dropped_bytes = s.dropped_bytes + byte_length chunk }
    else if leb (s.bytes + byte_length chunk) max_bytes
    then record s { parts = s.parts ++ chunk ∷ []; bytes = s.bytes + byte_length chunk }
    else cut_chunk max_bytes chunk s

unfoldable pub join_parts : List Text → Text
join_parts [] = []
join_parts (p ∷ parts) = p ++ join_parts parts

-- `(n / (1024 * 1024)).toFixed(1)`, in tenths.
abbrev tenths_of_mb : ℕ → ℕ
tenths_of_mb n = (n * 10 + 524288) / 1048576

unfoldable pub format_bytes : ℕ → Text
format_bytes n =
    if ltb n 1024
    then decimal n ++ codes "B"
    else if ltb n 1048576
    then decimal ((n + 512) / 1024) ++ codes "KB"
    else decimal (tenths_of_mb n / 10)
      ++ (codes "." ++ (decimal (tenths_of_mb n % 10) ++ codes "MB"))

unfoldable pub finalize : ℕ → Text → BoundedString → Text
finalize max_bytes label s =
    if s.truncated
    then join_parts s.parts
      ++ (codes "\n[truncated: "
          ++ (label
              ++ (codes " exceeded "
                  ++ (format_bytes max_bytes
                      ++ (codes " cap; dropped " ++ (format_bytes s.dropped_bytes ++ codes "]"))))))
    else join_parts s.parts

abbrev pub was_truncated : BoundedString → Bool
was_truncated s = s.truncated
