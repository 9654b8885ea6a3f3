-- ===== src/Policy/Commands.antt =====
-- `normalizeCommand` of apps/agent/src/core/policy.ts: `cmd.trim().replace(/\s+/g, ' ')`.
pub mod Tidy
use openhermit.Prelude.{ℕ, Text, leb, ◌==◌, Bool, false, ◌&&◌, ◌||◌, [], ◌∷◌, if◌then◌else◌}

-- WhiteSpace and LineTerminator of ECMAScript, which `\s` and `trim` share.
abbrev is_space_wide : ℕ → Bool
is_space_wide c =
    c == 0x1680
    || (leb 0x2000 c && leb c 0x200a)
    || c == 0x2028
    || c == 0x2029
    || c == 0x202f
    || c == 0x205f
    || c == 0x3000
    || c == 0xfeff

unfoldable pub is_space : ℕ → Bool
is_space c = (leb 9 c && leb c 13) || c == 32 || c == 160 || is_space_wide c

unfoldable pub trim_start : Text → Text
trim_start [] = []
trim_start (c ∷ s) = let rest = trim_start s in if is_space c then rest else c ∷ s

-- A trailing run of spaces is dropped: a space goes if nothing is left behind it.
abbrev pub trim_cons : ℕ → Text → Text
trim_cons c [] = if is_space c then [] else c ∷ []
trim_cons c (d ∷ s) = c ∷ d ∷ s

unfoldable pub trim_end : Text → Text
trim_end [] = []
trim_end (c ∷ s) = trim_cons c (trim_end s)

unfoldable pub trim : Text → Text
trim s = trim_end (trim_start s)

-- `replace(/\s+/g, ' ')`: the first space of a run is written as one blank, the others go.
unfoldable pub collapse : Bool → Text → Text
collapse in_run [] = []
collapse in_run (c ∷ s) =
    let rest = collapse (is_space c) s in
    if is_space c then (if in_run then rest else 32 ∷ rest) else c ∷ rest

unfoldable pub normalize_command : Text → Text
unfolding trim trim_end trim_start collapse is_space
normalize_command cmd = collapse false (trim cmd)
