-- ===== src/Sessions/Described.antt =====
-- The descriptions of sessions, `createFallbackDescription` and `normalizeGeneratedDescription` of
-- apps/agent/src/session-utils.ts.
use openhermit.Prelude.{
  ℕ, ◌≤◌, Text, codes, leb, ◌==◌, leb→le, Bool-cases, inl, inr, Bool, false, ◌||◌, Option, none,
  some, [], ◌∷◌, ◌++◌, length, length-append, length-take-le, take, arith, if◌then◌else◌,
}
use openhermit.Policy.Commands.{is_space, collapse, trim}

-- `value.replace(/\s+/g, ' ').trim()`
unfoldable pub to_single_line : Text → Text
to_single_line value = trim (collapse false value)

-- `normalized.length <= 80 ? normalized : normalized.slice(0, 77) + '...'`
abbrev pub shorten : Text → Text
shorten s = if leb (length s) 80 then s else take 77 s ++ codes "..."

abbrev pub described : Text → Option Text
described [] = none
described (c ∷ s) = some (shorten (c ∷ s))

unfoldable pub create_fallback_description : Text → Option Text
create_fallback_description text = described (to_single_line text)

-- One of the characters of /["'`]/
abbrev is_quote : ℕ → Bool
is_quote c = c == 34 || c == 39 || c == 96

-- One of the characters of /[#*\-\s]/
abbrev is_mark : ℕ → Bool
is_mark c = c == 35 || c == 42 || c == 45 || is_space c

-- The text without the leading characters of a class.
unfoldable pub strip_start : (ℕ → Bool) → Text → Text
strip_start f [] = []
strip_start f (c ∷ s) = let rest = strip_start f s in if f c then rest else c ∷ s

abbrev strip_cons : (ℕ → Bool) → ℕ → Text → Text
strip_cons f c [] = if f c then [] else c ∷ []
strip_cons f c (d ∷ s) = c ∷ d ∷ s

-- The text without the trailing characters of a class.
unfoldable pub strip_end : (ℕ → Bool) → Text → Text
strip_end f [] = []
strip_end f (c ∷ s) = strip_cons f c (strip_end f s)

-- The two replacements of a generated description.
unfoldable pub strip_generated : Text → Text
strip_generated s = strip_start is_mark (strip_end is_quote (strip_start is_quote s))

unfoldable pub normalize_generated_description : Option Text → Option Text
normalize_generated_description none = none
normalize_generated_description (some []) = none
normalize_generated_description (some (c ∷ s)) =
    described (strip_generated (to_single_line (c ∷ s)))

-- A description is there and has between one and eighty characters, or it is missing.
abbrev pub IsShort : Option Text → Type 0
IsShort none = Unit
IsShort (some s) = (1 ≤ length s) × (length s ≤ 80)

cut-le : (s : Text) → length (take 77 s ++ codes "...") ≤ 80
cut-le s = omega (arith, length-append (take 77 s) (codes "..."), length-take-le 77 s)

described-IsShort : (s : Text) → IsShort (described s)
described-IsShort [] = tt
described-IsShort (c ∷ s) = elim (Bool-cases (leb (length (c ∷ s)) 80)) [
  | inl fits ↦ rw fits (omega arith, leb→le (length (c ∷ s)) 80 fits)
  | inr long ↦ rw long (omega arith, cut-le (c ∷ s))
]

-- A fallback description is missing or has between one and eighty characters, and so is one that was
-- generated, whatever the model wrote.
pub descriptions-IsShort :
    (text : Text) (value : Option Text)
    → IsShort (create_fallback_description text) × IsShort (normalize_generated_description value)
unfolding create_fallback_description normalize_generated_description
descriptions-IsShort text none = (described-IsShort (to_single_line text), tt)
descriptions-IsShort text (some []) = (described-IsShort (to_single_line text), tt)
descriptions-IsShort text (some (c ∷ s)) = (
  described-IsShort (to_single_line text),
  described-IsShort (strip_generated (to_single_line (c ∷ s))),
)
