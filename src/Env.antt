-- ===== src/Env.antt =====
-- packages/shared/src/env.ts: files of environment variables. The contents of the files and the
-- variables of the process are arguments.
pub mod Loaded
pub mod Lines
pub mod RoundTrip
use openhermit.Prelude.{
  ℕ, zero, suc, ◌+◌, Text, text_keys, codes, truthy, starts_with, ends_with, drop_last, lookup,
  insert, is_some, ◌==◌, Bool, true, false, ◌&&◌, ◌||◌, Option, none, some, or_else, List, [], ◌∷◌,
  ◌++◌, take, drop, if◌then◌else◌,
}
use openhermit.Policy.Commands.{trim}
use openhermit.Sse.{normalize, split_lines}

abbrev pub Vars : Type 0
Vars = List (Text × Text)

-- `s.indexOf('=')`; `none` for -1.
unfoldable pub index_of : ℕ → Text → Option ℕ
index_of c [] = none
index_of c (d ∷ s) =
    let rest = index_of c s in
    if d == c then some 0 else elim rest [ none ↦ none | some i ↦ some (suc i) ]

abbrev pub is_quoted : ℕ → Text → Bool
is_quoted quote v = starts_with v (quote ∷ []) && ends_with quote v

-- `value.slice(1, -1)` where the value stands in quotes.
abbrev pub unquote : Text → Text
unquote v = if is_quoted 34 v || is_quoted 39 v then drop_last (drop 1 v) else v

-- `value.replace(/\\n/g, '\n')`: a backslash and an n become a newline.
unfoldable pub unescape : Text → Text
unescape [] = []
unescape (c ∷ []) = c ∷ []
unescape (c ∷ d ∷ s) =
    let newline = 10 ∷ unescape s in
    let kept = c ∷ unescape (d ∷ s) in if c == 92 && d == 110 then newline else kept

abbrev pub strip_export : Text → Text
strip_export line = if starts_with line (codes "export ") then drop 7 line else line

abbrev entry : Text → Text → Option (Text × Text)
entry key value = if truthy key then some (key, unescape (unquote value)) else none

-- No `=`, or one at the start: the line is passed over.
abbrev pub at_equals : Text → Option ℕ → Option (Text × Text)
at_equals line none = none
at_equals line (some zero) = none
at_equals line (some (suc i)) = entry (trim (take (suc i) line)) (trim (drop (suc i + 1) line))

abbrev pub parse_trimmed : Text → Option (Text × Text)
parse_trimmed line =
    if truthy line
    then (if starts_with line (codes "#")
        then none
        else at_equals (strip_export line) (index_of 61 (strip_export line)))
    else none

abbrev pub add_entry : Option (Text × Text) → Vars → Vars
add_entry none vars = vars
add_entry (some (key, value)) vars = insert text_keys key value vars

unfoldable pub parse_lines : Vars → List Text → Vars
parse_lines vars [] = vars
parse_lines vars (line ∷ lines) = parse_lines (add_entry (parse_trimmed (trim line)) vars) lines

-- `content.split(/\r?\n/)`, line by line.
unfoldable pub parse_env_file : Text → Vars
parse_env_file content = parse_lines [] (split_lines (normalize content))

-- A file that cannot be read has no variables.
abbrev pub try_load_file : Option Text → Vars
try_load_file none = []
try_load_file (some content) = parse_env_file content

abbrev pub or_legacy : Vars → Vars → Vars
or_legacy [] legacy = legacy
or_legacy (v ∷ vars) legacy = v ∷ vars

-- The loop of `loadEnv`, with the variables of the process and how many were set.
unfoldable pub load_vars : Vars → Vars × ℕ → Vars × ℕ
load_vars [] loaded = loaded
load_vars ((key, value) ∷ vars) (env, n) = load_vars vars (
    if is_some (lookup text_keys key env)
    then (env, n)
    else (insert text_keys key value env, n + 1))

unfoldable pub load_env : Option Text → Option Text → Vars → Vars × ℕ
load_env gateway_env legacy_env env =
    load_vars (or_legacy (try_load_file gateway_env) (try_load_file legacy_env)) (env, 0)
