-- ===== src/Workspace.antt =====
-- apps/agent/src/core/workspace.ts: the paths of a workspace. `node:path` is that of POSIX; what the
-- file system answers is a parameter.
pub mod Paths
pub mod Inside
use openhermit.Prelude.{
  ℕ, zero, suc, Text, codes, text_eq, starts_with, some_of, ◌==◌, Bool, true, false, ◌&&◌, ◌||◌,
  Option, none, some, or_else, List, [], ◌∷◌, ◌++◌, length, if◌then◌else◌,
}

-- An absolute path without empty segments, `.` and `..`, as `resolve` and `realpath` give it: its
-- segments. The root directory has none.
abbrev pub FilePath : Type 0
FilePath = List Text

abbrev pub separator : ℕ
separator = 47

abbrev pub dot : Text
dot = codes "."

abbrev pub dots : Text
dots = codes ".."

abbrev extend_segment : ℕ → List Text → List Text
extend_segment c [] = (c ∷ []) ∷ []
extend_segment c (s ∷ ss) = (c ∷ s) ∷ ss

-- The text between the separators.
unfoldable pub segments : Text → List Text
segments [] = [] ∷ []
segments (c ∷ t) =
    let rest = segments t in if c == separator then [] ∷ rest else extend_segment c rest

unfoldable pub join_segments : List Text → Text
join_segments [] = []
join_segments (s ∷ []) = s
join_segments (s ∷ r ∷ ss) = s ++ (separator ∷ join_segments (r ∷ ss))

-- `path.dirname` of an absolute path: the parent, which for the root directory is itself.
unfoldable pub dirname : FilePath → FilePath
dirname [] = []
dirname (s ∷ []) = []
dirname (s ∷ r ∷ p) = s ∷ dirname (r ∷ p)

-- One segment of a path that is resolved against the directory `base`.
abbrev pub enter : FilePath → Text → FilePath
enter base s =
    if text_eq s [] || text_eq s dot
    then base
    else if text_eq s dots
    then dirname base
    else base ++ s ∷ []

unfoldable pub enter_all : FilePath → List Text → FilePath
enter_all base [] = base
enter_all base (s ∷ ss) = enter_all (enter base s) ss

abbrev pub is_absolute : Text → Bool
is_absolute p = starts_with p (separator ∷ [])

-- `path.resolve(base, p)` for an absolute base.
unfoldable pub resolve_path : FilePath → Text → FilePath
resolve_path base p = enter_all (if is_absolute p then [] else base) (segments p)

abbrev pub ups : FilePath → List Text
ups [] = []
ups (s ∷ p) = dots ∷ ups p

-- The segments of `path.relative(from, to)`.
unfoldable pub relative_segments : FilePath → FilePath → List Text
relative_segments [] to = to
relative_segments (s ∷ from) [] = ups (s ∷ from)
relative_segments (s ∷ from) (t ∷ to) =
    let rest = relative_segments from to in if text_eq s t then rest else ups (s ∷ from) ++ t ∷ to

-- `path.relative(from, to)`
abbrev pub relative_path : FilePath → FilePath → Text
relative_path from to = join_segments (relative_segments from to)

unfoldable pub is_path_outside_root : Text → Bool
is_path_outside_root p = text_eq p dots || starts_with p (dots ++ separator ∷ []) || is_absolute p

-- `ensureWithinRoot` does not throw.
abbrev pub is_within : FilePath → FilePath → Bool
is_within root candidate =
    if is_path_outside_root (relative_path root candidate) then false else true

pub data PathKind : Type 0 where
  file directory any : PathKind

-- What the file system has: the target of a path with its links followed, whether it may be
-- accessed, and what it is; `none` where the call throws.
pub record FileSystem : Type 0 where
  pub mkdir : FilePath → Bool
  pub realpath : FilePath → Option FilePath
  pub access : FilePath → Bool
  pub stat : FilePath → Option PathKind

pub data PathError : Type 0 where
  null_byte escapes not_found expected_file expected_directory io_error : PathError

pub data Resolved : Type 0 where
  fails : PathError → Resolved
  resolves : FilePath → Resolved

unfoldable pub path_eq : FilePath → FilePath → Bool
path_eq [] [] = true
path_eq (s ∷ p) (t ∷ q) = text_eq s t && path_eq p q
path_eq _ _ = false

-- The loop of `findNearestExistingAncestor`. The number counts the segments of `current`: where
-- there are none, `current` is its own parent.
unfoldable pub nearest_from : FileSystem → FilePath → ℕ → FilePath → FilePath
nearest_from fs root zero current = if fs.access current then current else root
nearest_from fs root (suc n) current =
    let next = nearest_from fs root n (dirname current) in
    if fs.access current then current else if path_eq current root then root else next

abbrev pub find_nearest_existing_ancestor : FileSystem → FilePath → FilePath → FilePath
find_nearest_existing_ancestor fs candidate root =
    nearest_from fs root (length (dirname candidate)) (dirname candidate)

abbrev pub within_or : PathError → FilePath → Option FilePath → PathError → FilePath → Resolved
within_or missing root none outside result = fails missing
within_or missing root (some target) outside result =
    if is_within root target then resolves result else fails outside

-- The `try` of a path that need not exist: where `realpath` throws or the target lies outside, the
-- nearest ancestor is looked at in its place.
abbrev pub try_target : FileSystem → FilePath → FilePath → FilePath → Option FilePath → Resolved
try_target fs root canonical path none =
    within_or io_error canonical (fs.realpath (find_nearest_existing_ancestor fs path root)) escapes
      path
try_target fs root canonical path (some target) =
    if is_within canonical target
    then resolves path
    else within_or io_error canonical (fs.realpath (find_nearest_existing_ancestor fs path root))
        escapes path

abbrev pub check_target : FileSystem → FilePath → FilePath → Bool → FilePath → Resolved
check_target fs root canonical must_exist path =
    if must_exist
    then within_or not_found canonical (fs.realpath path) not_found path
    else try_target fs root canonical path (fs.realpath path)

abbrev of_kind : PathKind → FilePath → Option PathKind → Resolved
of_kind any path found = resolves path
of_kind file path none = fails not_found
of_kind file path (some file) = resolves path
of_kind file path (some _) = fails expected_file
of_kind directory path none = fails not_found
of_kind directory path (some directory) = resolves path
of_kind directory path (some _) = fails expected_directory

abbrev pub check_kind : FileSystem → PathKind → Resolved → Resolved
check_kind fs kind (fails e) = fails e
check_kind fs kind (resolves path) = of_kind kind path (fs.stat path)

abbrev pub resolve_in : FileSystem → FilePath → Text → Bool → PathKind → Option FilePath → Resolved
resolve_in fs root p must_exist kind none = fails io_error
resolve_in fs root p must_exist kind (some canonical) =
    if is_path_outside_root (relative_path root (resolve_path root p))
    then fails escapes
    else check_kind fs kind (check_target fs root canonical must_exist (resolve_path root p))

-- `AgentWorkspace.resolve`, with `any` for no kind.
unfoldable pub resolve : FileSystem → FilePath → Text → Bool → PathKind → Resolved
resolve fs root p must_exist kind =
    if some_of (λ c. c == 0) p
    then fails null_byte
    else if fs.mkdir root
    then resolve_in fs root p must_exist kind (fs.realpath root)
    else fails io_error

-- What a call reads, or the path it writes to: the effect on the file system.
pub data FileCall : Type 0 where
  throws : PathError → FileCall
  reads : FilePath → FileCall
  writes : FilePath → Text → FileCall

abbrev to_read : Resolved → FileCall
to_read (fails e) = throws e
to_read (resolves path) = reads path

abbrev to_write : FileSystem → Text → Resolved → FileCall
to_write fs content (fails e) = throws e
to_write fs content (resolves path) =
    if fs.mkdir (dirname path) then writes path content else throws io_error

unfoldable pub read_file : FileSystem → FilePath → Text → FileCall
read_file fs root p = to_read (resolve fs root p true file)

unfoldable pub write_file : FileSystem → FilePath → Text → Text → FileCall
write_file fs root p content = to_write fs content (resolve fs root p false any)

-- `toRelativePath`; `none` where it throws.
unfoldable pub to_relative_path : FilePath → FilePath → Option Text
to_relative_path root target =
    let relative = relative_path root target in
    if is_path_outside_root relative
    then none
    else some (if text_eq relative [] then dot else relative)
