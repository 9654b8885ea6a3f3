-- ===== src/Workspace/Inside.antt =====
-- What a call on a workspace reads and writes, and where that lies.
use openhermit.Prelude.{
  ℕ, zero, suc, Text, some_of, length, ◌==◌, Bool, true, false, some, ◌++◌, Option-cases, ◌≡◌, inl,
  inr, refl, subst, arith,
}
use openhermit.Workspace.{
  FilePath, FileSystem, PathKind, file, any, Resolved, fails, resolves, reads, writes, resolve_path,
  relative_path, is_path_outside_root, is_within, resolve, check_target, check_kind, try_target,
  dirname, nearest_from, read_file, write_file,
}
use openhermit.Workspace.Paths.{inside-under, is_within-under}

-- The guards that every path has passed.
record IsChecked (fs : FileSystem) (root : FilePath) (p : Text) (must_exist : Bool)
    (kind : PathKind) (path : FilePath) : Type 0 where
  canonical : FilePath
  at_root : fs.realpath root ≡ some canonical
  inside : is_path_outside_root (relative_path root (resolve_path root p)) ≡ false
  checked :
      check_kind fs kind (check_target fs root canonical must_exist (resolve_path root p))
      ≡ resolves path

resolve-IsChecked :
    (fs : FileSystem) (root : FilePath) (p : Text) (must_exist : Bool) (kind : PathKind)
    (path : FilePath)
    → resolve fs root p must_exist kind ≡ resolves path
    → IsChecked fs root p must_exist kind path
unfolding resolve
resolve-IsChecked fs root p must_exist kind path h = elim (Option-cases (fs.realpath root)) [
  | inl nothing ↦ absurd (ground (arith, h, nothing))
  | inr (canonical, found) ↦ record {
    canonical = canonical;
    at_root = found;
    inside = ground (arith, h, found);
    checked = ground (arith, h, found);
  }
]

-- A target that passed is the path asked for.
check_kind-path :
    (fs : FileSystem) (kind : PathKind) (result : Resolved) (path : FilePath)
    → check_kind fs kind result ≡ resolves path
    → result ≡ resolves path
check_kind-path fs kind (fails e) path h = absurd (cc h)
check_kind-path fs kind (resolves q) path h = ground (arith, h)

check_target-path :
    (fs : FileSystem) (root canonical : FilePath) (must_exist : Bool) (q path : FilePath)
    → check_target fs root canonical must_exist q ≡ resolves path
    → path ≡ q
check_target-path fs root canonical must_exist q path h = ground (arith, h)

check_target-existing :
    (fs : FileSystem) (root canonical q path : FilePath)
    → check_target fs root canonical true q ≡ resolves path
    → (t : FilePath) × (fs.realpath q ≡ some t) × (is_within canonical t ≡ true)
check_target-existing fs root canonical q path h = elim (Option-cases (fs.realpath q)) [
  | inl nothing ↦ absurd (ground (arith, h, nothing))
  | inr (t, found) ↦ (t, found, ground (arith, h, found))
]

check_kind-file :
    (fs : FileSystem) (q path : FilePath)
    → check_kind fs file (resolves q) ≡ resolves path
    → fs.stat q ≡ some file
check_kind-file fs q path h = ground (arith, h)

-- What `resolve` returns lies under the root of the workspace, whatever the options.
pub resolve-under :
    (fs : FileSystem) (root : FilePath) (p : Text) (must_exist : Bool) (kind : PathKind)
    (path : FilePath)
    → resolve fs root p must_exist kind ≡ resolves path
    → (path ≡ resolve_path root p) × ((r : FilePath) × (path ≡ root ++ r))
resolve-under fs root p must_exist kind path h =
    let c = resolve-IsChecked fs root p must_exist kind path h in
    let passed =
      check_kind-path fs kind (check_target fs root c.canonical must_exist (resolve_path root p))
        path c.checked in
    let same = check_target-path fs root c.canonical must_exist (resolve_path root p) path passed in
    let (r, e) = inside-under root (resolve_path root p) c.inside in (same, (r, cc (same, e)))

to_read-resolves :
    (fs : FileSystem) (root : FilePath) (p : Text) (path : FilePath)
    → read_file fs root p ≡ reads path
    → resolve fs root p true file ≡ resolves path
unfolding read_file
to_read-resolves fs root p path h = ground (arith, h)

to_write-resolves :
    (fs : FileSystem) (root : FilePath) (p content written : Text) (path : FilePath)
    → write_file fs root p content ≡ writes path written
    → (written ≡ content) × (resolve fs root p false any ≡ resolves path)
unfolding write_file
to_write-resolves fs root p content written path h = ground (arith, h)

nearest_from-here :
    (fs : FileSystem) (root current : FilePath) (n : ℕ)
    → fs.access current ≡ true
    → nearest_from fs root n current ≡ current
unfolding nearest_from
nearest_from-here fs root current zero h = rw h refl
nearest_from-here fs root current (suc n) h = rw h refl

-- The directory of a path stands in for a target that lies outside.
try_target-directory :
    (fs : FileSystem) (root canonical path target parent : FilePath)
    → is_within canonical target ≡ false
    → fs.access (dirname path) ≡ true
    → fs.realpath (dirname path) ≡ some parent
    → is_within canonical parent ≡ true
    → try_target fs root canonical path (some target) ≡ resolves path
try_target-directory fs root canonical path target parent out there at_dir within =
    rw (out, nearest_from-here fs root (dirname path) (length (dirname path)) there, at_dir, within)
      refl

-- A file is read only where its path lies under the root, its target with all links followed lies
-- under the root with its links followed, and it is a file.
pub read_file-under :
    (fs : FileSystem) (root : FilePath) (p : Text) (path : FilePath)
    → read_file fs root p ≡ reads path
    → ((r : FilePath) × (path ≡ root ++ r))
      × ((canonical : FilePath) × (target : FilePath) × (r : FilePath) × (fs.realpath root
            ≡ some canonical)
          × (fs.realpath path ≡ some target)
          × (target ≡ canonical ++ r))
      × (fs.stat path ≡ some file)
read_file-under fs root p path h =
    let resolved = to_read-resolves fs root p path h in
    let c = resolve-IsChecked fs root p true file path resolved in
    let (same, under) = resolve-under fs root p true file path resolved in
    let passed =
      check_kind-path fs file (check_target fs root c.canonical true (resolve_path root p)) path
        c.checked in
    let (t, found, within) =
      check_target-existing fs root c.canonical (resolve_path root p) path passed in
    let (r, e) = is_within-under c.canonical t within in
    let is_file =
      check_kind-file fs path path
        (subst (λ x. check_kind fs file x ≡ resolves path) passed c.checked) in
    (under, (c.canonical, t, r, c.at_root, cc (found, same), e), is_file)

-- A file is written only to a path that lies, as it is spelled, under the root.
pub write_file-under :
    (fs : FileSystem) (root : FilePath) (p content written : Text) (path : FilePath)
    → write_file fs root p content ≡ writes path written
    → (written ≡ content) × (path ≡ resolve_path root p) × ((r : FilePath) × (path ≡ root ++ r))
write_file-under fs root p content written path h =
    let (same, resolved) = to_write-resolves fs root p content written path h in
    let (e, under) = resolve-under fs root p false any path resolved in (same, e, under)

-- A path under the root that is a link out of it is written to all the same, where its directory
-- is accessible and its target with all links followed lies under the root's: the error about the
-- target is thrown inside the `try`, and its `catch` looks at the directory instead.
pub write_file-link :
    (fs : FileSystem) (root : FilePath) (p content : Text) (canonical target parent : FilePath)
    → some_of (λ c. c == 0) p ≡ false
    → fs.mkdir root ≡ true
    → fs.realpath root ≡ some canonical
    → is_path_outside_root (relative_path root (resolve_path root p)) ≡ false
    → fs.realpath (resolve_path root p) ≡ some target
    → is_within canonical target ≡ false
    → fs.access (dirname (resolve_path root p)) ≡ true
    → fs.realpath (dirname (resolve_path root p)) ≡ some parent
    → is_within canonical parent ≡ true
    → fs.mkdir (dirname (resolve_path root p)) ≡ true
    → write_file fs root p content ≡ writes (resolve_path root p) content
unfolding write_file resolve
write_file-link fs root p content canonical target parent plain made at_root inside found out there
      at_dir within dir_made =
    rw
      (
        plain,
        made,
        at_root,
        inside,
        found,
        try_target-directory fs root canonical (resolve_path root p) target parent out there at_dir
            within,
        dir_made,
      )
      refl
