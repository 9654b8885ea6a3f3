-- ===== src/Workspace/Paths.antt =====
-- Relative paths: when a path lies under a directory, and back from the relative path.
use mathlib.Core.List.{append_assoc, append-nil}
use openhermit.Prelude.{
  Text, text_eq, text_eq_iff, text_eq_refl, starts_with, ◌==◌, Bool, true, false, not, ◌&&◌, some,
  List, [], ◌∷◌, ◌++◌, every, Bool-cases, ◌≡◌, ◌⊎◌, inl, inr, refl, sym, ap, ◌∙◌, arith,
}
use openhermit.Workspace.{
  FilePath, separator, dot, dots, segments, join_segments, enter, enter_all, ups, relative_segments,
  relative_path, is_path_outside_root, is_within, is_absolute, resolve_path, to_relative_path,
}

outside_dots : (ss : List Text) → is_path_outside_root (join_segments (dots ∷ ss)) ≡ true
unfolding is_path_outside_root join_segments text_eq starts_with
outside_dots [] = refl
outside_dots (s ∷ ss) = refl

relative_segments-append : (root r : FilePath) → relative_segments root (root ++ r) ≡ r
unfolding relative_segments
relative_segments-append [] r = refl
relative_segments-append (s ∷ root) r = rw (text_eq_refl s) (relative_segments-append root r)

-- A path lies under the directory, or the relative path begins with `..`.
relative_segments-cases :
    (root p : FilePath)
    → ((r : FilePath) × (p ≡ root ++ r))
      ⊎ ((ss : List Text) × (relative_segments root p ≡ dots ∷ ss))
unfolding relative_segments
relative_segments-cases [] p = inl (p, refl)
relative_segments-cases (s ∷ root) [] = inr (ups root, refl)
relative_segments-cases (s ∷ root) (t ∷ p) = elim (Bool-cases (text_eq s t)) [
  | inl same ↦ elim (relative_segments-cases root p) [
    | inl (r, e) ↦ inl (r, ground (arith, text_eq_iff s t, e))
    | inr (ss, e) ↦ inr (ss, rw same e)
  ]
  | inr other ↦ inr (ups root ++ t ∷ p, rw other refl)
]

-- What is not outside lies under the directory.
pub inside-under :
    (root p : FilePath)
    → is_path_outside_root (relative_path root p) ≡ false
    → (r : FilePath) × (p ≡ root ++ r)
inside-under root p h = elim (relative_segments-cases root p) [
  | inl found ↦ found
  | inr (ss, e) ↦ absurd (cc (h, outside_dots ss, e))
]

pub is_within-under :
    (root p : FilePath) → is_within root p ≡ true → (r : FilePath) × (p ≡ root ++ r)
is_within-under root p h = inside-under root p (ground (arith, h))

-- A name of a file: not empty, no `.` or `..`, and without a separator.
abbrev pub is_name : Text → Bool
is_name s =
    not (text_eq s [])
    && not (text_eq s dot)
    && not (text_eq s dots)
    && every (λ c. not (c == separator)) s

abbrev no_separator : Text → Bool
no_separator s = every (λ c. not (c == separator)) s

is_name-inside :
    (s : Text) (ss : List Text)
    → is_name s ≡ true
    → is_path_outside_root (join_segments (s ∷ ss)) ≡ false
unfolding is_path_outside_root join_segments text_eq starts_with
is_name-inside [] ss h = absurd (cc h)
is_name-inside (c ∷ []) [] h = ground arith
is_name-inside (c ∷ []) (x ∷ ss) h = ground arith
is_name-inside (c ∷ d ∷ []) [] h = ground arith
is_name-inside (c ∷ d ∷ []) (x ∷ ss) h = ground arith
is_name-inside (c ∷ d ∷ e ∷ t) [] h = ground arith
is_name-inside (c ∷ d ∷ e ∷ t) (x ∷ ss) h = ground arith

segments_last : (s : Text) → no_separator s ≡ true → segments s ≡ s ∷ []
unfolding segments
segments_last [] h = refl
segments_last (c ∷ s) h = ground (arith, segments_last s)

segments_next :
    (s t : Text) → no_separator s ≡ true → segments (s ++ (separator ∷ t)) ≡ s ∷ segments t
unfolding segments
segments_next [] t h = refl
segments_next (c ∷ s) t h = ground (arith, segments_next s t)

is_name-no_separator : (s : Text) → is_name s ≡ true → no_separator s ≡ true
is_name-no_separator s h = ground arith

segments-join_segments :
    (s : Text) (ss : List Text)
    → every is_name (s ∷ ss) ≡ true
    → segments (join_segments (s ∷ ss)) ≡ s ∷ ss
unfolding join_segments
segments-join_segments s [] h = segments_last s (ground arith)
segments-join_segments s (r ∷ ss) h =
    segments_next s (join_segments (r ∷ ss)) (ground arith)
    ∙ ap (λ x. s ∷ x) (segments-join_segments r ss (ground arith))

enter-is_name : (base : FilePath) (s : Text) → is_name s ≡ true → enter base s ≡ base ++ s ∷ []
enter-is_name base s h = ground arith

-- Names are entered one below the other.
enter_all-names : (base r : FilePath) → every is_name r ≡ true → enter_all base r ≡ base ++ r
unfolding enter_all
enter_all-names base [] h = sym (append-nil base)
enter_all-names base (s ∷ r) h =
    rw (enter-is_name base s (ground arith), enter_all-names (base ++ s ∷ []) r (ground arith))
      (append_assoc base (s ∷ []) r)

join_segments-not_absolute :
    (s : Text) (ss : List Text) → is_name s ≡ true → is_absolute (join_segments (s ∷ ss)) ≡ false
unfolding join_segments starts_with text_eq
join_segments-not_absolute [] ss h = absurd (cc h)
join_segments-not_absolute (c ∷ s) [] h = ground arith
join_segments-not_absolute (c ∷ s) (r ∷ ss) h = ground arith

join_segments-not_empty :
    (s : Text) (ss : List Text) → is_name s ≡ true → text_eq (join_segments (s ∷ ss)) [] ≡ false
unfolding join_segments text_eq
join_segments-not_empty [] ss h = absurd (cc h)
join_segments-not_empty (c ∷ s) [] h = refl
join_segments-not_empty (c ∷ s) (r ∷ ss) h = refl

resolve_path-dot : (root : FilePath) → resolve_path root dot ≡ root
unfolding resolve_path starts_with segments enter_all text_eq
resolve_path-dot root = refl

resolve_path-names :
    (root : FilePath) (s : Text) (r : List Text)
    → every is_name (s ∷ r) ≡ true
    → resolve_path root (join_segments (s ∷ r)) ≡ root ++ s ∷ r
unfolding resolve_path
resolve_path-names root s r h =
    rw (join_segments-not_absolute s r (ground arith), segments-join_segments s r h)
      (enter_all-names root (s ∷ r) h)

empty_inside : is_path_outside_root (join_segments []) ≡ false
unfolding is_path_outside_root join_segments text_eq starts_with
empty_inside = refl

to_relative_path_self : (root : FilePath) → to_relative_path root (root ++ []) ≡ some dot
unfolding to_relative_path text_eq join_segments
to_relative_path_self root = rw (relative_segments-append root [], empty_inside) refl

to_relative_path-names :
    (root : FilePath) (s : Text) (r : List Text)
    → is_name s ≡ true
    → to_relative_path root (root ++ s ∷ r) ≡ some (join_segments (s ∷ r))
unfolding to_relative_path
to_relative_path-names root s r h =
    rw (relative_segments-append root (s ∷ r), is_name-inside s r h, join_segments-not_empty s r h)
      refl

-- A path below the root of the workspace, made of names, has a relative path, which resolves to it.
pub resolve_path-to_relative_path :
    (root r : FilePath)
    → every is_name r ≡ true
    → (t : Text) × (to_relative_path root (root ++ r) ≡ some t) × (resolve_path root t ≡ root ++ r)
resolve_path-to_relative_path root [] h =
    (dot, to_relative_path_self root, resolve_path-dot root ∙ sym (append-nil root))
resolve_path-to_relative_path root (s ∷ r) h = (
  join_segments (s ∷ r),
  to_relative_path-names root s r (ground arith),
  resolve_path-names root s r h,
)
