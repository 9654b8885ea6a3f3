-- ===== src/Policy/Decisions.antt =====
-- What the file rows and the exec rows of an agent decide, through the best row of each effect.
use openhermit.Prelude.{
  ℕ, Text, codes, text_eq, text_eq_iff, text_eq_refl, subst, starts_with, starts_with-eq,
  starts_with-append, length, true, Option, some, Option-cases, List, ◌++◌, ◌≡◌, ◌⊎◌, ◌↔◌, inl, inr,
  sym, ap, ◌∙◌, arith,
}
use openhermit.Policy.{
  Principal, PolicyRow, PolicyMatch, AccessDecision, allow, deny, require_approval, evaluate_access,
}
use openhermit.Policy.Evaluate.{by_priority, evaluate_access-priority}
use openhermit.Policy.Best.{Score, resolve_best}
use openhermit.Policy.Best.Found.{IsBestOf, grants_access}
use openhermit.Policy.Best.Winner.{resolve_best-IsBestOf}
use openhermit.Policy.Files.{
  FileMode, mode_text, parse_file_scope, file_score, resolve_file_path_matches,
}
use openhermit.Policy.Commands.{normalize_command}
use openhermit.Policy.Exec.{exec_score, resolve_exec_matches}

-- The decision follows from a best row, or the lack of one, for each of the three effects.
pub record DecidedBy (score : Score) (rows : List PolicyRow) (p : Principal)
    (default d : AccessDecision) : Type 0 where
  pub best_deny : Option PolicyRow
  pub best_require_approval : Option PolicyRow
  pub best_allow : Option PolicyRow
  pub is_best_deny : IsBestOf score deny rows best_deny
  pub is_best_require_approval : IsBestOf score require_approval rows best_require_approval
  pub is_best_allow : IsBestOf score allow rows best_allow
  pub decision :
      d
      ≡ by_priority
          (grants_access p best_deny)
          (grants_access p best_require_approval)
          (grants_access p best_allow)
          default

resolve_best-DecidedBy :
    (score : Score) (rows : List PolicyRow) (ms : List PolicyMatch) (p : Principal)
    (default : AccessDecision)
    → resolve_best score rows ≡ some ms
    → DecidedBy score rows p default (evaluate_access p ms default)
resolve_best-DecidedBy score rows ms p default h =
    let (d, is_d, covers_d) = resolve_best-IsBestOf score rows ms p deny h in
    let (r, is_r, covers_r) = resolve_best-IsBestOf score rows ms p require_approval h in
    let (a, is_a, covers_a) = resolve_best-IsBestOf score rows ms p allow h in
    record {
      best_deny = d;
      best_require_approval = r;
      best_allow = a;
      is_best_deny = is_d;
      is_best_require_approval = is_r;
      is_best_allow = is_a;
      decision = cc (evaluate_access-priority p ms default, covers_d, covers_r, covers_a);
    }

-- A file row whose scope fits the access, with the length of its path.
pub record FitsFile (sandbox : Text) (mode : FileMode) (path : Text) (row : PolicyRow) (n : ℕ)
    : Type 0 where
  pub scope_sandbox : Text
  pub has_sandbox : row.scope_sandbox ≡ some scope_sandbox
  pub same_sandbox : (scope_sandbox ≡ codes "*") ⊎ (scope_sandbox ≡ sandbox)
  pub has_mode : row.scope_mode ≡ some (mode_text mode)
  pub prefix : Text
  pub has_path : row.scope_path ≡ some prefix
  pub rest : Text
  pub under_prefix : path ≡ prefix ++ rest
  pub is_length : n ≡ length prefix

file_score-some :
    (sandbox path : Text) (mode : FileMode) (row : PolicyRow) (n : ℕ) (sb m pre : Text)
    → row.scope_sandbox ≡ some sb
    → row.scope_mode ≡ some m
    → row.scope_path ≡ some pre
    → file_score sandbox mode path row ≡ some n
    → (m ≡ mode_text mode)
      × ((sb ≡ codes "*") ⊎ (sb ≡ sandbox))
      × (starts_with path pre ≡ true)
      × (n ≡ length pre)
unfolding file_score parse_file_scope
file_score-some sandbox path mode row n sb m pre s o p h = ground (
  arith,
  text_eq_iff m (mode_text mode),
  text_eq_iff sb (codes "*"),
  text_eq_iff sb sandbox,
  s,
  o,
  p,
  h,
)

-- A row with a score has the three fields.
file_score-scoped :
    (sandbox path : Text) (mode : FileMode) (row : PolicyRow) (n : ℕ)
    → file_score sandbox mode path row ≡ some n
    → (sb : Text) × (m : Text) × (pre : Text) × (row.scope_sandbox ≡ some sb)
      × (row.scope_mode ≡ some m)
      × (row.scope_path ≡ some pre)
unfolding file_score parse_file_scope
file_score-scoped sandbox path mode row n h = elim (Option-cases row.scope_sandbox) [
  | inl missing ↦ absurd (ground (arith, missing, h))
  | inr (sb, s) ↦ elim (Option-cases row.scope_mode) [
    | inl missing ↦ absurd (ground (arith, s, missing, h))
    | inr (m, o) ↦ elim (Option-cases row.scope_path) [
      | inl missing ↦ absurd (ground (arith, s, o, missing, h))
      | inr (pre, p) ↦ (sb, m, pre, s, o, p)
    ]
  ]
]

file_score-FitsFile :
    (sandbox path : Text) (mode : FileMode) (row : PolicyRow) (n : ℕ)
    → file_score sandbox mode path row ≡ some n
    → FitsFile sandbox mode path row n
file_score-FitsFile sandbox path mode row n h =
    let (sb, m, pre, s, o, p) = file_score-scoped sandbox path mode row n h in
    let (mode', sandbox', under, long) = file_score-some sandbox path mode row n sb m pre s o p h in
    let (rest, cut) = starts_with-eq path pre under in
    record {
      scope_sandbox = sb;
      has_sandbox = s;
      same_sandbox = sandbox';
      has_mode = o ∙ ap some mode';
      prefix = pre;
      has_path = p;
      rest = rest;
      under_prefix = cut;
      is_length = long;
    }

FitsFile-file_score :
    (sandbox path : Text) (mode : FileMode) (row : PolicyRow) (n : ℕ)
    → FitsFile sandbox mode path row n
    → file_score sandbox mode path row ≡ some n
unfolding file_score parse_file_scope
FitsFile-file_score sandbox path mode row n f =
    let under : starts_with path f.prefix ≡ true =
      subst (λ t. starts_with t f.prefix ≡ true) (sym f.under_prefix)
        (starts_with-append f.prefix f.rest) in
    let same : text_eq (mode_text mode) (mode_text mode) ≡ true = text_eq_refl (mode_text mode) in
    elim f.same_sandbox [
      | inl any ↦
          let fits : text_eq f.scope_sandbox (codes "*") ≡ true =
            (text_eq_iff f.scope_sandbox (codes "*")).1 any in
          rw (f.has_sandbox, f.has_mode, f.has_path, same, fits, under) (ap some (sym f.is_length))
      | inr own ↦
          let fits : text_eq f.scope_sandbox sandbox ≡ true =
            (text_eq_iff f.scope_sandbox sandbox).1 own in
          ground (arith, f.has_sandbox, f.has_mode, f.has_path, same, fits, under, f.is_length)
    ]

-- If the agent has file rows at all, the decision for a path is taken by the first row of the longest
-- path prefix among the deny rows, among the require_approval rows and among the allow rows that fit
-- the access: rows for exactly its mode, for its sandbox or for `*`, and with a prefix of its path. The
-- first of the three that grants the principal decides, and the default where none does.
pub file_matches-DecidedBy :
    (rows : List PolicyRow) (sandbox : Text) (mode : FileMode) (path : Text) (ms : List PolicyMatch)
    (p : Principal) (default : AccessDecision)
    → resolve_file_path_matches rows sandbox mode path ≡ some ms
    → (score : Score) × ((row : PolicyRow) (n : ℕ)
        → (score row ≡ some n) ↔ FitsFile sandbox mode path row n)
      × DecidedBy score rows p default (evaluate_access p ms default)
unfolding resolve_file_path_matches
file_matches-DecidedBy rows sandbox mode path ms p default h = (
  file_score sandbox mode path,
  λ row n.
      (file_score-FitsFile sandbox path mode row n, FitsFile-file_score sandbox path mode row n),
  resolve_best-DecidedBy (file_score sandbox mode path) rows ms p default h,
)

-- If the agent has exec rows at all, the decision for a command is taken by the row of the highest
-- score among the deny rows, among the require_approval rows and among the allow rows that fit the
-- sandbox, the command and the working directory, where a row scores 2 for naming the command, up
-- to the layout of its blanks, and 1 for limiting the directory: the first of the three that
-- grants the principal decides, and the default where none does.
pub exec_matches-DecidedBy :
    (rows : List PolicyRow) (sandbox command : Text) (cwd : Option Text) (ms : List PolicyMatch)
    (p : Principal) (default : AccessDecision)
    → resolve_exec_matches rows sandbox command cwd ≡ some ms
    → DecidedBy
        (exec_score sandbox (normalize_command command) cwd)
        rows
        p
        default
        (evaluate_access p ms default)
unfolding resolve_exec_matches
exec_matches-DecidedBy rows sandbox command cwd ms p default h =
    resolve_best-DecidedBy (exec_score sandbox (normalize_command command) cwd) rows ms p default h
