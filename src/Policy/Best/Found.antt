-- ===== src/Policy/Best/Found.antt =====
-- The loop of `bestByEffect`, one effect at a time: the rows that it has seen and what it keeps.
use mathlib.Core.List.{append_assoc, append-nil}
use openhermit.Prelude.{
  ℕ, ◌≤◌, ◌<◌, ap, ◌∙◌, Bool, false, ◌&&◌, Option, none, some, Option-cases, Bool-cases, List, [],
  ◌∷◌, ◌++◌, lookup, lookup-insert, Distinct, insert-Distinct, ltb, All, In, All-append,
  In-append_left, In-append_right, ◌≡◌, inl, inr, refl, sym, subst, arith, if◌then◌else◌,
}
use openhermit.Policy.{
  Principal, PolicyEffect, PolicyRow, effect_eq, effect_eq_iff, effect_keys, can_access,
}
use openhermit.Policy.Best.{Score, Scored, Best, beats, keep_best, best_from}

-- What the loop has to have found for one effect, among the rows that it has seen.
abbrev pub AtMost : ℕ → Option ℕ → Type 0
AtMost n none = Unit
AtMost n (some m) = m ≤ n

abbrev pub Below : ℕ → Option ℕ → Type 0
Below n none = Unit
Below n (some m) = m < n

-- The rows of the effect before this one all score less.
abbrev pub IsFirst : Score → PolicyEffect → List PolicyRow → PolicyRow → ℕ → Type 0
IsFirst score e rows r n =
    (before : List PolicyRow) × (after : List PolicyRow) × (rows ≡ before ++ r ∷ after)
    × All (λ s. s.effect ≡ e → Below n (score s)) before

abbrev pub IsBestOf : Score → PolicyEffect → List PolicyRow → Option PolicyRow → Type 0
IsBestOf score e rows none = All (λ r. r.effect ≡ e → score r ≡ none) rows
IsBestOf score e rows (some r) =
    In r rows
    × (r.effect ≡ e)
    × (n : ℕ) × (score r ≡ some n)
    × All (λ s. s.effect ≡ e → AtMost n (score s)) rows
    × IsFirst score e rows r n

abbrev pub grants_access : Principal → Option PolicyRow → Bool
grants_access p none = false
grants_access p (some r) = can_access p r.grants

-- One step of the loop for the effect `e`: `seen` is the list of rows before this one.
abbrev pub FoundFor : Score → PolicyEffect → List PolicyRow → Option Scored → Type 0
FoundFor score e rows none = All (λ r. r.effect ≡ e → score r ≡ none) rows
FoundFor score e rows (some (r, n)) =
    In r rows
    × (r.effect ≡ e)
    × (score r ≡ some n)
    × All (λ s. s.effect ≡ e → AtMost n (score s)) rows
    × IsFirst score e rows r n

-- The loop for the one effect `e`.
unfoldable pub keep_one : PolicyRow → ℕ → PolicyEffect → Option Scored → Option Scored
keep_one row n e old = if effect_eq row.effect e && beats n old then some (row, n) else old

pub keep_best-lookup :
    (row : PolicyRow) (n : ℕ) (e : PolicyEffect) (best : Best)
    → lookup effect_keys e (keep_best row n best) ≡ keep_one row n e (lookup effect_keys e best)
unfolding keep_best keep_one
keep_best-lookup row n e best =
    ground (arith, lookup-insert effect_keys row.effect e (row, n) best, effect_eq_iff row.effect e)

pub keep_best-Distinct :
    (row : PolicyRow) (n : ℕ) (best : Best)
    → Distinct effect_keys best
    → Distinct effect_keys (keep_best row n best)
unfolding keep_best
keep_best-Distinct row n best h =
    ground (arith, insert-Distinct effect_keys row.effect (row, n) best h)

All-AtMost :
    (score : Score) (e : PolicyEffect) (n m : ℕ) (rows : List PolicyRow)
    → n ≤ m
    → All (λ s. s.effect ≡ e → AtMost n (score s)) rows
    → All (λ s. s.effect ≡ e → AtMost m (score s)) rows
All-AtMost score e n m [] le h = tt
All-AtMost score e n m (r ∷ rows) le (h, hs) =
    (λ same. at_most_trans n m (score r) le (h same), All-AtMost score e n m rows le hs)
  where
    at_most_trans : (n m : ℕ) (o : Option ℕ) → n ≤ m → AtMost n o → AtMost m o
    at_most_trans n m none le h = tt
    at_most_trans n m (some k) le h = omega arith

All-none :
    (score : Score) (e : PolicyEffect) (m : ℕ) (rows : List PolicyRow)
    → All (λ s. s.effect ≡ e → score s ≡ none) rows
    → All (λ s. s.effect ≡ e → AtMost m (score s)) rows
All-none score e m [] h = tt
All-none score e m (r ∷ rows) (h, hs) = (λ same. rw (h same) tt, All-none score e m rows hs)

All-Below :
    (score : Score) (e : PolicyEffect) (n m : ℕ) (rows : List PolicyRow)
    → n < m
    → All (λ s. s.effect ≡ e → AtMost n (score s)) rows
    → All (λ s. s.effect ≡ e → Below m (score s)) rows
All-Below score e n m [] less h = tt
All-Below score e n m (r ∷ rows) less (h, hs) =
    (λ same. below_trans (score r) (h same), All-Below score e n m rows less hs)
  where
    below_trans : (o : Option ℕ) → AtMost n o → Below m o
    below_trans none h = tt
    below_trans (some k) h = omega arith

All-unscored :
    (score : Score) (e : PolicyEffect) (m : ℕ) (rows : List PolicyRow)
    → All (λ s. s.effect ≡ e → score s ≡ none) rows
    → All (λ s. s.effect ≡ e → Below m (score s)) rows
All-unscored score e m [] h = tt
All-unscored score e m (r ∷ rows) (h, hs) = (λ same. rw (h same) tt, All-unscored score e m rows hs)

IsFirst-append :
    (score : Score) (e : PolicyEffect) (seen : List PolicyRow) (row r : PolicyRow) (n : ℕ)
    → IsFirst score e seen r n
    → IsFirst score e (seen ++ row ∷ []) r n
IsFirst-append score e seen row r n (before, after, cut, less) = (
  before,
  after ++ row ∷ [],
  ap (λ rows. rows ++ row ∷ []) cut ∙ append_assoc before (r ∷ after) (row ∷ []),
  less,
)

pub best_from-skip :
    (score : Score) (row : PolicyRow) (rows : List PolicyRow) (best : Best)
    → score row ≡ none
    → best_from score (row ∷ rows) best ≡ best_from score rows best
unfolding best_from
best_from-skip score row rows best h = ground (arith, h)

pub best_from-keep :
    (score : Score) (row : PolicyRow) (rows : List PolicyRow) (best : Best) (n : ℕ)
    → score row ≡ some n
    → best_from score (row ∷ rows) best ≡ best_from score rows (keep_best row n best)
unfolding best_from
best_from-keep score row rows best n h = ground (arith, h)

module _ (score : Score) (e : PolicyEffect) where
  skip-FoundFor :
      (row : PolicyRow) (seen : List PolicyRow) (old : Option Scored)
      → score row ≡ none
      → FoundFor score e seen old
      → FoundFor score e (seen ++ row ∷ []) old
  skip-FoundFor row seen none no_score h =
      All-append (λ r. r.effect ≡ e → score r ≡ none) seen (row ∷ []) h (λ same. no_score, tt)
  skip-FoundFor row seen (some (r, n)) no_score (stands, same, scored, most, first) = (
    In-append_left r seen (row ∷ []) stands,
    same,
    scored,
    All-append (λ s. s.effect ≡ e → AtMost n (score s)) seen (row ∷ []) most
        (λ same. rw no_score tt, tt),
    IsFirst-append score e seen row r n first,
  )

  other-FoundFor :
      (row : PolicyRow) (seen : List PolicyRow) (old : Option Scored)
      → effect_eq row.effect e ≡ false
      → FoundFor score e seen old
      → FoundFor score e (seen ++ row ∷ []) old
  other-FoundFor row seen none other h =
      All-append (λ r. r.effect ≡ e → score r ≡ none) seen (row ∷ []) h
        (λ same. cc (other, (effect_eq_iff row.effect e).1 same), tt)
  other-FoundFor row seen (some (r, n)) other (stands, same, scored, most, first) = (
    In-append_left r seen (row ∷ []) stands,
    same,
    scored,
    All-append (λ s. s.effect ≡ e → AtMost n (score s)) seen (row ∷ []) most
        (λ same. absurd (cc (other, (effect_eq_iff row.effect e).1 same)), tt),
    IsFirst-append score e seen row r n first,
  )

  new-FoundFor :
      (row : PolicyRow) (n : ℕ) (seen : List PolicyRow)
      → score row ≡ some n
      → row.effect ≡ e
      → All (λ s. s.effect ≡ e → AtMost n (score s)) seen
      → All (λ s. s.effect ≡ e → Below n (score s)) seen
      → FoundFor score e (seen ++ row ∷ []) (some (row, n))
  new-FoundFor row n seen scored same most less = (
    In-append_right row seen (row ∷ []) (inl refl),
    same,
    scored,
    All-append (λ s. s.effect ≡ e → AtMost n (score s)) seen (row ∷ []) most
        (λ same. rw scored (omega arith), tt),
    (seen, [], refl, less),
  )

  tie-FoundFor :
      (row r : PolicyRow) (n m : ℕ) (seen : List PolicyRow)
      → score row ≡ some n
      → n ≤ m
      → FoundFor score e seen (some (r, m))
      → FoundFor score e (seen ++ row ∷ []) (some (r, m))
  tie-FoundFor row r n m seen scored le (stands, same, has, most, first) = (
    In-append_left r seen (row ∷ []) stands,
    same,
    has,
    All-append (λ s. s.effect ≡ e → AtMost m (score s)) seen (row ∷ []) most
        (λ _. rw scored le, tt),
    IsFirst-append score e seen row r m first,
  )

  same-FoundFor :
      (row : PolicyRow) (n : ℕ) (seen : List PolicyRow) (old : Option Scored)
      → score row ≡ some n
      → row.effect ≡ e
      → FoundFor score e seen old
      → FoundFor score e (seen ++ row ∷ []) (if beats n old then some (row, n) else old)
  same-FoundFor row n seen none scored same h =
      new-FoundFor row n seen scored same (All-none score e n seen h)
        (All-unscored score e n seen h)
  same-FoundFor row n seen (some (r, m)) scored same (stands, same', has, most, first) =
      elim (Bool-cases (ltb m n)) [
        | inl less ↦ rw less (
            new-FoundFor row n seen scored same (All-AtMost score e m n seen (ground arith) most)
              (All-Below score e m n seen (ground arith) most))
        | inr more ↦
            rw more
              (tie-FoundFor row r n m seen scored (ground arith) (stands, same', has, most, first))
      ]

  keep_one-FoundFor :
      (row : PolicyRow) (n : ℕ) (seen : List PolicyRow) (old : Option Scored)
      → score row ≡ some n
      → FoundFor score e seen old
      → FoundFor score e (seen ++ row ∷ []) (keep_one row n e old)
  unfolding keep_one
  keep_one-FoundFor row n seen old scored h = elim (Bool-cases (effect_eq row.effect e)) [
    | inl same ↦
        rw same (same-FoundFor row n seen old scored ((effect_eq_iff row.effect e).0 same) h)
    | inr other ↦ rw other (other-FoundFor row seen old other h)
  ]

  pub best_from-FoundFor :
      (rows seen : List PolicyRow) (best : Best)
      → FoundFor score e seen (lookup effect_keys e best)
      → FoundFor score e (seen ++ rows) (lookup effect_keys e (best_from score rows best))
  best_from-FoundFor [] seen best h = unfold best_from in rw append-nil h
  best_from-FoundFor (row ∷ rows) seen best h = elim (Option-cases (score row)) [
    | inl skipped ↦
        rw (best_from-skip score row rows best skipped, ← append_assoc seen (row ∷ []) rows)
          (best_from-FoundFor rows (seen ++ row ∷ []) best
            (skip-FoundFor row seen (lookup effect_keys e best) skipped h))
    | inr (n, scored) ↦
        rw (best_from-keep score row rows best n scored, ← append_assoc seen (row ∷ []) rows)
          (best_from-FoundFor rows (seen ++ row ∷ []) (keep_best row n best) (
            rw (keep_best-lookup row n e best)
              (keep_one-FoundFor row n seen (lookup effect_keys e best) scored h)))
  ]

pub best_from-Distinct :
    (score : Score) (rows : List PolicyRow) (best : Best)
    → Distinct effect_keys best
    → Distinct effect_keys (best_from score rows best)
best_from-Distinct score [] best h = unfold best_from in h
best_from-Distinct score (row ∷ rows) best h = elim (Option-cases (score row)) [
  | inl skipped ↦
      subst (Distinct effect_keys) (sym (best_from-skip score row rows best skipped))
        (best_from-Distinct score rows best h)
  | inr (n, scored) ↦
      subst (Distinct effect_keys) (sym (best_from-keep score row rows best n scored))
        (best_from-Distinct score rows (keep_best row n best) (keep_best-Distinct row n best h))
]
