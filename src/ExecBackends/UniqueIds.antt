-- ===== src/ExecBackends/UniqueIds.antt =====
-- The ids that `fromConfig` of apps/agent/src/core/exec-backend.ts makes.
use openhermit.Prelude.{
  ℕ, zero, suc, ◌+◌, ◌<◌, ◌≤◌, Text, codes, text_eq, text_eq_iff, decimal, decimal_injective, drop,
  length, length-append, filter, true, false, not, Bool-cases, Option, none, some, List, [], ◌∷◌,
  ◌++◌, ◌≡◌, ◌≢◌, inl, inr, refl, arith, ap, sym, ◌∙◌,
}
use openhermit.ExecBackends.{
  ExecBackendConfig, present_id, has_id, candidate, first_unused, id_for, assign_ids,
}

append-cancel : (s t u : Text) → s ++ t ≡ s ++ u → t ≡ u
append-cancel [] t u h = h
append-cancel (c ∷ s) t u h = append-cancel s t u (ap (drop 1) h)

candidate_longer : (kind : Text) (k : ℕ) → kind ≢ kind ++ (codes "-" ++ decimal (k + 2))
candidate_longer kind k h =
    let lengths : length kind ≡ length kind + length (codes "-" ++ decimal (k + 2)) =
      ap length h ∙ length-append kind (codes "-" ++ decimal (k + 2)) in
    omega (arith, lengths)

candidate_injective : (kind : Text) (j k : ℕ) → candidate kind j ≡ candidate kind k → j ≡ k
unfolding candidate
candidate_injective kind zero zero h = refl
candidate_injective kind zero (suc k) h = absurd (candidate_longer kind k h)
candidate_injective kind (suc j) zero h = absurd (candidate_longer kind j (sym h))
candidate_injective kind (suc j) (suc k) h =
    let tails =
      append-cancel kind (codes "-" ++ decimal (j + 2)) (codes "-" ++ decimal (k + 2)) h in
    let numbers =
      decimal_injective (j + 2) (k + 2)
        (append-cancel (codes "-") (decimal (j + 2)) (decimal (k + 2)) tails) in
    omega (arith, numbers)

without : Text → List Text → List Text
without i used = filter (λ u. not (text_eq u i)) used

has_id-without : (i j : Text) (used : List Text) → i ≢ j → has_id (without i used) j ≡ has_id used j
unfolding without
has_id-without i j [] h = refl
has_id-without i j (u ∷ used) h =
    ground (arith, text_eq_iff u i, text_eq_iff u j, has_id-without i j used h)

length-without-le : (i : Text) (used : List Text) → length (without i used) ≤ length used
unfolding without
length-without-le i [] = omega arith
length-without-le i (u ∷ used) = ground (arith, length-without-le i used)

length-without-lt :
    (i : Text) (used : List Text) → has_id used i ≡ true → length (without i used) < length used
unfolding without
length-without-lt i [] h = absurd (cc h)
length-without-lt i (u ∷ used) h =
    ground (arith, length-without-le i used, length-without-lt i used)

-- An id that was tried may go from the used ones.
first_unused-without :
    (fuel j k : ℕ) (kind : Text) (used : List Text)
    → j < k
    → first_unused fuel k kind (without (candidate kind j) used) ≡ first_unused fuel k kind used
unfolding first_unused
first_unused-without zero j k kind used h = refl
first_unused-without (suc fuel) j k kind used h =
    let differ : candidate kind j ≢ candidate kind k =
      λ e. absurd (omega (arith, candidate_injective kind j k e)) in
    rw
      (
        has_id-without (candidate kind j) (candidate kind k) used differ,
        first_unused-without fuel j (k + 1) kind used (omega arith),
      )
      refl

first_unused-found :
    (fuel k : ℕ) (kind : Text) (used : List Text)
    → length used < fuel
    → (i : Text) × (first_unused fuel k kind used ≡ some i)
unfolding first_unused
first_unused-found zero k kind used h = absurd (omega arith)
first_unused-found (suc fuel) k kind used h = elim (Bool-cases (has_id used (candidate kind k))) [
  | inl taken ↦
      let rest = without (candidate kind k) used in
      let fewer = length-without-lt (candidate kind k) used taken in
      let (i, found) = first_unused-found fuel (k + 1) kind rest (omega (arith, fewer)) in
      let same = first_unused-without fuel k (k + 1) kind used (omega arith) in
      (i, rw taken (sym same ∙ found))
  | inr free ↦ (candidate kind k, rw free refl)
]

first_unused-free :
    (fuel k : ℕ) (kind i : Text) (used : List Text)
    → first_unused fuel k kind used ≡ some i
    → has_id used i ≡ false
unfolding first_unused
first_unused-free zero k kind i used h = absurd (cc h)
first_unused-free (suc fuel) k kind i used h =
    ground (arith, first_unused-free fuel (k + 1) kind i used)

-- What the assignment may do to a configuration after those that use the given ids: an id that is
-- there stays, and one that is made is none of those.
abbrev FreshFor : List Text → Option Text → Text → Type 0
FreshFor used none j = has_id used j ≡ false
FreshFor used (some i) j = i ≡ j

id_for-FreshFor :
    (used : List Text) (kind : Text) (given : Option Text)
    → (j : Text) × ((id_for used kind given ≡ some j) × FreshFor used given j)
id_for-FreshFor used kind none =
    let (j, found) = first_unused-found (suc (length used)) 0 kind used (omega arith) in
    (j, (found, first_unused-free (suc (length used)) 0 kind j used found))
id_for-FreshFor used kind (some i) = (i, (refl, refl))

module _ {S : Type 0} where
  -- Each configuration keeps all but its id, which is fresh for the ids of those before it.
  abbrev pub AssignedFrom :
      List Text → List (ExecBackendConfig S) → List (ExecBackendConfig S) → Type 0
  AssignedFrom used [] ds = ds ≡ []
  AssignedFrom used (c ∷ cs) ds =
      (j : Text) × ((rest : List (ExecBackendConfig S)) × ((ds ≡ record c { id = some j } ∷ rest)
          × (FreshFor used (present_id c.id) j × AssignedFrom (j ∷ used) cs rest)))

  -- The loop that assigns ids always ends, with every configuration in its place and changed at
  -- most in its id: an id that is given and not empty stays, and an id that is made is the id of
  -- no configuration before it.
  pub assign_ids-AssignedFrom :
      (used : List Text) (cs : List (ExecBackendConfig S))
      → (ds : List (ExecBackendConfig S)) × ((assign_ids used cs ≡ some ds)
          × AssignedFrom used cs ds)
  unfolding assign_ids
  assign_ids-AssignedFrom used [] = ([], (refl, refl))
  assign_ids-AssignedFrom used (c ∷ cs) =
      let (j, (found, fresh)) = id_for-FreshFor used c.kind (present_id c.id) in
      let (ds, (rest, assigned)) = assign_ids-AssignedFrom (j ∷ used) cs in
      (record c { id = some j } ∷ ds, (rw (found, rest) refl, (j, (ds, (refl, (fresh, assigned))))))
