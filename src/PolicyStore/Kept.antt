-- ===== src/PolicyStore/Kept.antt =====
-- What a write of a policy leaves to read.
use openhermit.Prelude.{
  ℕ, Text, text_eq, text_eq_refl, Bool, true, false, not, Bool-cases, Option, none, some, List, [],
  ◌∷◌, ◌++◌, find, filter, ◌≡◌, inl, inr, refl, subst, ◌∙◌, arith, if◌then◌else◌,
}
use openhermit.Policy.{PolicyRow, PolicyEffect, effect_eq_iff}
use openhermit.PolicyStore.{
  PolicyRecord, is_for, get_policy, with_input, update_policy, new_record, written, upsert_policy,
  delete_policy,
}

is_for-with_input :
    (agent type key : Text) (e : Option PolicyEffect) (now : ℕ) (input : PolicyRow)
    (r : PolicyRecord)
    → is_for agent type key e (with_input now input r) ≡ is_for agent type key e r
is_for-with_input agent type key none now input r = refl
is_for-with_input agent type key (some e) now input r = refl

is_for-own :
    (id : Text) (now : ℕ) (input : PolicyRow)
    → is_for input.agent_id input.resource_type input.resource_key
        (some input.effect)
        (new_record id now input)
      ≡ true
is_for-own id now input = ground (
  arith,
  text_eq_refl input.agent_id,
  text_eq_refl input.resource_type,
  text_eq_refl input.resource_key,
  (effect_eq_iff input.effect input.effect).1 refl,
)

find-append_end :
    (f : PolicyRecord → Bool) (rows : List PolicyRecord) (r : PolicyRecord)
    → find f rows ≡ none
    → f r ≡ true
    → find f (rows ++ r ∷ []) ≡ some r
find-append_end f [] r h fits = ground (arith, fits)
find-append_end f (x ∷ rows) r h fits = ground (arith, h, fits, find-append_end f rows r)

module _ (f : PolicyRecord → Bool) (now : ℕ) (input : PolicyRow)
    (keeps : (r : PolicyRecord) → f (with_input now input r) ≡ f r) where
  find-update_first :
      (x : PolicyRecord) (rest : List PolicyRecord)
      → f x ≡ true
      → find f (if text_eq x.id x.id then with_input now input x ∷ rest else x ∷ rest)
        ≡ some (with_input now input x)
  find-update_first x rest fits = ground (arith, fits, keeps x, text_eq_refl x.id)

  find-update_next :
      (b : Bool) (x : PolicyRecord) (rest : List PolicyRecord)
      → f x ≡ false
      → find f (if b then with_input now input x ∷ rest else x ∷ rest) ≡ find f rest
  find-update_next true x rest other = ground (arith, other, keeps x)
  find-update_next false x rest other = ground (arith, other)

  find-update :
      (rows : List PolicyRecord) (r : PolicyRecord)
      → find f rows ≡ some r
      → find f (update_policy r.id now input rows) ≡ some (with_input now input r)
  unfolding update_policy
  find-update [] r h = absurd (cc h)
  find-update (x ∷ rows) r h = elim (Bool-cases (f x)) [
    | inl fits ↦
        let same : x ≡ r = ground (arith, h, fits) in
        subst
          (λ y. find f (update_policy y.id now input (x ∷ rows)) ≡ some (with_input now input y))
          same (find-update_first x (update_policy x.id now input rows) fits)
    | inr other ↦
        find-update_next (text_eq x.id r.id) x (update_policy r.id now input rows) other
        ∙ find-update rows r (ground (arith, h, other))
  ]

written-found :
    (o : Option PolicyRecord) (id : Text) (now : ℕ) (input : PolicyRow) (rows : List PolicyRecord)
    → get_policy input.agent_id input.resource_type input.resource_key (some input.effect) rows ≡ o
    → get_policy input.agent_id input.resource_type input.resource_key
        (some input.effect)
        (written o id now input rows).1
      ≡ some (written o id now input rows).0
unfolding get_policy
written-found none id now input rows h =
    find-append_end _ rows (new_record id now input) h (is_for-own id now input)
written-found (some r) id now input rows h =
    find-update _ now input
      (is_for-with_input input.agent_id input.resource_type input.resource_key (some input.effect)
        now input)
      rows r h

find-removed :
    (f : PolicyRecord → Bool) (rows : List PolicyRecord)
    → find f (filter (λ r. not (f r)) rows) ≡ none
find-removed f [] = refl
find-removed f (r ∷ rows) = ground (arith, find-removed f rows)

-- What `upsert` writes is what `get` reads for the agent, the resource and the effect, whether there was
-- a row before or not; after `delete` with or without an effect `get` with the same finds nothing.
pub get_policy-upsert :
    (id : Text) (now : ℕ) (input : PolicyRow) (effect : Option PolicyEffect)
    (rows : List PolicyRecord)
    → (get_policy input.agent_id input.resource_type input.resource_key
          (some input.effect)
          (upsert_policy id now input rows).1
        ≡ some (upsert_policy id now input rows).0)
      × (get_policy input.agent_id input.resource_type input.resource_key effect
            (delete_policy input.agent_id input.resource_type input.resource_key effect rows)
          ≡ none)
unfolding upsert_policy delete_policy
get_policy-upsert id now input effect rows =
    (written-found _ id now input rows refl, unfold get_policy in find-removed _ rows)
