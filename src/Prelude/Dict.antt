-- ===== src/Prelude/Dict.antt =====
-- `Map` and `Set`: association lists in insertion order, as JavaScript iterates over them. Setting
-- a key that is present keeps its place.
use mathlib.Core.Path.{◌≡◌, refl}
use mathlib.Core.Logic.{inl, inr}
use mathlib.Core.Bool.{Bool, true, false, ◌&&◌}
use mathlib.Core.Option.{Option, none, some}
use mathlib.Core.List.{List, [], ◌∷◌}
use native.Mathlib.Omega.{arith}
use openhermit.Prelude.Tests.{if◌then◌else◌, Eq, Bool-cases}
use openhermit.Prelude.Lists.{some_of, In}

module _ {ℓ κ} {K : Type ℓ} {V : Type κ} (e : Eq K) where
  -- `m.get(k)`
  unfoldable pub lookup : K → List (K × V) → Option V
  lookup k [] = none
  lookup k ((j, v) ∷ m) = if e.beq j k then some v else lookup k m

  -- `m.set(k, v)`
  unfoldable pub insert : K → V → List (K × V) → List (K × V)
  insert k v [] = (k, v) ∷ []
  insert k v ((j, w) ∷ m) = if e.beq j k then (j, v) ∷ m else (j, w) ∷ insert k v m

  -- `m.delete(k)`
  unfoldable pub erase : K → List (K × V) → List (K × V)
  erase k [] = []
  erase k ((j, w) ∷ m) = let rest = erase k m in if e.beq j k then rest else (j, w) ∷ rest

  pub lookup-insert :
      (k j : K) (v : V) (m : List (K × V))
      → lookup j (insert k v m) ≡ (if e.beq k j then some v else lookup j m)
  unfolding lookup insert
  lookup-insert k j v [] = refl
  lookup-insert k j v ((i, w) ∷ m) =
      ground (arith, e.beq_iff k j, e.beq_iff i k, e.beq_iff i j, lookup-insert k j v m)

  pub lookup-erase :
      (k j : K) (m : List (K × V)) → lookup j (erase k m) ≡ (if e.beq k j then none else lookup j m)
  unfolding lookup erase
  lookup-erase k j [] = ground arith
  lookup-erase k j ((i, w) ∷ m) =
      ground (arith, e.beq_iff k j, e.beq_iff i k, e.beq_iff i j, lookup-erase k j m)

  lookup-nil : (k : K) → lookup k [] ≡ none
  unfolding lookup
  lookup-nil k = refl

  -- No key stands twice.
  abbrev pub Distinct : List (K × V) → Type κ
  Distinct [] = Unit
  Distinct ((k, v) ∷ m) = (lookup k m ≡ none) × Distinct m

  pub insert-Distinct : (k : K) (v : V) (m : List (K × V)) → Distinct m → Distinct (insert k v m)
  unfolding insert
  insert-Distinct k v [] h = ground (arith, lookup-nil k)
  insert-Distinct k v ((j, w) ∷ m) h =
      ground (arith, e.beq_iff j k, e.beq_iff k j, lookup-insert k j v m, insert-Distinct k v m h.1)

  abbrev pub test_at : (V → Bool) → Option V → Bool
  test_at f none = false
  test_at f (some v) = f v

  pub some_of-lookup :
      (k : K) (f : V → Bool) (m : List (K × V))
      → Distinct m
      → some_of (λ b. e.beq b.0 k && f b.1) m ≡ test_at f (lookup k m)
  unfolding lookup
  some_of-lookup k f [] h = refl
  some_of-lookup k f ((j, v) ∷ m) h = ground (arith, e.beq_iff j k, some_of-lookup k f m h.1)

module _ {K V : Type 0} (e : Eq K) where
  lookup-here :
      (j k : K) (w v : V) (m : List (K × V))
      → lookup e k ((j, w) ∷ m) ≡ some v
      → e.beq j k ≡ true
      → ◌≡◌ {A = K × V} (k, v) (j, w)
  unfolding lookup
  lookup-here j k w v m h same = ground (arith, e.beq_iff j k)

  lookup-there :
      (j k : K) (w v : V) (m : List (K × V))
      → lookup e k ((j, w) ∷ m) ≡ some v
      → e.beq j k ≡ false
      → lookup e k m ≡ some v
  unfolding lookup
  lookup-there j k w v m h other = ground arith

  -- What is found under a key stands in the map under that key.
  pub lookup-In :
      (k : K) (m : List (K × V)) (v : V) → lookup e k m ≡ some v → In {A = K × V} (k, v) m
  lookup-In k [] v h = absurd (cc (h, lookup-nil {V = V} e k))
  lookup-In k ((j, w) ∷ m) v h = elim (Bool-cases (e.beq j k)) [
    | inl same ↦ inl (lookup-here j k w v m h same)
    | inr other ↦ inr (lookup-In k m v (lookup-there j k w v m h other))
  ]
