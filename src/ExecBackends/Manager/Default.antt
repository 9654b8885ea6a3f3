-- ===== src/ExecBackends/Manager/Default.antt =====
-- The default backend of apps/agent/src/core/exec-backend.ts.
use openhermit.Prelude.{
  Text, text_eq_iff, text_keys, lookup, insert, lookup-insert, or_else, is_some, true, Option, none,
  some, List, [], ◌∷◌, In, ◌≡◌, ◌⊎◌, inl, inr, refl, sym, ap, arith, Option-cases,
}
use openhermit.ExecBackends.{succeeds}
use openhermit.ExecBackends.Manager.{
  ExecBackendManager, with_backends, new_manager, get, get_default,
}

module _ {B : Type 0} (id_of : B → Text) where
  -- What is found is a backend of that id, or was there before.
  with_backends-lookup :
      (i : Text) (b : B) (bs : List B) (m : List (Text × B))
      → lookup text_keys i (with_backends id_of m bs) ≡ some b
      → (In b bs × (id_of b ≡ i)) ⊎ (lookup text_keys i m ≡ some b)
  unfolding with_backends
  with_backends-lookup i b [] m h = inr h
  with_backends-lookup i b (c ∷ bs) m h =
      elim (with_backends-lookup i b bs (insert text_keys (id_of c) c m) h) [
        | inl (i, e) ↦ inl (inr i, e)
        | inr kept ↦
            ground (arith, kept, lookup-insert text_keys (id_of c) i c m, text_eq_iff (id_of c) i)
      ]

  lookup-empty :
      (i : Text) (b : B) (bs : List B)
      → lookup text_keys i (with_backends id_of [] bs) ≡ some b
      → In b bs × (id_of b ≡ i)
  unfolding lookup
  lookup-empty i b bs h = elim (with_backends-lookup i b bs [] h) [
    | inl found ↦ found
    | inr e ↦ absurd (cc e)
  ]

  new_manager-parts :
      (b : B) (bs : List B) (d : Option Text) (m : ExecBackendManager B)
      → new_manager id_of (b ∷ bs) d ≡ succeeds m
      → (is_some (lookup text_keys (or_else d (id_of b)) m.backends) ≡ true)
        × ((m.default_id ≡ or_else d (id_of b)) × (m.backends ≡ with_backends id_of [] (b ∷ bs)))
  unfolding new_manager
  new_manager-parts b bs d m h = ground (arith, h)

  -- A manager whose construction succeeded gives a backend where no id is asked for: one of those
  -- it was made of, which has the id that was named as the default, or else that of the first.
  pub new_manager-get :
      (b : B) (bs : List B) (d : Option Text) (m : ExecBackendManager B)
      → new_manager id_of (b ∷ bs) d ≡ succeeds m
      → (c : B) × ((get m none ≡ succeeds c)
          × ((get_default m ≡ succeeds c) × (In c (b ∷ bs) × (id_of c ≡ or_else d (id_of b)))))
  unfolding get get_default
  new_manager-get b bs d m h =
      let (there, (target, backends)) = new_manager-parts b bs d m h in
      elim (Option-cases (lookup text_keys (or_else d (id_of b)) m.backends)) [
        | inl nothing ↦ absurd (cc (there, ap is_some nothing))
        | inr (c, found) ↦
            let (member, same) =
              lookup-empty (or_else d (id_of b)) c (b ∷ bs) (rw (sym backends) found) in
            (c, (rw (target, found) refl, (rw (target, found) refl, (member, same))))
      ]
