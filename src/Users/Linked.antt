-- ===== src/Users/Linked.antt =====
-- What linking an identity leaves.
use mathlib.Core.Option
use openhermit.Prelude.{
  ℕ, Text, text_eq, text_eq_iff, text_eq_refl, text_keys, true, false, Option-cases, Option, none,
  some, List, [], ◌∷◌, lookup, insert, lookup-insert, lookup-erase, ◌≡◌, inl, inr, refl, sym, subst,
  ap, ◌∙◌, arith, ◌>>=◌,
}
use openhermit.Users.{
  IdentityRow, Pair, pair_eq, pair_keys, UserStore, joined, resolve, relinked, left_behind,
  has_identity, cleanup, cleanup_orphaned_user, link_identity,
}

-- A clean-up leaves the identities, and the users that have one.
cleanup-identities :
    (o : Option Text) (new : Text) (store : UserStore)
    → (cleanup o new store).identities ≡ store.identities
unfolding cleanup_orphaned_user
cleanup-identities none new store = refl
cleanup-identities (some orphan) new store = ground arith

lookup-cleanup :
    (o : Option Text) (new id : Text) (store : UserStore)
    → (o ≡ some id → has_identity id store.identities ≡ true)
    → lookup text_keys id (cleanup o new store).users ≡ lookup text_keys id store.users
unfolding cleanup_orphaned_user
lookup-cleanup none new id store h = refl
lookup-cleanup (some orphan) new id store h =
    ground (arith, lookup-erase text_keys orphan id store.users, text_eq_iff orphan id, h)

has_identity-lookup :
    (k : Pair) (m : List (Pair × IdentityRow)) (i : IdentityRow)
    → lookup pair_keys k m ≡ some i
    → has_identity i.user_id m ≡ true
unfolding has_identity lookup
has_identity-lookup k [] i h = absurd (cc h)
has_identity-lookup k ((j, x) ∷ m) i h =
    ground (arith, has_identity-lookup k m i, text_eq_refl i.user_id, h)

resolve-of :
    (channel id : Text) (store : UserStore) (o : Option IdentityRow)
    → lookup pair_keys (channel, id) store.identities ≡ o
    → resolve channel id store
      ≡ (o >>= λ i. Option.map (joined i.user_id) (lookup text_keys i.user_id store.users))
unfolding resolve
resolve-of channel id store o h =
    ap (λ o. o >>= λ i. Option.map (joined i.user_id) (lookup text_keys i.user_id store.users)) h

left_behind-other :
    (o : Option IdentityRow) (new id : Text) → left_behind o new ≡ some id → text_eq id new ≡ false
left_behind-other none new id h = absurd (cc h)
left_behind-other (some row) new id h = ground (arith, h)

relinked-user : (o : Option IdentityRow) (user : Text) (t : ℕ) → (relinked o user t).user_id ≡ user
relinked-user none user t = refl
relinked-user (some row) user t = refl

module _ (user channel id : Text) (t : ℕ) (store : UserStore) where
  abbrev pub before : Option IdentityRow
  before = lookup pair_keys (channel, id) store.identities

  abbrev linked : UserStore
  linked = record store {
    identities = insert pair_keys (channel, id) (relinked before user t) store.identities;
  }

  lookup-linked_same :
      lookup pair_keys (channel, id) linked.identities ≡ some (relinked before user t)
  lookup-linked_same = ground (
    arith,
    lookup-insert pair_keys (channel, id) (channel, id) (relinked before user t) store.identities,
    text_eq_refl channel,
    text_eq_refl id,
  )

  lookup-linked_other :
      (k : Pair)
      → pair_eq (channel, id) k ≡ false
      → lookup pair_keys k linked.identities ≡ lookup pair_keys k store.identities
  lookup-linked_other k h =
      ground (
        arith,
        lookup-insert pair_keys (channel, id) k (relinked before user t) store.identities,
        h,
      )

  not_orphaned : left_behind before user ≡ some user → has_identity user linked.identities ≡ true
  not_orphaned h = ground (arith, left_behind-other before user user h, text_eq_refl user)

  abbrev settled : UserStore
  settled = cleanup (left_behind before user) user linked

  settled-identities :
      (k : Pair) → lookup pair_keys k settled.identities ≡ lookup pair_keys k linked.identities
  settled-identities k =
      ap (λ m. lookup pair_keys k m) (cleanup-identities (left_behind before user) user linked)

  resolve-settled :
      (c i : Text) (row : IdentityRow)
      → lookup pair_keys (c, i) linked.identities ≡ some row
      → (left_behind before user ≡ some row.user_id
          → has_identity row.user_id linked.identities ≡ true)
      → resolve c i settled
        ≡ Option.map (joined row.user_id) (lookup text_keys row.user_id store.users)
  resolve-settled c i row h kept =
      resolve-of c i settled (some row) (settled-identities (c, i) ∙ h)
      ∙ ap (Option.map (joined row.user_id))
          (lookup-cleanup (left_behind before user) user row.user_id linked kept)

  resolve-same :
      resolve channel id settled ≡ Option.map (joined user) (lookup text_keys user store.users)
  resolve-same =
      resolve-settled channel id (relinked before user t) lookup-linked_same (
        subst (λ u. left_behind before user ≡ some u → has_identity u linked.identities ≡ true)
          (sym (relinked-user before user t)) not_orphaned)
      ∙ ap (λ u. Option.map (joined u) (lookup text_keys u store.users))
          (relinked-user before user t)

  resolve-other :
      (c i : Text) → pair_eq (channel, id) (c, i) ≡ false → resolve c i settled ≡ resolve c i store
  resolve-other c i h = elim (Option-cases (lookup pair_keys (c, i) store.identities)) [
    | inl nothing ↦
        resolve-of c i settled none
          (settled-identities (c, i) ∙ lookup-linked_other (c, i) h ∙ nothing)
        ∙ sym (resolve-of c i store none nothing)
    | inr (row, there) ↦
        let still = lookup-linked_other (c, i) h ∙ there in
        resolve-settled c i row still (λ _. has_identity-lookup (c, i) linked.identities row still)
        ∙ sym (resolve-of c i store (some row) there)
  ]

  link_identity-settled : link_identity user channel id t store ≡ settled
  unfolding link_identity
  link_identity-settled = refl

  -- After a link the identity resolves to the user that it was linked to, or to the user that this one
  -- was merged into, where that user is there; every other identity resolves as it did, though the
  -- user that the identity had before is removed when it has no identity left.
  pub link_identity-resolve :
      (other_channel other_id : Text)
      → pair_eq (channel, id) (other_channel, other_id) ≡ false
      → (resolve channel id (link_identity user channel id t store)
          ≡ Option.map (joined user) (lookup text_keys user store.users))
        × (resolve other_channel other_id (link_identity user channel id t store)
            ≡ resolve other_channel other_id store)
  link_identity-resolve other_channel other_id h = (
    ap (resolve channel id) link_identity-settled ∙ resolve-same,
    ap (resolve other_channel other_id) link_identity-settled
        ∙ resolve-other other_channel other_id h,
  )
