-- ===== src/SessionStore/Writes.antt =====
-- What stays of a session under any writes, and what a write of what was read does.
use mathlib.Core.Option
use openhermit.Prelude.{
  ℕ, Text, or_else, ◌==◌, Bool, true, false, not, Bool-cases, Option, none, some, All, List, [],
  ◌∷◌, Eq, subst, lookup, lookup-insert, insert, filter, ◌≡◌, inl, inr, refl, sym, ap, ◌∙◌, arith,
  if◌then◌else◌,
}
use openhermit.Users.{Pair, pair_keys}
use openhermit.Sessions.{SessionStatus, inactive}
use openhermit.SessionStore.{
  SessionEntry, SessionType, direct, group, type_of, given_type, DescriptionSource, SessionRow,
  SessionStore, Identity, Runtime, immutable, upserted, upsert, update_where, is_session,
  update_description, update_status, Progress, nothing, events_only, both, delete, is_stale,
  mark_stale_inactive, get, row_to_entry, unless_empty,
}

pub data Write : Type 0 where
  upserts : Text → SessionEntry → Write
  describes : Text → Text → Text → DescriptionSource → Write
  sets_status : Text → Text → SessionStatus → Write
  removes : Progress → Text → Text → Write
  ages : Text → ℕ → Write

abbrev pub write : Write → SessionStore → SessionStore
write (upserts agent_id e) store = upsert agent_id e store
write (describes agent_id session_id description source) store =
    update_description agent_id session_id description source store
write (sets_status agent_id session_id status) store =
    update_status agent_id session_id status store
write (removes progress agent_id session_id) store = delete progress agent_id session_id store
write (ages agent_id older_than) store = (mark_stale_inactive agent_id older_than store).1

unfoldable pub write_all : List Write → SessionStore → SessionStore
write_all [] store = store
write_all (w ∷ ws) store = write_all ws (write w store)

abbrev pub spares : Text → Text → Write → Bool
spares a s (removes progress agent_id session_id) = not (is_session agent_id session_id (a, s))
spares a s _ = true

abbrev pub row_at : Text → Text → SessionStore → Option SessionRow
row_at agent_id session_id store = lookup pair_keys (agent_id, session_id) store.sessions

-- The identity that a row has.
abbrev pub identity_at : Text → Text → SessionStore → Option Identity
identity_at agent_id session_id store =
    Option.map (λ (row : SessionRow). row.identity) (row_at agent_id session_id store)

lookup-update_where :
    (e : Eq Pair) (k : Pair) (test : Pair → SessionRow → Bool) (f : Runtime → Runtime)
    (rows : List (Pair × SessionRow))
    → lookup e k (update_where test f rows)
      ≡ Option.map
          (λ (row : SessionRow). if test k row then record row { runtime = f row.runtime } else row)
          (lookup e k rows)
unfolding lookup update_where
lookup-update_where e k test f [] = refl
lookup-update_where e k test f ((j, row) ∷ rows) =
    let rest = lookup-update_where e k test f rows in
    let at : (b : Bool) → e.beq j k ≡ true → test j row ≡ b → test k row ≡ b =
      λ b same is. subst (λ i. test i row ≡ b) ((e.beq_iff j k).0 same) is in
    elim (Bool-cases (test j row)) [
      | inl chosen ↦ elim (Bool-cases (e.beq j k)) [
        | inl same ↦ rw (chosen, same) (rw (at true same chosen) refl)
        | inr other ↦ rw (chosen, other) rest
      ]
      | inr left ↦ elim (Bool-cases (e.beq j k)) [
        | inl same ↦ rw (left, same) (rw (at false same left) refl)
        | inr other ↦ rw (left, other) rest
      ]
    ]

pub lookup-filter :
    {V : Type 0} (e : Eq Pair) (k : Pair) (keep : Pair → Bool) (rows : List (Pair × V))
    → keep k ≡ true
    → lookup e k (filter (λ row. keep row.0) rows) ≡ lookup e k rows
unfolding lookup
lookup-filter e k keep [] kept = refl
lookup-filter e k keep ((j, v) ∷ rows) kept =
    let rest = lookup-filter e k keep rows kept in
    let at : e.beq j k ≡ true → keep j ≡ true =
      λ same. subst (λ i. keep i ≡ true) (sym ((e.beq_iff j k).0 same)) kept in
    elim (Bool-cases (keep j)) [
      | inl stays ↦ elim (Bool-cases (e.beq j k)) [
        | inl same ↦ rw (stays, same) refl
        | inr other ↦ rw (stays, other) rest
      ]
      | inr goes ↦ elim (Bool-cases (e.beq j k)) [
        | inl same ↦ absurd (cc (at same, goes))
        | inr other ↦ rw (goes, other) rest
      ]
    ]

-- An insertion of what is there.
insert-same :
    {V : Type 0} (e : Eq Pair) (k : Pair) (v : V) (m : List (Pair × V))
    → lookup e k m ≡ some v
    → insert e k v m ≡ m
unfolding lookup insert
insert-same e k v [] h = absurd (cc h)
insert-same e k v ((j, w) ∷ m) h = elim (Bool-cases (e.beq j k)) [
  | inl same ↦ ground (arith, same, h)
  | inr other ↦ ground (arith, other, insert-same e k v m (rw other at h))
]

same_identity :
    (test : SessionRow → Bool) (f : Runtime → Runtime) (o : Option SessionRow)
    → Option.map
        (λ (row : SessionRow). row.identity)
        (Option.map
          (λ (row : SessionRow). if test row then record row { runtime = f row.runtime } else row)
          o)
      ≡ Option.map (λ (row : SessionRow). row.identity) o
same_identity test f none = refl
same_identity test f (some row) = elim (Bool-cases (test row)) [
  | inl chosen ↦ rw chosen refl
  | inr left ↦ rw left refl
]

updated-keeps :
    (a s : Text) (test : Pair → SessionRow → Bool) (f : Runtime → Runtime) (store : SessionStore)
    → identity_at a s (record store { sessions = update_where test f store.sessions })
      ≡ identity_at a s store
updated-keeps a s test f store =
    rw (lookup-update_where pair_keys (a, s) test f store.sessions)
      (same_identity (λ row. test (a, s) row) f (row_at a s store))

upserted-keeps :
    (e : SessionEntry) (o : Option SessionRow) (i : Identity)
    → Option.map (λ (row : SessionRow). row.identity) o ≡ some i
    → (upserted e o).identity ≡ i
upserted-keeps e none i h = absurd (cc h)
upserted-keeps e (some row) i h = ground (arith, h)

upsert-keeps :
    (a s agent_id : Text) (e : SessionEntry) (store : SessionStore) (i : Identity)
    → identity_at a s store ≡ some i
    → identity_at a s (upsert agent_id e store) ≡ some i
unfolding upsert
upsert-keeps a s agent_id e store i h =
    let new =
      lookup-insert pair_keys (agent_id, e.session_id) (a, s)
        (upserted e (row_at agent_id e.session_id store)) store.sessions in
    elim (Bool-cases (pair_keys.beq (agent_id, e.session_id) (a, s))) [
      | inl same ↦
          let there : (agent_id, e.session_id) ≡ (a, s) =
            (pair_keys.beq_iff (agent_id, e.session_id) (a, s)).0 same in
          let before : Option.map (λ (row : SessionRow). row.identity)
                (row_at agent_id e.session_id store)
              ≡ some i =
            subst
              (λ k.
                Option.map (λ (row : SessionRow). row.identity) (lookup pair_keys k store.sessions)
                ≡ some i)
              (sym there) h in
          rw new
            (rw same (ap some (upserted-keeps e (row_at agent_id e.session_id store) i before)))
      | inr other ↦ rw new (rw other h)
    ]

write-keeps :
    (a s : Text) (w : Write) (store : SessionStore) (i : Identity)
    → spares a s w ≡ true
    → identity_at a s store ≡ some i
    → identity_at a s (write w store) ≡ some i
unfolding update_description update_status delete mark_stale_inactive
write-keeps a s (upserts agent_id e) store i spared h = upsert-keeps a s agent_id e store i h
write-keeps a s (describes agent_id session_id description source) store i spared h =
    updated-keeps a s (λ key row. is_session agent_id session_id key)
      (λ r. record r { description = some description; description_source = some source }) store
    ∙ h
write-keeps a s (sets_status agent_id session_id status) store i spared h =
    updated-keeps a s (λ key row. is_session agent_id session_id key)
      (λ r. record r { status = status }) store
    ∙ h
write-keeps a s (removes nothing agent_id session_id) store i spared h = h
write-keeps a s (removes events_only agent_id session_id) store i spared h = h
write-keeps a s (removes both agent_id session_id) store i spared h =
    rw
      (lookup-filter pair_keys (a, s) (λ key. not (is_session agent_id session_id key))
        store.sessions spared)
      h
write-keeps a s (ages agent_id older_than) store i spared h =
    updated-keeps a s (is_stale agent_id older_than) (λ r. record r { status = inactive }) store ∙ h

writes-keep :
    (a s : Text) (ws : List Write) (store : SessionStore) (i : Identity)
    → All (λ w. spares a s w ≡ true) ws
    → identity_at a s store ≡ some i
    → identity_at a s (write_all ws store) ≡ some i
unfolding write_all
writes-keep a s [] store i spared h = h
writes-keep a s (w ∷ ws) store i spared h =
    writes-keep a s ws (write w store) i spared.1 (write-keeps a s w store i spared.0 h)

-- What an entry says of where its session comes from.
pub record HasIdentityOf (e g : SessionEntry) : Type 0 where
  pub same_kind : g.source_kind ≡ e.source_kind
  pub same_platform : g.source_platform ≡ e.source_platform
  pub same_interactive : g.source_interactive ≡ e.source_interactive
  pub same_created_at : g.created_at ≡ e.created_at
  pub same_type : type_of g.type g.source_type ≡ type_of e.type e.source_type

given_again : (t : SessionType) → type_of (given_type t) (given_type t) ≡ t
given_again direct = refl
given_again group = refl

flag_again : (b : Bool) → ((if b then 1 else 0) == 1) ≡ b
flag_again true = refl
flag_again false = refl

read-HasIdentityOf :
    (s : Text) (e : SessionEntry) (o : Option SessionRow)
    → Option.map (λ (row : SessionRow). row.identity) o ≡ some (immutable e)
    → (g : SessionEntry) × (Option.map (row_to_entry s) o ≡ some g) × HasIdentityOf e g
read-HasIdentityOf s e none h = absurd (cc h)
read-HasIdentityOf s e (some row) h =
    let at : row.identity ≡ immutable e = ground (arith, h) in
    (
      row_to_entry s row,
      refl,
      record {
        same_kind = ap (λ (i : Identity). i.source_kind) at;
        same_platform = ap (λ (i : Identity). i.source_platform) at;
        same_interactive =
            ap (λ (i : Identity). i.interactive == 1) at ∙ flag_again e.source_interactive;
        same_created_at = ap (λ (i : Identity). i.created_at) at;
        same_type = given_again row.identity.type ∙ ap (λ (i : Identity). i.type) at;
      },
    )

fresh-identity :
    (a : Text) (e : SessionEntry) (store : SessionStore)
    → row_at a e.session_id store ≡ none
    → identity_at a e.session_id (upsert a e store) ≡ some (immutable e)
unfolding upsert
fresh-identity a e store fresh =
    rw
      (lookup-insert pair_keys (a, e.session_id) (a, e.session_id)
        (upserted e (row_at a e.session_id store)) store.sessions)
      (rw ((pair_keys.beq_iff (a, e.session_id) (a, e.session_id)).1 refl) (rw fresh refl))

-- The kind, platform and type of a session's source and the instant of its creation stay those of the
-- entry that made it, whatever is written after it for any session and agent, until that session is
-- deleted.
pub upsert-HasIdentityOf :
    (a : Text) (e : SessionEntry) (ws : List Write) (store : SessionStore)
    → row_at a e.session_id store ≡ none
    → All (λ w. spares a e.session_id w ≡ true) ws
    → (g : SessionEntry) × (get a e.session_id (write_all ws (upsert a e store)) ≡ some g)
      × HasIdentityOf e g
unfolding get
upsert-HasIdentityOf a e ws store fresh spared =
    read-HasIdentityOf e.session_id e (row_at a e.session_id (write_all ws (upsert a e store))) (
      writes-keep a e.session_id ws (upsert a e store) (immutable e) spared
        (fresh-identity a e store fresh))

again_list : {A : Type 0} (xs : List A) → or_else (unless_empty xs) [] ≡ xs
again_list [] = refl
again_list (x ∷ xs) = refl

row_again : (s : Text) (row : SessionRow) → upserted (row_to_entry s row) (some row) ≡ row
row_again s row = rw (again_list row.runtime.metadata, again_list row.runtime.user_ids) refl

read_again :
    (a s : Text) (e : SessionEntry) (store : SessionStore) (o : Option SessionRow)
    → row_at a s store ≡ o
    → Option.map (row_to_entry s) o ≡ some e
    → upsert a e store ≡ store
unfolding upsert
read_again a s e store none at h = absurd (cc h)
read_again a s e store (some row) at h =
    let read : row_to_entry s row ≡ e = ground (arith, h) in
    subst (λ g. upsert a g store ≡ store) read
      (rw at (
        rw (row_again s row) (
          ap (λ rows. record store { sessions = rows })
            (insert-same pair_keys (a, s) row store.sessions at))))

-- Writing back an entry as it was read changes nothing in the store.
pub upsert-get :
    (a s : Text) (e : SessionEntry) (store : SessionStore)
    → get a s store ≡ some e
    → upsert a e store ≡ store
unfolding get
upsert-get a s e store h = read_again a s e store (row_at a s store) refl h
