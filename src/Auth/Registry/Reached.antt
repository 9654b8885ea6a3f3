-- ===== src/Auth/Registry/Reached.antt =====
-- The channel registry over its life: registrations, and the two ways to take them back.
use openhermit.Prelude.{
  Text, text_eq, text_eq_iff, text_keys, lookup, erase, lookup-erase, Distinct, insert-Distinct,
  none, some, [], ◌∷◌, In, ◌≡◌, ◌≢◌, ◌⊎◌, inl, inr, refl, ap, arith, Bool-cases, Option-cases,
}
use openhermit.Auth.Registry.{
  ChannelRegistration, ChannelRegistry, Registrations, register, unregister, drop_entry,
  drop_entries, unregister_by_agent, resolve_by_key, resolve_by_id,
}
use openhermit.Auth.Registry.Synced.{
  IsSynced, register-IsSynced, unregister-IsSynced, unregister-none, unregister-some,
}

-- The life of a registry in which no id is registered a second time before it is unregistered.
pub data Reach : ChannelRegistry → Type 0 where
  here : Reach (record { by_key = []; by_id = [] })
  registers :
      {reg : ChannelRegistry} (r : ChannelRegistration)
      → Reach reg
      → resolve_by_id reg r.channel_id ≡ none
      → Reach (register r reg)
  unregisters : {reg : ChannelRegistry} (id : Text) → Reach reg → Reach (unregister id reg)
  leaves :
      {reg : ChannelRegistry} (agent : Text) → Reach reg → Reach (unregister_by_agent agent reg)

lookup-erase-none :
    (k j : Text) (m : Registrations)
    → lookup text_keys j m ≡ none
    → lookup text_keys j (erase text_keys k m) ≡ none
lookup-erase-none k j m h = ground (arith, lookup-erase text_keys k j m)

erase-Distinct :
    (k : Text) (m : Registrations) → Distinct text_keys m → Distinct text_keys (erase text_keys k m)
unfolding erase
erase-Distinct k [] h = h
erase-Distinct k ((j, r) ∷ m) h = elim (Bool-cases (text_eq j k)) [
  | inl same ↦ rw same (erase-Distinct k m h.1)
  | inr other ↦ rw other (lookup-erase-none k j m h.0, erase-Distinct k m h.1)
]

lookup-In_not_none :
    (k : Text) (r : ChannelRegistration) (m : Registrations)
    → In {A = Text × ChannelRegistration} (k, r) m
    → lookup text_keys k m ≢ none
unfolding lookup
lookup-In_not_none k r [] i = absurd i
lookup-In_not_none k r ((j, s) ∷ m) (inl e) = ground (arith, ap (λ x. x.0) e, text_eq_iff j k)
lookup-In_not_none k r ((j, s) ∷ m) (inr i) = ground (arith, lookup-In_not_none k r m i)

-- Of distinct keys every entry is found.
In-lookup :
    (k : Text) (r : ChannelRegistration) (m : Registrations)
    → Distinct text_keys m
    → In {A = Text × ChannelRegistration} (k, r) m
    → lookup text_keys k m ≡ some r
unfolding lookup
In-lookup k r [] h i = absurd i
In-lookup k r ((j, s) ∷ m) h (inl e) =
    ground (arith, ap (λ x. x.0) e, ap (λ x. x.1) e, text_eq_iff j k)
In-lookup k r ((j, s) ∷ m) h (inr i) =
    ground (arith, lookup-In_not_none k r m i, In-lookup k r m h.1 i, text_eq_iff j k)

-- An entry is the one of its id, or its id is gone.
abbrev IsCurrent : Registrations → Text × ChannelRegistration → Type 0
IsCurrent m e = (lookup text_keys e.0 m ≡ some e.1) ⊎ (lookup text_keys e.0 m ≡ none)

drop_entry-IsCurrent :
    (agent id : Text) (r : ChannelRegistration) (reg : ChannelRegistry)
    (e : Text × ChannelRegistration)
    → IsCurrent reg.by_id e
    → IsCurrent (drop_entry agent id r reg).by_id e
drop_entry-IsCurrent agent id r reg e h = ground (arith, lookup-erase text_keys id e.0 reg.by_id)

drop_entry-IsSynced :
    (agent id : Text) (r : ChannelRegistration) (reg : ChannelRegistry)
    → IsSynced reg
    → IsCurrent reg.by_id (id, r)
    → IsSynced (drop_entry agent id r reg)
unfolding resolve_by_key resolve_by_id
drop_entry-IsSynced agent id r reg h current = record {
  at_key = λ k s found. ground (
    arith,
    h.at_key k s,
    lookup-erase text_keys r.api_key k reg.by_key,
    lookup-erase text_keys id s.channel_id reg.by_id,
    text_eq_iff r.api_key k,
    text_eq_iff id s.channel_id,
  );
}

drop_entries-IsSynced :
    (agent : Text) (entries : Registrations) (reg : ChannelRegistry)
    → ((e : Text × ChannelRegistration) → In e entries → IsCurrent reg.by_id e)
    → IsSynced reg
    → IsSynced (drop_entries agent entries reg)
unfolding drop_entries
drop_entries-IsSynced agent [] reg q h = h
drop_entries-IsSynced agent ((id, r) ∷ entries) reg q h =
    drop_entries-IsSynced agent entries (drop_entry agent id r reg)
      (λ e i. drop_entry-IsCurrent agent id r reg e (q e (inr i)))
      (drop_entry-IsSynced agent id r reg h (q (id, r) (inl refl)))

drop_entry-Distinct :
    (agent id : Text) (r : ChannelRegistration) (reg : ChannelRegistry)
    → Distinct text_keys reg.by_id
    → Distinct text_keys (drop_entry agent id r reg).by_id
drop_entry-Distinct agent id r reg h = elim (Bool-cases (text_eq r.agent_id agent)) [
  | inl same ↦ rw same (erase-Distinct id reg.by_id h)
  | inr other ↦ rw other h
]

drop_entries-Distinct :
    (agent : Text) (entries : Registrations) (reg : ChannelRegistry)
    → Distinct text_keys reg.by_id
    → Distinct text_keys (drop_entries agent entries reg).by_id
unfolding drop_entries
drop_entries-Distinct agent [] reg h = h
drop_entries-Distinct agent ((id, r) ∷ entries) reg h =
    drop_entries-Distinct agent entries (drop_entry agent id r reg)
      (drop_entry-Distinct agent id r reg h)

unregister-Distinct :
    (id : Text) (reg : ChannelRegistry)
    → Distinct text_keys reg.by_id
    → Distinct text_keys (unregister id reg).by_id
unfolding resolve_by_id
unregister-Distinct id reg h = elim (Option-cases (resolve_by_id reg id)) [
  | inl nothing ↦ rw (unregister-none id reg nothing) h
  | inr (r, found) ↦ rw (unregister-some id r reg found) (erase-Distinct id reg.by_id h)
]

Reach-Distinct : {reg : ChannelRegistry} → Reach reg → Distinct text_keys reg.by_id
unfolding register unregister_by_agent
Reach-Distinct here = tt
Reach-Distinct {reg = _} (registers {reg = reg} r reached fresh) =
    insert-Distinct text_keys r.channel_id r reg.by_id (Reach-Distinct reached)
Reach-Distinct {reg = _} (unregisters {reg = reg} id reached) =
    unregister-Distinct id reg (Reach-Distinct reached)
Reach-Distinct {reg = _} (leaves {reg = reg} agent reached) =
    drop_entries-Distinct agent reg.by_id reg (Reach-Distinct reached)

unregister_by_agent-IsSynced :
    (agent : Text) (reg : ChannelRegistry)
    → Distinct text_keys reg.by_id
    → IsSynced reg
    → IsSynced (unregister_by_agent agent reg)
unfolding unregister_by_agent
unregister_by_agent-IsSynced agent reg distinct h =
    drop_entries-IsSynced agent reg.by_id reg (λ e i. inl (In-lookup e.0 e.1 reg.by_id distinct i))
      h

-- A new registry has no keys.
empty-IsSynced : IsSynced (record { by_key = []; by_id = [] })
unfolding resolve_by_key lookup
empty-IsSynced = record { at_key = λ k r h. absurd (cc h) }

-- In every state that a registry reaches from the empty one by registrations under ids that are not
-- taken, by unregistering channels, and by unregistering the channels of an agent, every valid key
-- is the key of the registration that its channel id has.
pub Reach-IsSynced : {reg : ChannelRegistry} → Reach reg → IsSynced reg
Reach-IsSynced here = empty-IsSynced
Reach-IsSynced {reg = _} (registers {reg = reg} r reached fresh) =
    register-IsSynced r reg (Reach-IsSynced reached) fresh
Reach-IsSynced {reg = _} (unregisters {reg = reg} id reached) =
    unregister-IsSynced id reg (Reach-IsSynced reached)
Reach-IsSynced {reg = _} (leaves {reg = reg} agent reached) =
    unregister_by_agent-IsSynced agent reg (Reach-Distinct reached) (Reach-IsSynced reached)
