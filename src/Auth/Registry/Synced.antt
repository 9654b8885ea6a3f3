-- ===== src/Auth/Registry/Synced.antt =====
-- The two maps of the channel registry: which keys stay valid.
use openhermit.Prelude.{
  Text, text_eq_iff, text_eq_refl, text_keys, Option-cases, none, some, [], ◌∷◌, insert, erase,
  lookup-insert, lookup-erase, In, ◌≡◌, ◌≢◌, inl, inr, ap, sym, subst, ◌∙◌, lookup-In, arith,
}
use openhermit.Auth.Registry.{
  ChannelRegistration, ChannelRegistry, Registrations, register, unregister, drop_entry,
  drop_entries, unregister_by_agent, resolve_by_key, resolve_by_id,
}

-- Every valid key is the key of the registration that its channel id has.
pub record IsSynced (reg : ChannelRegistry) : Type 0 where
  pub at_key :
      (k : Text) (r : ChannelRegistration)
      → resolve_by_key reg k ≡ some r
      → (r.api_key ≡ k) × (resolve_by_id reg r.channel_id ≡ some r)

-- In a registry whose maps are in step (every valid key is the key of the registration that its
-- channel id has), registering a channel under an id that is not taken keeps them in step.
pub register-IsSynced :
    (r : ChannelRegistration) (reg : ChannelRegistry)
    → IsSynced reg
    → resolve_by_id reg r.channel_id ≡ none
    → IsSynced (register r reg)
unfolding register resolve_by_key resolve_by_id
register-IsSynced r reg h fresh = record {
  at_key = λ k s found. ground (
    arith,
    h.at_key k s,
    lookup-insert text_keys r.api_key k r reg.by_key,
    lookup-insert text_keys r.channel_id s.channel_id r reg.by_id,
    text_eq_iff r.api_key k,
    text_eq_iff r.channel_id s.channel_id,
  );
}

-- Taking out a channel with its key keeps the maps in step.
erase-IsSynced :
    (id : Text) (r : ChannelRegistration) (reg : ChannelRegistry)
    → IsSynced reg
    → resolve_by_id reg id ≡ some r
    → IsSynced (record {
      by_key = erase text_keys r.api_key reg.by_key;
      by_id = erase text_keys id reg.by_id;
    })
unfolding resolve_by_key resolve_by_id
erase-IsSynced id r reg h at_id = record {
  at_key = λ k s found. ground (
    arith,
    h.at_key k s,
    lookup-erase text_keys r.api_key k reg.by_key,
    lookup-erase text_keys id s.channel_id reg.by_id,
    text_eq_iff r.api_key k,
    text_eq_iff id s.channel_id,
  );
}

pub unregister-none :
    (id : Text) (reg : ChannelRegistry) → resolve_by_id reg id ≡ none → unregister id reg ≡ reg
unfolding unregister resolve_by_id
unregister-none id reg h = ground (arith, h)

pub unregister-some :
    (id : Text) (r : ChannelRegistration) (reg : ChannelRegistry)
    → resolve_by_id reg id ≡ some r
    → unregister id reg ≡ record {
      by_key = erase text_keys r.api_key reg.by_key;
      by_id = erase text_keys id reg.by_id;
    }
unfolding unregister resolve_by_id
unregister-some id r reg h = ground (arith, h)

-- In a registry whose maps are in step, unregistering a channel, known or not, keeps them in step.
pub unregister-IsSynced :
    (id : Text) (reg : ChannelRegistry) → IsSynced reg → IsSynced (unregister id reg)
unregister-IsSynced id reg h = elim (Option-cases (resolve_by_id reg id)) [
  | inl nothing ↦ subst IsSynced (sym (unregister-none id reg nothing)) h
  | inr (r, at_id) ↦
      subst IsSynced (sym (unregister-some id r reg at_id)) (erase-IsSynced id r reg h at_id)
]

-- Unregistering a channel whose registration was replaced by one under another key leaves the
-- first key valid: `register` for an id that is taken does not remove the key of the registration
-- before.
pub unregister-register_again :
    (r s : ChannelRegistration) (reg : ChannelRegistry)
    → s.channel_id ≡ r.channel_id
    → s.api_key ≢ r.api_key
    → resolve_by_key (unregister r.channel_id (register s (register r reg))) r.api_key ≡ some r
unfolding unregister register resolve_by_key
unregister-register_again r s reg same other = ground (
  arith,
  lookup-insert text_keys s.channel_id r.channel_id s (insert text_keys r.channel_id r reg.by_id),
  lookup-erase text_keys s.api_key r.api_key
      (insert text_keys s.api_key s (insert text_keys r.api_key r reg.by_key)),
  lookup-insert text_keys s.api_key r.api_key s (insert text_keys r.api_key r reg.by_key),
  lookup-insert text_keys r.api_key r.api_key r reg.by_key,
  text_eq_iff s.channel_id r.channel_id,
  text_eq_iff s.api_key r.api_key,
  text_eq_refl r.api_key,
)

-- Dropping entries takes keys away and adds none.
drop_entries-shrinks :
    (agent : Text) (entries : Registrations) (reg : ChannelRegistry) (k : Text)
    (s : ChannelRegistration)
    → resolve_by_key (drop_entries agent entries reg) k ≡ some s
    → resolve_by_key reg k ≡ some s
unfolding drop_entries resolve_by_key
drop_entries-shrinks agent [] reg k s h = h
drop_entries-shrinks agent ((id, r) ∷ entries) reg k s h =
    let reg' = drop_entry agent id r reg in
    let kept : resolve_by_key reg' k ≡ some s = drop_entries-shrinks agent entries reg' k s h in
    ground (arith, kept, lookup-erase text_keys r.api_key k reg.by_key)

drop_entry-gone :
    (agent id : Text) (r : ChannelRegistration) (reg : ChannelRegistry)
    → r.agent_id ≡ agent
    → resolve_by_key (drop_entry agent id r reg) r.api_key ≡ none
unfolding resolve_by_key
drop_entry-gone agent id r reg same = ground (
  arith,
  text_eq_iff r.agent_id agent,
  lookup-erase text_keys r.api_key r.api_key reg.by_key,
  text_eq_refl r.api_key,
)

-- The key of an entry of the agent is gone.
drop_entries-gone :
    (agent : Text) (entries : Registrations) (reg : ChannelRegistry) (id : Text)
    (r : ChannelRegistration)
    → In {A = Text × ChannelRegistration} (id, r) entries
    → r.agent_id ≡ agent
    → resolve_by_key (drop_entries agent entries reg) r.api_key ≡ none
unfolding drop_entries
drop_entries-gone agent [] reg id r m same = elim m [ ]
drop_entries-gone agent ((id', r') ∷ entries) reg id r (inr m) same =
    drop_entries-gone agent entries (drop_entry agent id' r' reg) id r m same
drop_entries-gone agent ((id', r') ∷ entries) reg id r (inl e) same =
    let reg' = drop_entry agent id' r' reg in
    elim (Option-cases (resolve_by_key (drop_entries agent entries reg') r.api_key)) [
      | inl nothing ↦ nothing
      | inr (s, found) ↦ absurd (
          cc (
            drop_entry-gone agent id' r' reg (ap (λ x. x.1.agent_id) (sym e) ∙ same),
            ap (λ x. x.1.api_key) e,
            drop_entries-shrinks agent entries reg' r.api_key s found,
          ))
    ]

-- In a registry whose maps are in step, after all channels of an agent are unregistered, no key
-- that is still valid is of that agent.
pub unregister_by_agent-no_key :
    (agent : Text) (reg : ChannelRegistry) (k : Text) (r : ChannelRegistration)
    → IsSynced reg
    → resolve_by_key (unregister_by_agent agent reg) k ≡ some r
    → r.agent_id ≢ agent
unfolding unregister_by_agent resolve_by_id
unregister_by_agent-no_key agent reg k r h found same =
    let kept = drop_entries-shrinks agent reg.by_id reg k r found in
    let (key, at_id) = h.at_key k r kept in
    let stands = lookup-In text_keys r.channel_id reg.by_id r at_id in
    let gone = drop_entries-gone agent reg.by_id reg r.channel_id r stands same in
    cc (found, key, gone)
