-- ===== src/Auth/Registry.antt =====
-- `ChannelRegistry` of apps/gateway/src/auth.ts.
pub mod Synced
pub mod Reached
use openhermit.Prelude.{
  Text, text_eq, text_keys, Bool, Option, none, some, or_else, List, [], ◌∷◌, lookup, insert, erase,
  ◌≡◌, ◌≢◌, if◌then◌else◌,
}

pub record ChannelRegistration : Type 0 where
  pub channel_id : Text
  pub api_key : Text
  pub namespace : Option Text
  pub agent_id : Text

abbrev pub Registrations : Type 0
Registrations = List (Text × ChannelRegistration)

pub record ChannelRegistry : Type 0 where
  pub by_key : Registrations
  pub by_id : Registrations

unfoldable pub register : ChannelRegistration → ChannelRegistry → ChannelRegistry
register r reg = record {
  by_key = insert text_keys r.api_key r reg.by_key;
  by_id = insert text_keys r.channel_id r reg.by_id;
}

unfoldable pub unregister : Text → ChannelRegistry → ChannelRegistry
unregister channel_id reg = elim (lookup text_keys channel_id reg.by_id) [
  | none ↦ reg
  | some r ↦ record {
    by_key = erase text_keys r.api_key reg.by_key;
    by_id = erase text_keys channel_id reg.by_id;
  }
]

-- One round of the loop of `unregisterByAgent`, for one entry of `byId`.
abbrev drop_entry : Text → Text → ChannelRegistration → ChannelRegistry → ChannelRegistry
drop_entry agent_id id r reg =
    if text_eq r.agent_id agent_id
    then record {
      by_key = erase text_keys r.api_key reg.by_key;
      by_id = erase text_keys id reg.by_id;
    }
    else reg

unfoldable pub drop_entries : Text → Registrations → ChannelRegistry → ChannelRegistry
drop_entries agent_id [] reg = reg
drop_entries agent_id ((id, r) ∷ entries) reg =
    drop_entries agent_id entries (drop_entry agent_id id r reg)

unfoldable pub unregister_by_agent : Text → ChannelRegistry → ChannelRegistry
unfolding drop_entries
unregister_by_agent agent_id reg = drop_entries agent_id reg.by_id reg

unfoldable pub resolve_by_key : ChannelRegistry → Text → Option ChannelRegistration
resolve_by_key reg api_key = lookup text_keys api_key reg.by_key

unfoldable pub resolve_by_id : ChannelRegistry → Text → Option ChannelRegistration
resolve_by_id reg channel_id = lookup text_keys channel_id reg.by_id

unfoldable pub get_namespace : ChannelRegistration → Text
get_namespace r = or_else r.namespace r.channel_id

unfoldable pub validate_sender_namespace : ChannelRegistration → Text → Bool
unfolding get_namespace
validate_sender_namespace r sender_channel = text_eq sender_channel (get_namespace r)
