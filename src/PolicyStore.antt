-- ===== src/PolicyStore.antt =====
-- packages/store/src/impl/policy-store.ts: the table of policy rows, in the order in which the database
-- returns them. The id that `randomUUID` draws and the clock are arguments.
pub mod Kept
use openhermit.Prelude.{
  ℕ, Text, text_eq, Bool, true, not, ◌&&◌, Option, none, some, List, [], ◌∷◌, ◌++◌, find, filter,
  map, truthy, if◌then◌else◌,
}
use openhermit.Policy.{PolicyRow, PolicyEffect, effect_eq}

pub record PolicyRecord : Type 0 where
  pub id : Text
  pub row : PolicyRow
  pub created_at : ℕ
  pub updated_at : ℕ

-- The conditions of `get` and `delete`; no effect stands for any.
abbrev pub has_effect : Option PolicyEffect → PolicyRow → Bool
has_effect none r = true
has_effect (some e) r = effect_eq r.effect e

abbrev pub is_for : Text → Text → Text → Option PolicyEffect → PolicyRecord → Bool
is_for agent_id resource_type resource_key effect r =
    text_eq r.row.agent_id agent_id
    && (text_eq r.row.resource_type resource_type
        && (text_eq r.row.resource_key resource_key && has_effect effect r.row))

abbrev of_type : Option Text → PolicyRow → Bool
of_type none r = true
of_type (some t) r = if truthy t then text_eq r.resource_type t else true

unfoldable pub list_policies : Text → Option Text → List PolicyRecord → List PolicyRecord
list_policies agent_id resource_type rows =
    filter (λ r. text_eq r.row.agent_id agent_id && of_type resource_type r.row) rows

unfoldable pub get_policy :
    Text → Text → Text → Option PolicyEffect → List PolicyRecord → Option PolicyRecord
get_policy agent_id resource_type resource_key effect rows =
    find (is_for agent_id resource_type resource_key effect) rows

-- `set({ grants, scope, updatedAt })`
abbrev pub with_input : ℕ → PolicyRow → PolicyRecord → PolicyRecord
with_input now input r = record r {
  row = record (r.row) {
    grants = input.grants;
    scope_sandbox = input.scope_sandbox;
    scope_mode = input.scope_mode;
    scope_path = input.scope_path;
    scope_command = input.scope_command;
    scope_cwd = input.scope_cwd;
  };
  updated_at = now;
}

-- `update ... where id = id`
unfoldable pub update_policy : Text → ℕ → PolicyRow → List PolicyRecord → List PolicyRecord
update_policy id now input [] = []
update_policy id now input (r ∷ rows) =
    let rest = update_policy id now input rows in
    if text_eq r.id id then with_input now input r ∷ rest else r ∷ rest

abbrev pub new_record : Text → ℕ → PolicyRow → PolicyRecord
new_record id now input = record { id = id; row = input; created_at = now; updated_at = now }

abbrev pub written :
    Option PolicyRecord
    → Text
    → ℕ
    → PolicyRow
    → List PolicyRecord
    → PolicyRecord × List PolicyRecord
written none id now input rows = (new_record id now input, rows ++ new_record id now input ∷ [])
written (some r) id now input rows = (with_input now input r, update_policy r.id now input rows)

-- The record that `upsert` returns, and the table.
unfoldable pub upsert_policy :
    Text → ℕ → PolicyRow → List PolicyRecord → PolicyRecord × List PolicyRecord
upsert_policy id now input rows =
    written
      (get_policy input.agent_id input.resource_type input.resource_key (some input.effect) rows) id
      now input rows

unfoldable pub delete_policy :
    Text → Text → Text → Option PolicyEffect → List PolicyRecord → List PolicyRecord
delete_policy agent_id resource_type resource_key effect rows =
    filter (λ r. not (is_for agent_id resource_type resource_key effect r)) rows
