-- ===== src/ExecBackends.antt =====
-- apps/agent/src/core/exec-backend.ts: the registry of factories and the manager of an agent's
-- execution backends. What a factory makes, and the id of what it made, are parameters; so are the
-- settings of a backend.
pub mod UniqueIds
pub mod Manager
use openhermit.Prelude.{
  ℕ, zero, suc, ◌+◌, Text, codes, text_eq, text_keys, truthy, decimal, lookup, insert, length, find,
  some_of, or_else, is_some, map, Bool, true, false, Option, none, some, List, [], ◌∷◌, ◌++◌,
  if◌then◌else◌, ◌>>=◌,
}

-- The error classes with the text that their message names.
pub data ExecError : Type 0 where
  none_configured no_sandboxes : ExecError
  unknown_type default_not_found not_found : Text → ExecError

pub data Checked (A : Type 0) : Type 0 where
  fails : ExecError → Checked A
  succeeds : A → Checked A

pub record ExecBackendConfig (S : Type 0) : Type 0 where
  pub id : Option Text
  pub kind : Text
  pub settings : S

pub record ExecConfig (S : Type 0) : Type 0 where
  pub backends : List (ExecBackendConfig S)
  pub default_backend : Option Text

pub record SandboxRow (S : Type 0) : Type 0 where
  pub id : Text
  pub alias : Text
  pub kind : Text
  pub settings : S

-- `!id` is false at a text that is not empty.
abbrev pub present_id : Option Text → Option Text
present_id none = none
present_id (some i) = if truthy i then some i else none

-- `usedIds.has(id)`
abbrev pub has_id : List Text → Text → Bool
has_id used i = some_of (λ u. text_eq u i) used

-- The ids that the loop tries: the type, then `type-2`, `type-3` and so on.
unfoldable pub candidate : Text → ℕ → Text
candidate kind zero = kind
candidate kind (suc k) = kind ++ (codes "-" ++ decimal (k + 2))

unfoldable pub first_unused : ℕ → ℕ → Text → List Text → Option Text
first_unused zero k kind used = none
first_unused (suc fuel) k kind used =
    let rest = first_unused fuel (k + 1) kind used in
    if has_id used (candidate kind k) then rest else some (candidate kind k)

-- One of more candidates than there are used ids is not used.
abbrev pub unused_id : Text → List Text → Option Text
unused_id kind used = first_unused (suc (length used)) 0 kind used

abbrev pub id_for : List Text → Text → Option Text → Option Text
id_for used kind none = unused_id kind used
id_for used kind (some i) = some i

module _ {S : Type 0} where
  -- The loop over the configurations, which gives each one an id.
  unfoldable pub assign_ids :
      List Text → List (ExecBackendConfig S) → Option (List (ExecBackendConfig S))
  assign_ids used [] = some []
  assign_ids used (c ∷ cs) = id_for used c.kind (present_id c.id) >>= λ i.
      assign_ids (i ∷ used) cs >>= λ ds. some (record c { id = some i } ∷ ds)

-- The map of the factories; a factory is given the context as well.
abbrev pub Factories : Type 0 → Type 0 → Type 0 → Type 0
Factories S C B = List (Text × (ExecBackendConfig S → C → B))

abbrev pub add_backend : {B : Type 0} → Checked B → Checked (List B) → Checked (List B)
add_backend (fails e) rest = fails e
add_backend (succeeds b) (fails e) = fails e
add_backend (succeeds b) (succeeds bs) = succeeds (b ∷ bs)

module _ {S C B : Type 0} where
  unfoldable pub register_exec_backend :
      Text → (ExecBackendConfig S → C → B) → Factories S C B → Factories S C B
  register_exec_backend kind factory fs = insert text_keys kind factory fs

  abbrev pub create_exec_backend : Factories S C B → ExecBackendConfig S → C → Checked B
  create_exec_backend fs config context = elim (lookup text_keys config.kind fs) [
    | none ↦ fails (unknown_type config.kind)
    | some factory ↦ succeeds (factory config context)
  ]

  -- `configs.map(...)`: the first type that is unknown is thrown.
  unfoldable pub create_all : Factories S C B → List (ExecBackendConfig S × C) → Checked (List B)
  create_all fs [] = succeeds []
  create_all fs ((config, context) ∷ rest) =
      add_backend (create_exec_backend fs config context) (create_all fs rest)
