-- ===== src/ExecBackends/Manager.antt =====
-- The manager of the backends of apps/agent/src/core/exec-backend.ts.
pub mod Default
use openhermit.Prelude.{
  Text, codes, text_eq, text_keys, lookup, insert, find, or_else, is_some, map, Bool, Option, none,
  some, List, [], ◌∷◌, if◌then◌else◌,
}
use openhermit.ExecBackends.{
  Checked, fails, succeeds, ExecError, none_configured, no_sandboxes, default_not_found, not_found,
  ExecBackendConfig, ExecConfig, SandboxRow, Factories, assign_ids, create_all,
}

pub record ExecBackendManager (B : Type 0) : Type 0 where
  pub backends : List (Text × B)
  pub default_id : Text

module _ {B : Type 0} (id_of : B → Text) where
  -- `new Map(backends.map(...))`: of two backends with one id the later one stays.
  unfoldable pub with_backends : List (Text × B) → List B → List (Text × B)
  with_backends m [] = m
  with_backends m (b ∷ bs) = with_backends (insert text_keys (id_of b) b m) bs

  -- The constructor.
  unfoldable pub new_manager : List B → Option Text → Checked (ExecBackendManager B)
  unfolding with_backends
  new_manager [] default_id = fails none_configured
  new_manager (b ∷ bs) default_id =
      let backends = with_backends [] (b ∷ bs) in
      let target = or_else default_id (id_of b) in
      if is_some (lookup text_keys target backends)
      then succeeds (record { backends = backends; default_id = target })
      else fails (default_not_found target)

  abbrev pub manage : Checked (List B) → Option Text → Checked (ExecBackendManager B)
  manage (fails e) default_id = fails e
  manage (succeeds bs) default_id = new_manager bs default_id

module _ {S C B : Type 0} (id_of : B → Text) (fs : Factories S C B) where
  abbrev managed :
      C
      → Option Text
      → Option (List (ExecBackendConfig S))
      → Option (Checked (ExecBackendManager B))
  managed context default_id none = none
  managed context default_id (some configs) =
      some (manage id_of (create_all fs (map (λ c. (c, context)) configs)) default_id)

  abbrev pub host_config : S → ExecBackendConfig S
  host_config host = record { id = some (codes "host"); kind = codes "host"; settings = host }

  -- The configurations and the default id that are used; `host` are the settings of the backend
  -- that is made where none is configured.
  abbrev pub configured : S → List (ExecBackendConfig S) → List (ExecBackendConfig S)
  configured host [] = host_config host ∷ []
  configured host (c ∷ cs) = c ∷ cs

  abbrev pub configured_default : List (ExecBackendConfig S) → Option Text → Option Text
  configured_default [] d = none
  configured_default (c ∷ cs) d = d

  unfoldable pub from_config :
      S → C → Option (ExecConfig S) → Option (Checked (ExecBackendManager B))
  unfolding assign_ids
  from_config host context none = managed context none (assign_ids [] (configured host []))
  from_config host context (some exec) =
      managed context (configured_default exec.backends exec.default_backend)
        (assign_ids [] (configured host exec.backends))

  abbrev is_default : SandboxRow S → Bool
  is_default row = text_eq row.alias (codes "default")

  abbrev alias_of : Option (SandboxRow S) → Option Text
  alias_of none = none
  alias_of (some row) = some row.alias

  abbrev pub row_config : SandboxRow S → ExecBackendConfig S
  row_config row = record { id = some row.alias; kind = row.kind; settings = row.settings }

  -- The context of a row reads and writes the state of its sandbox.
  unfoldable pub from_sandbox_rows :
      (Text → C) → List (SandboxRow S) → Checked (ExecBackendManager B)
  from_sandbox_rows context_for [] = fails no_sandboxes
  from_sandbox_rows context_for (row ∷ rows) =
      manage id_of (create_all fs (map (λ r. (row_config r, context_for r.id)) (row ∷ rows)))
        (some (or_else (alias_of (find is_default (row ∷ rows))) row.alias))

module _ {B : Type 0} where
  abbrev found_or : Text → Option B → Checked B
  found_or target none = fails (not_found target)
  found_or target (some b) = succeeds b

  unfoldable pub get : ExecBackendManager B → Option Text → Checked B
  get m id =
      let target = or_else id m.default_id in found_or target (lookup text_keys target m.backends)

  unfoldable pub get_default : ExecBackendManager B → Checked B
  unfolding get
  get_default m = get m (some m.default_id)

  unfoldable pub list : ExecBackendManager B → List B
  list m = map (λ e. e.1) m.backends
