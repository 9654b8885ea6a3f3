-- ===== src/Tests/Backends.antt =====
-- The execution backends: two of one type, and one whose id is taken.
use openhermit.Prelude.{
  Text, codes, text_eq, lookup, insert, or_else, Option, none, some, List, [], ◌∷◌, decimal,
  digits_of, ◌≡◌, refl,
}
use openhermit.ExecBackends.{
  ExecBackendConfig, Checked, succeeds, candidate, first_unused, assign_ids, create_all,
}
use openhermit.ExecBackends.UniqueIds.{AssignedFrom, assign_ids-AssignedFrom}
use openhermit.ExecBackends.Manager.{ExecBackendManager, with_backends, new_manager, from_config}

abbrev docker : Option Text → ExecBackendConfig Text
docker id = record { id = id; kind = codes "docker"; settings = codes "image" }

abbrev three : List (ExecBackendConfig Text)
three = docker none ∷ docker none ∷ docker none ∷ []

assign_ids-AssignedFrom_example :
    (ds : List (ExecBackendConfig Text)) × ((assign_ids [] three ≡ some ds)
      × AssignedFrom [] three ds)
assign_ids-AssignedFrom_example = assign_ids-AssignedFrom [] three

assign_ids-three :
    assign_ids [] three
    ≡ some (
        docker (some (codes "docker"))
        ∷ docker (some (codes "docker-2"))
        ∷ docker (some (codes "docker-3"))
        ∷ [])
unfolding assign_ids first_unused candidate text_eq decimal digits_of
assign_ids-three = refl

abbrev id_of : ExecBackendConfig Text → Text
id_of c = or_else c.id []

abbrev manager : ExecBackendManager (ExecBackendConfig Text)
manager = record {
  backends = (codes "a", docker (some (codes "a"))) ∷ (codes "b", docker (some (codes "b"))) ∷ [];
  default_id = codes "b";
}

-- An id that is made for the first backend and given to the second: one backend is left.
abbrev left : Option (Checked (ExecBackendManager (ExecBackendConfig Text)))
left = from_config id_of ((codes "docker", λ c context. c) ∷ []) (codes "host") (codes "context") (
    some (record {
      backends = docker none ∷ docker (some (codes "docker")) ∷ [];
      default_backend = none;
    }))

from_config_taken :
    left
    ≡ some (
        succeeds (record {
          backends = (codes "docker", docker (some (codes "docker"))) ∷ [];
          default_id = codes "docker";
        }))
unfolding from_config new_manager with_backends lookup insert text_eq assign_ids first_unused
    candidate create_all
from_config_taken = refl
